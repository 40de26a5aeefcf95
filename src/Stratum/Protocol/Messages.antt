-- ===== src/Stratum/Protocol/Messages.antt =====
-- The constants, records and constructors of protocol.go.
use monetarium_stratum.Prelude.{ℕ, Bool, Option, none, some, List, [], ◌∷◌, if◌then◌else◌, eq_bytes}
use monetarium_stratum.Bytes.Slice.{Bytes}
use monetarium_stratum.Bytes.Text.{codes}
use monetarium_stratum.Stratum.Protocol.Values.{
  Json, Fields, null, bool, num, str, arr, obj, no_fields, field, to_list, of_list, string_of,
  uint64_of, fold_key,
}

abbrev pub method_subscribe : Bytes
method_subscribe = codes "mining.subscribe"

abbrev pub method_authorize : Bytes
method_authorize = codes "mining.authorize"

abbrev pub method_submit : Bytes
method_submit = codes "mining.submit"

abbrev pub method_suggest_difficulty : Bytes
method_suggest_difficulty = codes "mining.suggest_difficulty"

abbrev pub method_notify : Bytes
method_notify = codes "mining.notify"

abbrev pub method_set_difficulty : Bytes
method_set_difficulty = codes "mining.set_difficulty"

abbrev pub method_set_extra_nonce : Bytes
method_set_extra_nonce = codes "mining.set_extranonce"

abbrev pub err_low_difficulty : ℕ
err_low_difficulty = 20

abbrev pub err_unknown : ℕ
err_unknown = 21

abbrev pub err_stale_share : ℕ
err_stale_share = 22

abbrev pub err_duplicate_share : ℕ
err_duplicate_share = 23

abbrev pub err_unauthorized : ℕ
err_unauthorized = 24

pub record StratumError : Type 0 where
  pub code : ℕ
  pub message : Bytes

pub record Request : Type 0 where
  pub id : ℕ  -- uint64
  pub method : Bytes
  pub params : List Json

pub record Response : Type 0 where
  pub id : ℕ
  pub result : Option Json
  pub error : Option StratumError

pub record Notification : Type 0 where
  pub id : ℕ
  pub method : Bytes
  pub params : List Json

-- What a server puts on a client's queue.
pub data Message : Type 0 where
  response : Response → Message
  notification : Notification → Message

-- One object member read into a request; `null` leaves a field as it is, but empties `Params`.
unfoldable pub set_id : Json → Request → Option Request
unfolding uint64_of
set_id null r = some r
set_id v r = elim (uint64_of v) [ none ↦ none | some n ↦ some (record r { id = n }) ]

unfoldable pub set_method : Json → Request → Option Request
unfolding string_of
set_method null r = some r
set_method v r = elim (string_of v) [ none ↦ none | some s ↦ some (record r { method = s }) ]

unfoldable pub set_params : Json → Request → Option Request
set_params null r = some (record r { params = [] })
set_params (arr xs) r = some (record r { params = to_list xs })
set_params _ r = none

unfoldable pub set_field : Bytes → Json → Request → Option Request
unfolding set_id set_method set_params fold_key
set_field key v r =
    let k = fold_key key in
    if eq_bytes k (codes "id")
    then set_id v r
    else if eq_bytes k (codes "method")
    then set_method v r
    else if eq_bytes k (codes "params")
    then set_params v r
    else some r

unfoldable pub read_fields : Fields → Request → Option Request
unfolding set_field
read_fields no_fields r = some r
read_fields (field k v rest) r = elim (set_field k v r) [
  | none ↦ none
  | some r' ↦ read_fields rest r'
]

abbrev pub no_request : Request
no_request = record { id = 0; method = []; params = [] }

-- A request without a method is an error.
abbrev pub with_method : Option Request → Option Request
with_method none = none
with_method (some r) = if eq_bytes r.method [] then none else some r

-- `ParseRequest`; `none` in the place of a value is a line that is no JSON.
unfoldable pub parse_request : Option Json → Option Request
unfolding read_fields
parse_request none = none
parse_request (some (obj fs)) = with_method (read_fields fs no_request)
parse_request (some _) = none

unfoldable pub new_response : ℕ → Json → Response
new_response id result = record { id = id; result = some result; error = none }

unfoldable pub new_error_response : ℕ → ℕ → Bytes → Response
new_error_response id code message = record {
  id = id;
  result = none;
  error = some (record { code = code; message = message });
}

unfoldable pub new_notify :
    Bytes → Bytes → Bytes → Bytes → List Json → Bytes → Bytes → Bytes → Bool → Notification
new_notify job_id prev_hash gen_tx1 gen_tx2 branches version nbits ntime clean = record {
  id = 0;
  method = method_notify;
  params =
      str job_id
      ∷ str prev_hash
      ∷ str gen_tx1
      ∷ str gen_tx2
      ∷ arr (of_list branches)
      ∷ str version
      ∷ str nbits
      ∷ str ntime
      ∷ bool clean
      ∷ [];
}

-- The difficulties that the pool sends are uint32 values, exact as float64.
unfoldable pub new_set_difficulty : ℕ → Notification
new_set_difficulty difficulty = record {
  id = 0;
  method = method_set_difficulty;
  params = num difficulty 0 ∷ [];
}

unfoldable pub new_set_extra_nonce : Bytes → ℕ → Notification
new_set_extra_nonce extra_nonce1 len = record {
  id = 0;
  method = method_set_extra_nonce;
  params = str extra_nonce1 ∷ num len 0 ∷ [];
}
