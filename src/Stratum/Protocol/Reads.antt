-- ===== src/Stratum/Protocol/Reads.antt =====
-- What `ParseRequest` reads of an object with the three keys of a request.
use monetarium_stratum.Prelude.{
  ℕ, ◌^◌, ◌<◌, ◌≡◌, refl, ap, ◌∙◌, false, some, List, [], ◌∷◌, lt→ltb, eq_bytes, none,
  if◌then◌else◌,
}
use monetarium_stratum.Bytes.Slice.{Bytes}
use monetarium_stratum.Bytes.Text.{codes}
use monetarium_stratum.Stratum.Protocol.Values.{
  Json, Fields, num, str, arr, obj, no_fields, field, to_list, of_list, uint64_of, string_of,
  fold_key,
}
use monetarium_stratum.Stratum.Protocol.Messages.{
  Request, no_request, with_method, set_id, set_method, set_params, set_field, read_fields,
  parse_request,
}

to_list-of_list : (xs : List Json) → to_list (of_list xs) ≡ xs
to_list-of_list [] = refl
to_list-of_list (x ∷ xs) = ap (λ r. x ∷ r) (to_list-of_list xs)

abbrev pub request_fields : ℕ → Bytes → List Json → Fields
request_fields id method params =
    field (codes "id") (num id 0) (
      field (codes "method") (str method) (field (codes "params") (arr (of_list params)) no_fields))

uint64_of-num : (n : ℕ) → n < 2 ^ 64 → uint64_of (num n 0) ≡ some n
unfolding uint64_of
uint64_of-num n fits = ap (λ b. if b then some n else none) (lt→ltb n (2 ^ 64) fits)

reads_id :
    (id : ℕ) (r : Request)
    → id < 2 ^ 64
    → set_field (codes "id") (num id 0) r ≡ some (record r { id = id })
unfolding set_field set_id fold_key
reads_id id r fits =
    ap (λ o. elim o [ none ↦ none | some n ↦ some (record r { id = n }) ]) (uint64_of-num id fits)

reads_method :
    (s : Bytes) (r : Request)
    → set_field (codes "method") (str s) r ≡ some (record r { method = s })
unfolding set_field set_method string_of fold_key
reads_method s r = refl

reads_params :
    (xs : List Json) (r : Request)
    → set_field (codes "params") (arr (of_list xs)) r ≡ some (record r { params = xs })
unfolding set_field set_params fold_key
reads_params xs r = ap (λ ys. some (record r { params = ys })) (to_list-of_list xs)

read_fields-field :
    (k : Bytes) (v : Json) (rest : Fields) (r r' : Request)
    → set_field k v r ≡ some r'
    → read_fields (field k v rest) r ≡ read_fields rest r'
unfolding read_fields
read_fields-field k v rest r r' e = ap (λ o. elim o [ none ↦ none | some q ↦ read_fields rest q ]) e

read_fields-request_fields :
    (id : ℕ) (method : Bytes) (params : List Json)
    → id < 2 ^ 64
    → read_fields (request_fields id method params) no_request
      ≡ some (record { id = id; method = method; params = params })
unfolding read_fields
read_fields-request_fields id method params fits =
    let r1 = record no_request { id = id } in
    let r2 = record r1 { method = method } in
    let last = field (codes "params") (arr (of_list params)) no_fields in
    read_fields-field (codes "id") (num id 0) (field (codes "method") (str method) last) no_request
      r1 (reads_id id no_request fits)
    ∙ read_fields-field (codes "method") (str method) last r1 r2 (reads_method method r1)
    ∙ read_fields-field (codes "params") (arr (of_list params)) no_fields r2
        (record r2 { params = params }) (reads_params params r2)

pub parse_request-request_fields :
    (id : ℕ) (method : Bytes) (params : List Json)
    → id < 2 ^ 64
    → eq_bytes method [] ≡ false
    → parse_request (some (obj (request_fields id method params)))
      ≡ some (record { id = id; method = method; params = params })
unfolding parse_request
parse_request-request_fields id method params fits named =
    ap with_method (read_fields-request_fields id method params fits)
    ∙ ap (λ b. if b then none else some (record { id = id; method = method; params = params }))
        named
