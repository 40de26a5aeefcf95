-- ===== src/Stratum/Protocol/Values.antt =====
-- JSON values, and how `json.Unmarshal` reads them into the program's types.
use monetarium_stratum.Prelude.{
  ℕ, ◌+◌, ◌^◌, Bool, ◌&&◌, Option, none, some, List, [], ◌∷◌, map, ◌==◌, ltb, leb, if◌then◌else◌,
}
use monetarium_stratum.Bytes.Slice.{Bytes}

-- `num whole fraction`: a non-negative number by its integer part and its digits after the point;
-- no other number occurs in what the program sends.
mutual
  pub data Json : Type 0 where
    null : Json
    bool : Bool → Json
    num : ℕ → ℕ → Json
    str : Bytes → Json
    arr : Items → Json
    obj : Fields → Json

  pub data Items : Type 0 where
    no_items : Items
    item : Json → Items → Items

  pub data Fields : Type 0 where
    no_fields : Fields
    field : Bytes → Json → Fields → Fields

abbrev pub to_list : Items → List Json
to_list no_items = []
to_list (item v r) = v ∷ to_list r

abbrev pub of_list : List Json → Items
of_list [] = no_items
of_list (v ∷ r) = item v (of_list r)

-- Into a string: `null` leaves the empty string, any other kind of value is an error.
unfoldable pub string_of : Json → Option Bytes
string_of null = some []
string_of (str s) = some s
string_of _ = none

-- Into a uint64: an integer literal in range; `null` leaves 0.
unfoldable pub uint64_of : Json → Option ℕ
uint64_of null = some 0
uint64_of (num whole fraction) = if (fraction == 0) && ltb whole (2 ^ 64) then some whole else none
uint64_of _ = none

abbrev cons_text : Option Bytes → Option (List Bytes) → Option (List Bytes)
cons_text (some s) (some r) = some (s ∷ r)
cons_text _ _ = none

-- `ParseStringParams`: each parameter as a string, or the first error.
unfoldable pub string_params : List Json → Option (List Bytes)
unfolding string_of
string_params [] = some []
string_params (p ∷ ps) = cons_text (string_of p) (string_params ps)

-- Object keys match field names whatever their case.
unfoldable pub fold_key : Bytes → Bytes
fold_key = map (λ c. if leb b'A' c && leb c b'Z' then c + 32 else c)
