-- ===== src/Bytes/Dict.antt =====
-- Go maps with string keys, as association lists in the order of insertion.
use monetarium_stratum.Prelude.{
  ◌≡◌, ◌≢◌, refl, ap, Option, none, some, List, [], ◌∷◌, ◌++◌, map, if◌then◌else◌, eq_bytes,
  eq_bytes→eq, eq_bytes_refl, ne→eq_bytes, Bool-cases, inl, inr, All, sym, subst,
}
use monetarium_stratum.Bytes.Slice.{Bytes}

module _ {V : Type 0} where
  abbrev pub keys : List (Bytes × V) → List Bytes
  keys = map (λ e. e.0)

  -- `m[k]` with its presence flag.
  unfoldable pub lookup : Bytes → List (Bytes × V) → Option V
  lookup k [] = none
  lookup k ((j, v) ∷ m) = if eq_bytes j k then some v else lookup k m

  -- `m[k] = v`
  unfoldable pub insert : Bytes → V → List (Bytes × V) → List (Bytes × V)
  insert k v [] = (k, v) ∷ []
  insert k v ((j, w) ∷ m) = if eq_bytes j k then (k, v) ∷ m else (j, w) ∷ insert k v m

  -- `delete(m, k)`
  unfoldable pub remove : Bytes → List (Bytes × V) → List (Bytes × V)
  remove k [] = []
  remove k ((j, v) ∷ m) = if eq_bytes j k then m else (j, v) ∷ remove k m

  pub lookup-insert_self :
      (k : Bytes) (v : V) (m : List (Bytes × V)) → lookup k (insert k v m) ≡ some v
  unfolding lookup insert
  lookup-insert_self k v [] = rw (eq_bytes_refl k)
  lookup-insert_self k v ((j, w) ∷ m) = elim (Bool-cases (eq_bytes j k)) [
    | inl e ↦ rw (e, eq_bytes_refl k)
    | inr e ↦ rw (e, e) (lookup-insert_self k v m)
  ]

  pub lookup-insert_ne :
      (k j : Bytes) (v : V) (m : List (Bytes × V)) → k ≢ j → lookup j (insert k v m) ≡ lookup j m
  unfolding lookup insert
  lookup-insert_ne k j v [] ne = rw (ne→eq_bytes k j ne)
  lookup-insert_ne k j v ((i, w) ∷ m) ne = elim (Bool-cases (eq_bytes i k)) [
    | inl e ↦
        rw
          (e, ne→eq_bytes k j ne, ne→eq_bytes i j (subst (λ x. x ≢ j) (sym (eq_bytes→eq i k e)) ne))
    | inr e ↦ rw e (ap (λ t. if eq_bytes i j then some w else t) (lookup-insert_ne k j v m ne))
  ]

  -- A new key goes to the end.
  pub insert_new :
      (k : Bytes) (v : V) (m : List (Bytes × V))
      → All (λ j. j ≢ k) (keys m)
      → insert k v m ≡ m ++ (k, v) ∷ []
  unfolding insert
  insert_new k v [] h = refl
  insert_new k v ((j, w) ∷ m) h = rw (ne→eq_bytes j k h.0) (ap (◌∷◌ (j, w)) (insert_new k v m h.1))

  pub remove_first : (k : Bytes) (v : V) (m : List (Bytes × V)) → remove k ((k, v) ∷ m) ≡ m
  unfolding remove
  remove_first k v m = rw (eq_bytes_refl k)

  pub lookup_tail :
      (k j : Bytes) (v : V) (m : List (Bytes × V)) → k ≢ j → lookup j ((k, v) ∷ m) ≡ lookup j m
  unfolding lookup
  lookup_tail k j v m ne = rw (ne→eq_bytes k j ne)
