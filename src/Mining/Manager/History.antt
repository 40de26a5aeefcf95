-- ===== src/Mining/Manager/History.antt =====
-- The history of the jobs that a work manager issued, all of them, and the last of them.
use monetarium_stratum.Prelude.{
  ℕ, zero, suc, ◌+◌, ◌-◌, ◌≤◌, ◌<◌, ◌≡◌, refl, sym, ap, ◌∙◌, false, Option, none, some, List, [],
  ◌∷◌, ◌++◌, arith, ltb, Bool-cases, inl, inr, length, length-append, length-drop, drop,
  if◌then◌else◌, ok, err, eq_bytes, le→ltb,
}
use monetarium_stratum.Bytes.Slice.{Bytes}
use monetarium_stratum.Bytes.Decimal.{format_uint}
use monetarium_stratum.Mining.Work.{Work, new_work}
use monetarium_stratum.Mining.Manager.{is_duplicate}

-- All jobs that were ever issued, oldest first, and the numbers used.
pub record History : Type 0 where
  pub issued : List Work
  pub seq : ℕ

abbrev pub last : List Work → Option Work
last [] = none
last (w ∷ ws) = elim ws [ [] ↦ some w | v ∷ vs ↦ last ws ]

abbrev pub last_n : ℕ → List Work → List Work
last_n k ws = drop (length ws - k) ws

abbrev pub find_work : Bytes → List Work → Option Work
find_work id [] = none
find_work id (w ∷ ws) = if eq_bytes w.job_id id then some w else find_work id ws

-- Data for a new template, to the history: a blob that is not that of the last job is issued under
-- the next number, if it has the right size.
abbrev pub issue : Bytes → History → History
issue blob h =
    if is_duplicate (last h.issued) blob
    then h
    else elim (new_work blob (format_uint (h.seq + 1))) [
      | err e ↦ record h { seq = h.seq + 1 }
      | ok w ↦ record { issued = h.issued ++ w ∷ []; seq = h.seq + 1 }
    ]

abbrev pub entry : Work → Bytes × Work
entry w = (w.job_id, w)

pub last-snoc : (ws : List Work) (w : Work) → last (ws ++ w ∷ []) ≡ some w
last-snoc [] w = refl
last-snoc (v ∷ []) w = refl
last-snoc (v ∷ u ∷ ws) w = last-snoc (u ∷ ws) w

pub drop_nil : {A : Type 0} (n : ℕ) → drop {A = A} n [] ≡ []
drop_nil zero = refl
drop_nil (suc n) = refl

drop-append :
    {A : Type 0} (n : ℕ) (xs ys : List A) → n ≤ length xs → drop n (xs ++ ys) ≡ drop n xs ++ ys
drop-append zero xs ys le = refl
drop-append (suc n) [] ys le = absurd (omega arith)
drop-append (suc n) (x ∷ xs) ys le = drop-append n xs ys (omega arith)

drop-drop : {A : Type 0} (n : ℕ) (xs : List A) → drop 1 (drop n xs) ≡ drop (suc n) xs
drop-drop zero xs = refl
drop-drop (suc n) [] = refl
drop-drop (suc n) (x ∷ xs) = drop-drop n xs

-- What an eviction leaves of a window of `k` jobs.
abbrev pub trimmed : ℕ → List Work → List Work
trimmed k ws = if ltb (length ws) k then ws else drop 1 ws

pub trimmed-last_n :
    (k : ℕ) (ws : List Work) (w : Work)
    → 0 < k
    → trimmed k (last_n k ws) ++ w ∷ [] ≡ last_n k (ws ++ w ∷ [])
trimmed-last_n k ws w pos =
    let l : length (ws ++ w ∷ []) ≡ length ws + 1 = length-append ws (w ∷ []) in
    let d : length (last_n k ws) ≡ length ws - (length ws - k) = length-drop (length ws - k) ws in
    elim (Bool-cases (ltb (length ws) k)) [
      | inl short ↦
          let none_gone : length ws - k ≡ 0 = ground arith in
          let none_goes : length (ws ++ w ∷ []) - k ≡ 0 = ground (arith, l) in
          let all : last_n k ws ≡ ws = ap (λ n. drop n ws) none_gone in
          let all' : last_n k (ws ++ w ∷ []) ≡ ws ++ w ∷ [] =
            ap (λ n. drop n (ws ++ w ∷ [])) none_goes in
          let kept : trimmed k (last_n k ws) ≡ ws = rw (all, short) refl in rw (kept, all') refl
      | inr full ↦
          let size : length (last_n k ws) ≡ k = ground (arith, d) in
          let not_below : ltb (length (last_n k ws)) k ≡ false = le→ltb _ k (omega (arith, size)) in
          let one_more : length (ws ++ w ∷ []) - k ≡ suc (length ws - k) = ground (arith, l) in
          let in_range : suc (length ws - k) ≤ length ws = ground arith in
          let trims : trimmed k (last_n k ws) ≡ drop (suc (length ws - k)) ws =
            ap (λ b. if b then last_n k ws else drop 1 (last_n k ws)) not_below
            ∙ drop-drop (length ws - k) ws in
          ap (λ x. x ++ w ∷ []) trims
          ∙ sym (drop-append (suc (length ws - k)) ws (w ∷ []) in_range)
          ∙ ap (λ n. drop n (ws ++ w ∷ [])) (sym one_more)
    ]

abbrev pub history : List (Bytes × Bytes) → History → History
history [] h = h
history ((blob, reason) ∷ updates) h = history updates (issue blob h)

abbrev pub no_history : History
no_history = record { issued = []; seq = 0 }
