-- ===== src/Mining/Throttle/Counts.antt =====
-- The counters of the throttle after any number of solved blocks, and the blocks that it lets pass.
use native.Mathlib.Nat.{
  suc-mul, mul-add-mod_self_right, mod-eq_of_lt, mod_self, add-mul, mod-lt, mod-add-mod,
}
use native.Mathlib.Decide.{dec_lt, ℕ_discrete}
use monetarium_stratum.Prelude.{
  ℕ, zero, suc, ◌+◌, ◌-◌, ◌*◌, ◌%◌, ◌^◌, ◌≤◌, ◌<◌, ◌≡◌, ◌≢◌, ◌↔◌, ◌⊎◌, inl, inr, Bool, true, false,
  refl, ap, ◌∙◌, arith, ◌==◌, leb, ◌||◌, subst, Bool-cases, if◌then◌else◌,
}
use monetarium_stratum.Mining.Throttle.{BlockThrottle, new_block_throttle, allow}

-- The throttle after `n` calls of `allow`.
pub allow_times : ℕ → BlockThrottle → BlockThrottle
allow_times zero t = t
allow_times (suc n) t = (allow (allow_times n t)).0

-- Divisor 0 counts as 1.
abbrev pub effective : ℕ → ℕ
effective d = if d == 0 then 1 else d

-- After `n` blocks one in `every` was let pass, counted up: `submitted` is the least number whose
-- multiple by `every` is not below `n`.
pub record Counted (every n : ℕ) (t : BlockThrottle) : Type 0 where
  pub divides : t.divisor ≡ every
  pub found : t.found_blocks ≡ n
  pub enough : n ≤ t.submitted * every
  pub tight : t.submitted * every < n + every
  pub shared : t.submitted + t.throttled ≡ n

mod_of_quotient : (s every m : ℕ) → m < every → (s * every + m) % every ≡ m
mod_of_quotient s every m h = mul-add-mod_self_right s every m ∙ mod-eq_of_lt h

-- Where the next block stands in its group of `every`.
next_in_group :
    (s n every : ℕ)
    → 1 < every
    → n ≤ s * every
    → s * every < n + every
    → ((n ≡ s * every) × ((n + 1) % every ≡ 1)) ⊎ ((n < s * every) × ((n + 1) % every ≢ 1))
next_in_group s n every h lo hi = elim (ℕ_discrete n (s * every)) [
  | yes e ↦ inl (e, rw e (mod_of_quotient s every 1 h))
  | no ne ↦ inr (omega arith, past s (omega arith) hi)
]
  where
    past : (k : ℕ) → n < k * every → k * every < n + every → (n + 1) % every ≢ 1
    past zero p q = absurd (omega arith)
    past (suc k) p q =
        let m = n + 1 - k * every in
        let e : n + 1 ≡ k * every + m = omega (arith, suc-mul k every) in
        let f : (n + 1) % every ≡ m % every =
          ap (λ x. x % every) e ∙ mul-add-mod_self_right k every m in
        elim (ℕ_discrete m every) [
          | yes full ↦ λ one.
              let g : m % every ≡ 0 = ap (λ x. x % every) full ∙ mod_self every in
              absurd (omega arith)
          | no part ↦ λ one.
              let g : m % every ≡ m = mod-eq_of_lt (omega (arith, suc-mul k every)) in
              absurd (omega (arith, suc-mul k every))
        ]

-- The test of `allow`, at counters that have not wrapped.
abbrev passes : ℕ → ℕ → Bool
passes every n = leb every 1 || (n + 1) % every == 1

allow-passes :
    (every n : ℕ) (t : BlockThrottle)
    → n + 1 < 2 ^ 64
    → Counted every n t
    → allow t ≡ (
        if passes every n
        then (record t { found_blocks = n + 1; submitted = t.submitted + 1 }, true)
        else (record t { found_blocks = n + 1; throttled = t.throttled + 1 }, false))
unfolding allow
allow-passes every n t fits c =
    let f : (t.found_blocks + 1) % 2 ^ 64 ≡ n + 1 = omega arith in
    let s : (t.submitted + 1) % 2 ^ 64 ≡ t.submitted + 1 = omega arith in
    let d : (t.throttled + 1) % 2 ^ 64 ≡ t.throttled + 1 = omega arith in
    rw (f, s, d, c.divides) refl

allow-Counted :
    (every n : ℕ) (t : BlockThrottle)
    → 0 < every
    → n + 1 < 2 ^ 64
    → Counted every n t
    → Counted every (n + 1) (allow t).0
allow-Counted every n t pos fits c =
    let q : (t.submitted + 1) * every ≡ t.submitted * every + every =
      add-mul t.submitted 1 every ∙ omega arith in
    rw (allow-passes every n t fits c) (elim (dec_lt 1 every) [
      | no h ↦
          let e : every ≡ 1 = omega arith in
          let m : t.submitted * every ≡ t.submitted = ap (λ x. t.submitted * x) e ∙ omega arith in
          ground arith
      | yes h ↦ elim (next_in_group t.submitted n every h c.enough c.tight) [
        | inl (e, g) ↦ ground arith
        | inr (e, g) ↦ ground arith
      ]
    ])

-- The counters after `n` solved blocks, fewer than 2 ^ 64: all found, one in every `divisor`
-- submitted, counted up, and the others throttled. Divisor 0 counts as 1.
pub allow_times-Counted :
    (d n : ℕ) → n < 2 ^ 64 → Counted (effective d) n (allow_times n (new_block_throttle d))
unfolding allow_times new_block_throttle
allow_times-Counted d zero h = ground arith
allow_times-Counted d (suc n) h =
    let e : n + 1 ≡ suc n = omega arith in
    subst (λ k. Counted (effective d) k (allow_times (suc n) (new_block_throttle d))) e
      (allow-Counted (effective d) n (allow_times n (new_block_throttle d)) (ground arith)
        (omega arith) (allow_times-Counted d n (omega arith)))

first_of_group : (every r : ℕ) → 1 < every → r < every → ((r + 1) % every ≡ 1) ↔ (r ≡ 0)
first_of_group every r h fits = elim (ℕ_discrete (r + 1) every) [
  | yes full ↦
      let g : (r + 1) % every ≡ 0 = ap (λ x. x % every) full ∙ mod_self every in
      (λ one. absurd (omega arith), λ z. absurd (omega arith))
  | no part ↦
      let g : (r + 1) % every ≡ r + 1 = mod-eq_of_lt (omega arith) in
      (λ one. omega arith, λ z. omega arith)
]

passes_iff : (every n : ℕ) → 0 < every → (passes every n ≡ true) ↔ (n % every ≡ 0)
passes_iff every n pos = elim (dec_lt 1 every) [
  | no h ↦
      let e : every ≡ 1 = omega arith in (λ t. ap (λ x. n % x) e ∙ omega arith, λ z. ground arith)
  | yes h ↦
      let r = first_of_group every (n % every) h (mod-lt n pos) in
      let m : (n % every + 1) % every ≡ (n + 1) % every = mod-add-mod n every 1 in
      (λ t. r.0 (ground arith), λ z. ground (arith, r.1 z))
]

-- While the counters do not wrap, the block after `n` others is let pass exactly when `n` is a
-- multiple of the divisor (0 counts as 1): the first one, the (1+N)th, the (1+2N)th.
pub allow_iff :
    (d n : ℕ)
    → n + 1 < 2 ^ 64
    → ((allow (allow_times n (new_block_throttle d))).1 ≡ true) ↔ (n % effective d ≡ 0)
allow_iff d n h =
    let every = effective d in
    let t = allow_times n (new_block_throttle d) in
    let pos : 0 < effective d = ground arith in
    rw (allow-passes every n t h (allow_times-Counted d n (omega arith)))
      (elim (Bool-cases (passes every n)) [
        | inl e ↦ rw e (λ _. (passes_iff every n pos).0 e, λ _. refl)
        | inr e ↦ rw e (λ b. cc, λ z. cc ((passes_iff every n pos).1 z))
      ])
