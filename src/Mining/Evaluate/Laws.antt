-- ===== src/Mining/Evaluate/Laws.antt =====
-- What the decision means in terms of the order of the targets, and the bounds of a share target.
use native.Mathlib.Nat.{eq-zero-or-pos, div-mul-le_self, div-le_self, lt-mul-div-succ, mul-le-mul}
use native.Mathlib.Decide.{dec_le}
use mathlib.Core.Option.{some-injective}
use monetarium_stratum.Prelude.{
  sym, subst, ◌∙◌, inl, inr, refl, true, false, ℕ, ◌+◌, ◌*◌, ◌/◌, ◌≤◌, ◌<◌, ◌≡◌, ◌⊎◌, ◌↔◌, none,
  some, arith, ℤ, pos, negsuc, gt_ℤ,
}
use monetarium_stratum.Mining.Chain.{Chain}
use monetarium_stratum.Mining.Evaluate.Decide.{
  rejected, accepted_share, submit_block, evaluate_submit, share_target,
}

-- The order of the integers.
abbrev pub ◌≤ℤ◌ : ℤ → ℤ → Type 0
◌≤ℤ◌ (pos a) (pos b) = a ≤ b
◌≤ℤ◌ (pos a) (negsuc b) = ⊥
◌≤ℤ◌ (negsuc a) (pos b) = Unit
◌≤ℤ◌ (negsuc a) (negsuc b) = b ≤ a

infix 50 ◌≤ℤ◌
gt_ℤ-cases : (a b : ℤ) → ((gt_ℤ a b ≡ true) × (¬ (a ≤ℤ b))) ⊎ ((gt_ℤ a b ≡ false) × a ≤ℤ b)
gt_ℤ-cases (pos a) (pos b) = ground arith
gt_ℤ-cases (pos a) (negsuc b) = inl (refl, λ h. h)
gt_ℤ-cases (negsuc a) (pos b) = inr (refl, tt)
gt_ℤ-cases (negsuc a) (negsuc b) = ground arith

-- A block is submitted exactly for a hash within both targets, a share is accepted exactly for a
-- hash within the share target and not the block target, and all other hashes are rejected.
pub evaluate_submit_lem :
    (hash share block : ℤ)
    → ((evaluate_submit hash share block ≡ submit_block) ↔ (hash ≤ℤ share × hash ≤ℤ block))
      × ((evaluate_submit hash share block ≡ accepted_share)
          ↔ (hash ≤ℤ share × (¬ (hash ≤ℤ block))))
      × ((evaluate_submit hash share block ≡ rejected) ↔ (¬ (hash ≤ℤ share)))
unfolding evaluate_submit
evaluate_submit_lem hash share block = elim (gt_ℤ-cases hash share) [
  | inl (g, n) ↦
      rw g ((λ e. cc, λ h. absurd (n h.0)), (λ e. cc, λ h. absurd (n h.0)), (λ e. n, λ h. refl))
  | inr (g, l) ↦ elim (gt_ℤ-cases hash block) [
    | inl (g', n') ↦
        rw (g, g')
          ((λ e. cc, λ h. absurd (n' h.1)), (λ e. (l, n'), λ h. refl), (λ e. cc, λ h. absurd (h l)))
    | inr (g', l') ↦
        rw (g, g')
          ((λ e. (l, l'), λ h. refl), (λ e. cc, λ h. absurd (h.1 l')), (λ e. cc, λ h. absurd (h l)))
  ]
]

-- At a positive difficulty the share target is the integer quotient of the limit, and never above
-- the limit. At difficulty 0 the division panics.
pub share_target_lem :
    (c : Chain) (difficulty : ℕ)
    → ((difficulty ≡ 0) × (share_target c difficulty ≡ none))
      ⊎ ((0 < difficulty)
          × ((t : ℕ) × (share_target c difficulty ≡ some t)
              × (t ≤ c.pow_limit)
              × (t * difficulty ≤ c.pow_limit)
              × (c.pow_limit < (t + 1) * difficulty)))
unfolding share_target
share_target_lem c difficulty = elim (eq-zero-or-pos difficulty) [
  | inl z ↦ inl (z, ground arith)
  | inr p ↦
      let t = c.pow_limit / difficulty in
      let below : t * difficulty ≤ c.pow_limit = div-mul-le_self c.pow_limit difficulty in
      let le : t ≤ c.pow_limit = div-le_self c.pow_limit difficulty in
      inr (p, (t, ground arith, le, below, grind (arith, lt-mul-div-succ c.pow_limit p)))
]

share_target_bounds :
    (c : Chain) (d t : ℕ)
    → share_target c d ≡ some t
    → (t * d ≤ c.pow_limit) × (c.pow_limit < (t + 1) * d)
share_target_bounds c d t p = elim (share_target_lem c d) [
  | inl (_, e) ↦ absurd (cc)
  | inr (_, (t', e, _, lo, hi)) ↦
      subst (λ x. (x * d ≤ c.pow_limit) × (c.pow_limit < (x + 1) * d))
        (some-injective _ _ (sym e ∙ p)) (lo, hi)
]

quotient_antitone : (l d e t u : ℕ) → d ≤ e → u * e ≤ l → l < (t + 1) * d → u ≤ t
quotient_antitone l d e t u h lo hi = elim (dec_le u t) [
  | yes p ↦ p
  | no p ↦ let q : t + 1 ≤ u = omega arith in absurd (omega (arith, mul-le-mul q h))
]

-- A larger difficulty has no larger target, where both difficulties have one.
pub share_target_antitone :
    (c : Chain) (d e t u : ℕ)
    → d ≤ e
    → share_target c d ≡ some t
    → share_target c e ≡ some u
    → u ≤ t
share_target_antitone c d e t u h p q =
    quotient_antitone c.pow_limit d e t u h (share_target_bounds c e u q).0
      (share_target_bounds c d t p).1
