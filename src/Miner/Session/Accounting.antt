-- ===== src/Miner/Session/Accounting.antt =====
-- The miner's count of shares: each one that it submits is accepted, rejected or awaited.
use monetarium_stratum.Prelude.{
  ℕ, suc, ◌+◌, ◌%◌, ◌^◌, ◌≤◌, ◌<◌, ◌≡◌, ◌≢◌, refl, sym, ap, ◌∙◌, subst, Bool, false, List, [], ◌∷◌,
  ◌++◌, arith, Bool-cases, Option-cases, inl, inr, length, ◌==◌, All, Distinct, if◌then◌else◌,
}
use monetarium_stratum.Bytes.Slice.{Bytes}
use monetarium_stratum.Bytes.Endian.{le_bytes}
use monetarium_stratum.Stratum.Protocol.{method_submit}
use monetarium_stratum.Miner.Job.{Job}
use monetarium_stratum.Miner.Session.{
  Incoming, Miner, send_request, next_request_id, submit_share, handle_response, has, drop_id, Sent,
  submit_params,
}

drop_id-All : (P : ℕ → Type 0) (id : ℕ) (xs : List ℕ) → All P xs → All P (drop_id id xs)
unfolding drop_id
drop_id-All P id [] h = tt
drop_id-All P id (x ∷ xs) h = elim (Bool-cases (x == id)) [
  | inl e ↦ rw e (drop_id-All P id xs (h.1))
  | inr e ↦ rw e (h.0, drop_id-All P id xs (h.1))
]

drop_id-Distinct : (id : ℕ) (xs : List ℕ) → Distinct xs → Distinct (drop_id id xs)
unfolding drop_id
drop_id-Distinct id [] h = tt
drop_id-Distinct id (x ∷ xs) h = elim (Bool-cases (x == id)) [
  | inl e ↦ rw e (drop_id-Distinct id xs (h.1))
  | inr e ↦ rw e (drop_id-All (λ y. x ≢ y) id xs (h.0), drop_id-Distinct id xs (h.1))
]

drop_id_absent : (id : ℕ) (xs : List ℕ) → All (λ y. id ≢ y) xs → drop_id id xs ≡ xs
unfolding drop_id
drop_id_absent id [] h = refl
drop_id_absent id (x ∷ xs) h =
    let e : (x == id) ≡ false = grind (arith, h.0) in
    rw e (ap (λ t. x ∷ t) (drop_id_absent id xs (h.1)))

-- A number that is there stands once, and goes.
length-drop_id :
    (id : ℕ) (xs : List ℕ)
    → Distinct xs
    → length xs ≡ (if has id xs then length (drop_id id xs) + 1 else length (drop_id id xs))
unfolding drop_id has
length-drop_id id [] h = refl
length-drop_id id (x ∷ xs) h = elim (Bool-cases (x == id)) [
  | inl e ↦
      let same : x ≡ id = ground arith in
      let rest : drop_id id xs ≡ xs =
        drop_id_absent id xs (subst (λ k. All (λ y. k ≢ y) xs) same (h.0)) in
      rw e (omega (arith, ap length rest))
  | inr e ↦ rw e (ground (arith, length-drop_id id xs (h.1)))
]

All-map :
    {A : Type 0} (P Q : A → Type 0) → ((a : A) → P a → Q a) → (xs : List A) → All P xs → All Q xs
All-map P Q f [] h = tt
All-map P Q f (x ∷ xs) h = (f x (h.0), All-map P Q f xs (h.1))

module _ (m0 : Miner) where
  -- A connection of the miner after `n` shares: shares are submitted, messages answer them or not,
  -- and writes begin and cease to work, in any order.
  pub data IsMining : ℕ → Miner → Type 0 where
    started : IsMining 0 (record m0 { pending = [] })
    submitted :
        (n nonce : ℕ) (job : Job) (extra_nonce2 : Bytes) (m : Miner)
        → IsMining n m
        → IsMining (suc n) (submit_share job extra_nonce2 nonce m)
    answered :
        (n : ℕ) (msg : Incoming) (m : Miner) → IsMining n m → IsMining n (handle_response msg m)
    writes :
        (n : ℕ) (works : Bool) (m : Miner)
        → IsMining n m
        → IsMining n (record m { writable = works })

  record Conserved (n : ℕ) (m : Miner) : Type 0 where
    below : All (λ i. i ≤ m.next_id) m.pending
    distinct : Distinct m.pending
    numbered : m.next_id ≡ m0.next_id + n
    total : m.accepted + m.rejected + length m.pending ≡ m0.accepted + m0.rejected + n

  registered :
      (n : ℕ) (sent : List Sent) (m : Miner)
      → m0.next_id + n + 1 < 2 ^ 64
      → Conserved n m
      → Conserved (suc n) (record m {
        next_id = m.next_id + 1;
        sent = sent;
        pending = (m.next_id + 1) ∷ drop_id (m.next_id + 1) m.pending;
      })
  registered n sent m fits c =
      let new : All (λ y. m.next_id + 1 ≢ y) m.pending =
        All-map (λ i. i ≤ m.next_id) (λ y. m.next_id + 1 ≢ y) (λ i le e. absurd (omega arith))
          m.pending c.below in
      let kept : drop_id (m.next_id + 1) m.pending ≡ m.pending =
        drop_id_absent (m.next_id + 1) m.pending new in
      rw kept (record {
        below = (
          omega arith,
          All-map (λ i. i ≤ m.next_id) (λ i. i ≤ m.next_id + 1) (λ i le. omega arith) m.pending
              c.below,
        );
        distinct = (new, c.distinct);
        numbered = omega (arith, c.numbered);
        total = omega (arith, c.total);
      })

  submit_share-Conserved :
      (n nonce : ℕ) (job : Job) (extra_nonce2 : Bytes) (m : Miner)
      → m0.next_id + n + 1 < 2 ^ 64
      → m0.accepted + m0.rejected + n + 1 < 2 ^ 64
      → Conserved n m
      → Conserved (suc n) (submit_share job extra_nonce2 nonce m)
  unfolding submit_share send_request next_request_id
  submit_share-Conserved n nonce job extra_nonce2 m fits room c =
      let id : (m.next_id + 1) % 2 ^ 64 ≡ m.next_id + 1 = omega (arith, c.numbered) in
      let r : (m.rejected + 1) % 2 ^ 64 ≡ m.rejected + 1 = omega (arith, c.total) in
      elim (Bool-cases m.writable) [
        | inl e ↦
            let sent =
              m.sent
              ++ record {
                id = m.next_id + 1;
                method = method_submit;
                params = submit_params m.user job.job_id extra_nonce2 job.ntime (le_bytes 4 nonce);
              }
                ∷ [] in
            let run : submit_share job extra_nonce2 nonce m ≡ record m {
              next_id = m.next_id + 1;
              sent = sent;
              pending = (m.next_id + 1) ∷ drop_id (m.next_id + 1) m.pending;
            } =
              simp (e, id) in
            subst (Conserved (suc n)) (sym run) (registered n sent m fits c)
        | inr e ↦
            let run : submit_share job extra_nonce2 nonce m
                ≡ record m { next_id = m.next_id + 1; rejected = m.rejected + 1 } =
              simp (e, id, r) in
            subst (Conserved (suc n)) (sym run) (record {
              below =
                  All-map (λ i. i ≤ m.next_id) (λ i. i ≤ m.next_id + 1) (λ i le. omega arith)
                    m.pending c.below;
              distinct = c.distinct;
              numbered = omega (arith, c.numbered);
              total = omega (arith, c.total);
            })
      ]

  handle_response-Conserved :
      (n : ℕ) (msg : Incoming) (m : Miner)
      → m0.accepted + m0.rejected + n < 2 ^ 64
      → Conserved n m
      → Conserved n (handle_response msg m)
  unfolding handle_response
  handle_response-Conserved n msg m room c =
      let l = length-drop_id msg.id m.pending c.distinct in
      let below = drop_id-All (λ i. i ≤ m.next_id) msg.id m.pending c.below in
      let distinct = drop_id-Distinct msg.id m.pending c.distinct in
      elim (Bool-cases (has msg.id m.pending)) [
        | inl e ↦
            let one : length m.pending ≡ length (drop_id msg.id m.pending) + 1 = l ∙ simp e in
            let a : (m.accepted + 1) % 2 ^ 64 ≡ m.accepted + 1 = omega (arith, c.total) in
            let r : (m.rejected + 1) % 2 ^ 64 ≡ m.rejected + 1 = omega (arith, c.total) in
            elim (Option-cases msg.error) [
              | inl f ↦
                  let run : handle_response msg m
                      ≡ record m { pending = drop_id msg.id m.pending; accepted = m.accepted + 1 } =
                    simp (e, f, a) in
                  subst (Conserved n) (sym run) (record {
                    below = below;
                    distinct = distinct;
                    numbered = c.numbered;
                    total = omega (arith, c.total);
                  })
              | inr (x, f) ↦
                  let run : handle_response msg m
                      ≡ record m { pending = drop_id msg.id m.pending; rejected = m.rejected + 1 } =
                    simp (e, f, r) in
                  subst (Conserved n) (sym run) (record {
                    below = below;
                    distinct = distinct;
                    numbered = c.numbered;
                    total = omega (arith, c.total);
                  })
            ]
        | inr e ↦
            let none_gone : length m.pending ≡ length (drop_id msg.id m.pending) = l ∙ simp e in
            let run : handle_response msg m ≡ record m { pending = drop_id msg.id m.pending } =
              simp e in
            subst (Conserved n) (sym run) (record {
              below = below;
              distinct = distinct;
              numbered = c.numbered;
              total = omega (arith, c.total);
            })
      ]

  IsMining-Conserved :
      (n : ℕ) (m : Miner)
      → m0.next_id + n < 2 ^ 64
      → m0.accepted + m0.rejected + n < 2 ^ 64
      → IsMining n m
      → Conserved n m
  IsMining-Conserved _ _ fits room started = record {
    below = tt;
    distinct = tt;
    numbered = omega arith;
    total = omega arith;
  }
  IsMining-Conserved _ _ fits room (submitted n nonce job e m r) =
      submit_share-Conserved n nonce job e m (omega arith) (omega arith)
        (IsMining-Conserved n m (omega arith) (omega arith) r)
  IsMining-Conserved _ _ fits room (answered n msg m r) =
      handle_response-Conserved n msg m room (IsMining-Conserved n m fits room r)
  IsMining-Conserved _ _ fits room (writes n works m r) =
      let c = IsMining-Conserved n m fits room r in
      record { below = c.below; distinct = c.distinct; numbered = c.numbered; total = c.total }

  -- With `submitShare` taken as one step, on one connection and while the counters do not wrap:
  -- every share that was submitted is counted once as accepted or rejected, or is still pending.
  pub IsMining-counts :
      (n : ℕ) (m : Miner)
      → m0.next_id + n < 2 ^ 64
      → m0.accepted + m0.rejected + n < 2 ^ 64
      → IsMining n m
      → m.accepted + m.rejected + length m.pending ≡ m0.accepted + m0.rejected + n
  IsMining-counts n m fits room r = (IsMining-Conserved n m fits room r).total
