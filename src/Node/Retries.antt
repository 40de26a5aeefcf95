-- ===== src/Node/Retries.antt =====
-- How long the client waits for a node that is not ready.
use monetarium_stratum.Prelude.{
  ℕ, zero, suc, ◌+◌, ◌≤◌, ◌<◌, ◌≡◌, refl, sym, ap, ◌∙◌, subst, Bool, true, false, some, arith,
  Bool-cases, inl, inr, ◌⊎◌, pos, negsuc, Result, ok, err, ℤ, [], ◌∷◌, ◌++◌, length, ltb, lt→ltb,
}
use monetarium_stratum.Bytes.Slice.{Bytes}
use monetarium_stratum.Mining.Manager.{reason_new_txns}
use monetarium_stratum.Node.Client.{
  NodeAnswer, NodeClient, connect_node, after_wait, fetch_initial, handle_work, work_event_buffer,
  WorkFailure, get_work, ConnectError, context_done, no_work, is_waited, same_code, wait_for_node,
  refused, broken, bad_data, bad_target,
}

same_code_refl : (a : ℤ) → same_code a a ≡ true
same_code_refl (pos n) = ground arith
same_code_refl (negsuc n) = ground arith

same_code-eq : (a b : ℤ) → same_code a b ≡ true → a ≡ b
same_code-eq (pos m) (pos n) h = let e : m ≡ n = ground arith in ap pos e
same_code-eq (pos m) (negsuc n) h = cc
same_code-eq (negsuc m) (pos n) h = cc
same_code-eq (negsuc m) (negsuc n) h = let e : m ≡ n = ground arith in ap negsuc e

module _ (not_connected downloading : ℤ) where
  -- The two errors of a node that is not ready.
  abbrev pub IsNotReady : WorkFailure → Type 0
  IsNotReady e = (e ≡ refused not_connected) ⊎ (e ≡ refused downloading)

  not_ready-waited : (e : WorkFailure) → IsNotReady e → is_waited not_connected downloading e ≡ true
  unfolding is_waited
  not_ready-waited e (inl same) = rw same (rw (same_code_refl not_connected) refl)
  not_ready-waited e (inr same) = rw same (elim (Bool-cases (same_code downloading not_connected)) [
    | inl f ↦ rw f refl
    | inr f ↦ rw (f, same_code_refl downloading) refl
  ])

  waited-IsNotReady :
      (e : WorkFailure) → is_waited not_connected downloading e ≡ true → IsNotReady e
  unfolding is_waited
  waited-IsNotReady (refused code) h = elim (Bool-cases (same_code code not_connected)) [
    | inl f ↦ inl (ap refused (same_code-eq code not_connected f))
    | inr f ↦
        let g : same_code code downloading ≡ true = sym (rw f refl) ∙ h in
        inr (ap refused (same_code-eq code downloading g))
  ]
  waited-IsNotReady broken h = cc h
  waited-IsNotReady bad_data h = cc h
  waited-IsNotReady bad_target h = cc h

  other-not_waited :
      (e : WorkFailure) → ¬ IsNotReady e → is_waited not_connected downloading e ≡ false
  other-not_waited e h = elim (Bool-cases (is_waited not_connected downloading e)) [
    | inl w ↦ absurd (h (waited-IsNotReady e w))
    | inr w ↦ w
  ]

module _ (not_connected downloading : ℤ) (answers : ℕ → NodeAnswer) (done : ℕ → Bool) where
  -- The i-th call is refused by a node that is not ready, and the context outlasts the wait.
  abbrev pub IsRetried : ℕ → Type 0
  IsRetried i =
      (e : WorkFailure) × (get_work (answers i) ≡ err e)
      × IsNotReady not_connected downloading e
      × (done i ≡ false)

  -- How the i-th call ends the wait, and with which result: it is served, it fails otherwise, or it
  -- is refused like the others and the context ends.
  pub data Ends (i : ℕ) : Result ConnectError (Unit {0}) → Type 0 where
    served : (work : Bytes × Bytes) → get_work (answers i) ≡ ok work → Ends i (ok tt)
    failed :
        (e : WorkFailure)
        → get_work (answers i) ≡ err e
        → ¬ IsNotReady not_connected downloading e
        → Ends i (err (no_work e))
    over :
        (e : WorkFailure)
        → get_work (answers i) ≡ err e
        → IsNotReady not_connected downloading e
        → done i ≡ true
        → Ends i (err context_done)

  retried :
      (rounds i : ℕ)
      → IsRetried i
      → wait_for_node not_connected downloading answers done (suc rounds) i
        ≡ wait_for_node not_connected downloading answers done rounds (i + 1)
  unfolding wait_for_node
  retried rounds i (e, call, not_ready, goes_on) =
      let w = not_ready-waited not_connected downloading e not_ready in
      simp (wait_for_node, call, w, goes_on)

  last :
      (rounds i : ℕ) (r : Result ConnectError (Unit {0}))
      → Ends i r
      → wait_for_node not_connected downloading answers done (suc rounds) i ≡ some (i + 1, r)
  unfolding wait_for_node
  last rounds i _ (served work call) = simp (wait_for_node, call)
  last rounds i _ (failed e call other) =
      let w = other-not_waited not_connected downloading e other in simp (wait_for_node, call, w)
  last rounds i _ (over e call not_ready ends) =
      let w = not_ready-waited not_connected downloading e not_ready in
      simp (wait_for_node, call, w, ends)

  returns_from :
      (k rounds i : ℕ) (r : Result ConnectError (Unit {0}))
      → ((j : ℕ) → i ≤ j → j < i + k → IsRetried j)
      → Ends (i + k) r
      → k < rounds
      → wait_for_node not_connected downloading answers done rounds i ≡ some (i + k + 1, r)
  returns_from k zero i r before ends lt = absurd (omega arith)
  returns_from zero (suc rounds) i r before ends lt =
      let same : i + 0 ≡ i = omega arith in
      rw same (last rounds i r (subst (λ n. Ends n r) same ends))
  returns_from (suc k) (suc rounds) i r before ends lt =
      let same : i + suc k ≡ (i + 1) + k = omega arith in
      retried rounds i (before i (omega arith) (omega arith))
      ∙ rw same (
          returns_from k rounds (i + 1) r (λ j lo hi. before j (omega arith) (omega arith))
            (subst (λ n. Ends n r) same ends) (omega arith))

  -- If the calls before the k-th are refused with one of the two errors of a node that is not ready,
  -- while the context lasts, and the k-th ends the wait, then the wait returns after exactly k + 1
  -- calls: with nil if the k-th is served, with its error if it fails otherwise, and with that of the
  -- context if it is refused like the others and the context ends.
  pub wait_for_node_returns :
      (k rounds : ℕ) (r : Result ConnectError (Unit {0}))
      → ((j : ℕ) → j < k → IsRetried j)
      → Ends k r
      → k < rounds
      → wait_for_node not_connected downloading answers done rounds 0 ≡ some (k + 1, r)
  wait_for_node_returns k rounds r before ends lt =
      let same : 0 + k ≡ k = omega arith in
      returns_from k rounds 0 r (λ j lo hi. before j (omega arith))
        (subst (λ n. Ends n r) (sym same) ends) lt
      ∙ rw same refl

  -- If the connection comes, the node is not ready for k calls while the context lasts, then serves a
  -- call, takes the registration and serves the next call, then `Connect` returns nil, and the work
  -- of that last call waits in the channel, where it has room.
  pub connect_node_delivers :
      (k rounds : ℕ) (first work : Bytes × Bytes) (n : NodeClient)
      → ((j : ℕ) → j < k → IsRetried j)
      → get_work (answers k) ≡ ok first
      → get_work (answers (k + 1)) ≡ ok work
      → k < rounds
      → length n.work < work_event_buffer
      → connect_node not_connected downloading answers done rounds true true n
        ≡ some (
            ok (record n {
              connected = false;
              work = n.work ++ record { data_blob = work.0; reason = reason_new_txns } ∷ [];
            }))
  unfolding connect_node after_wait fetch_initial handle_work
  connect_node_delivers k rounds first work n before serves again lt room =
      let wait = wait_for_node_returns k rounds (ok tt) before (served first serves) lt in
      let fits : ltb (length n.work) work_event_buffer ≡ true = lt→ltb _ _ room in
      simp (connect_node, wait, after_wait, fetch_initial, again) (rw fits refl)
