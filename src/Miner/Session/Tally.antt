-- ===== src/Miner/Session/Tally.antt =====
-- What each handler of the miner does to its count of shares.
use monetarium_stratum.Prelude.{
  ℕ, suc, ◌+◌, ◌%◌, ◌^◌, ◌≤◌, ◌≡◌, refl, sym, ap, ◌∙◌, true, Option, List, [], ◌∷◌, arith,
  Bool-cases, Option-cases, inl, inr, eq_bytes, length, ◌==◌, Result, ok, err,
}
use monetarium_stratum.Bytes.Slice.{Bytes}
use monetarium_stratum.Mining.Chain.{Chain}
use monetarium_stratum.Stratum.Protocol.{Json, method_set_difficulty, method_notify}
use monetarium_stratum.Miner.Job.{
  Job, BuildError, fill_bytes_panic, invalid_version, invalid_prevhash, invalid_gen_tx1,
  invalid_nbits, invalid_ntime, invalid_extra_nonce1,
}
use monetarium_stratum.Miner.Session.{
  Panic, Incoming, Miner, HandshakeError, Turn, submits, has, drop_id, set_difficulty,
  difficulty_of, install_job, nine_params, handle_notify, handle_notification, handle_response,
  read_message, submit_share, send_request, next_request_id, Attempt, dial_failed, connected,
}

-- The shares that were counted or wait for a response.
abbrev pub tally : Miner → ℕ
tally m = m.accepted + m.rejected + length m.pending

-- The shares that are submitted.
abbrev pub submissions : List Turn → ℕ
submissions [] = 0
submissions (submits job extra_nonce2 nonce ∷ turns) = suc (submissions turns)
submissions (turn ∷ turns) = submissions turns

abbrev pub all_submissions : List Attempt → ℕ
all_submissions [] = 0
all_submissions (dial_failed ∷ rest) = all_submissions rest
all_submissions (connected incoming turns ∷ rest) = submissions turns + all_submissions rest

abbrev pub Within : ℕ → Result Panic Miner → Type 0
Within n (ok m) = tally m ≤ n
Within n (err p) = Unit

abbrev pub WaitsWithin : ℕ → Result Panic (Miner × List Incoming × Option HandshakeError) → Type 0
WaitsWithin n (ok (m, rest, e)) = tally m ≤ n
WaitsWithin n (err p) = Unit

abbrev pub EndsWithin : ℕ → Result Panic (Miner × Option HandshakeError) → Type 0
EndsWithin n (ok (m, e)) = tally m ≤ n
EndsWithin n (err p) = Unit

length-drop_id_le : (id : ℕ) (xs : List ℕ) → length (drop_id id xs) ≤ length xs
unfolding drop_id
length-drop_id_le id [] = omega arith
length-drop_id_le id (x ∷ xs) =
    let rest = length-drop_id_le id xs in
    elim (Bool-cases (x == id)) [
      | inl e ↦ rw e (omega (arith, rest))
      | inr e ↦ rw e (omega (arith, rest))
    ]

length-drop_id_lt :
    (id : ℕ) (xs : List ℕ) → has id xs ≡ true → length (drop_id id xs) + 1 ≤ length xs
unfolding has drop_id
length-drop_id_lt id [] h = cc h
length-drop_id_lt id (x ∷ xs) h = elim (Bool-cases (x == id)) [
  | inl e ↦ rw e (omega (arith, length-drop_id_le id xs))
  | inr e ↦
      let there : has id xs ≡ true = sym (rw e refl) ∙ h in
      rw e (omega (arith, length-drop_id_lt id xs there))
]

-- A response moves a share from the pending ones to the counted ones.
pub handle_response-tally : (msg : Incoming) (m : Miner) → tally (handle_response msg m) ≤ tally m
unfolding handle_response
handle_response-tally msg m = elim (Bool-cases (has msg.id m.pending)) [
  | inl e ↦
      let less = length-drop_id_lt msg.id m.pending e in
      elim (Option-cases msg.error) [
        | inl f ↦ rw (e, f) (omega (arith, less))
        | inr (x, f) ↦ rw (e, f) (omega (arith, less))
      ]
  | inr e ↦ rw e (omega (arith, length-drop_id_le msg.id m.pending))
]

-- A share adds one, sent or not.
pub submit_share-tally :
    (job : Job) (extra_nonce2 : Bytes) (nonce : ℕ) (m : Miner)
    → tally (submit_share job extra_nonce2 nonce m) ≤ tally m + 1
unfolding submit_share send_request next_request_id
submit_share-tally job extra_nonce2 nonce m =
    let id = (m.next_id + 1) % 2 ^ 64 in
    let less : length (drop_id id m.pending) ≤ length m.pending = length-drop_id_le id m.pending in
    elim (Bool-cases m.writable) [
      | inl e ↦
          let p : (submit_share job extra_nonce2 nonce m).pending ≡ id ∷ drop_id id m.pending =
            simp (submit_share, e) in
          let a : (submit_share job extra_nonce2 nonce m).accepted ≡ m.accepted =
            simp (submit_share, e) in
          let r : (submit_share job extra_nonce2 nonce m).rejected ≡ m.rejected =
            simp (submit_share, e) in
          omega (arith, ap length p, a, r, less)
      | inr e ↦
          let p : (submit_share job extra_nonce2 nonce m).pending ≡ m.pending =
            simp (submit_share, e) in
          let a : (submit_share job extra_nonce2 nonce m).accepted ≡ m.accepted =
            simp (submit_share, e) in
          let r : (submit_share job extra_nonce2 nonce m).rejected ≡ (m.rejected + 1) % 2 ^ 64 =
            simp (submit_share, e) in
          omega (arith, ap length p, a, r)
    ]

install_job-Within : (m : Miner) (r : Result BuildError Job) → Within (tally m) (install_job m r)
unfolding install_job
install_job-Within m (ok job) = omega arith
install_job-Within m (err fill_bytes_panic) = tt
install_job-Within m (err invalid_version) = omega arith
install_job-Within m (err invalid_prevhash) = omega arith
install_job-Within m (err invalid_gen_tx1) = omega arith
install_job-Within m (err invalid_nbits) = omega arith
install_job-Within m (err invalid_ntime) = omega arith
install_job-Within m (err invalid_extra_nonce1) = omega arith

nine_params-Within :
    (c : Chain) (params : List Json) (m : Miner) → Within (tally m) (nine_params c params m)
unfolding nine_params
nine_params-Within c (p1 ∷ p2 ∷ p3 ∷ p4 ∷ p5 ∷ p6 ∷ p7 ∷ p8 ∷ p9 ∷ []) m = install_job-Within m _
nine_params-Within c _ m = omega arith

pub handle_notification-Within :
    (c : Chain) (msg : Incoming) (m : Miner) → Within (tally m) (handle_notification c msg m)
unfolding handle_notification handle_notify set_difficulty
handle_notification-Within c msg m = elim (Bool-cases (eq_bytes msg.method method_set_difficulty)) [
  | inl e ↦ elim (Bool-cases (difficulty_of msg.params == 0)) [
    | inl f ↦ rw (e, f) tt
    | inr f ↦ rw (e, f) (omega arith)
  ]
  | inr e ↦ elim (Bool-cases (eq_bytes msg.method method_notify)) [
    | inl f ↦ elim (Bool-cases (length msg.params == 9)) [
      | inl g ↦ rw (e, f, g) (nine_params-Within c msg.params m)
      | inr g ↦ rw (e, f, g) (omega arith)
    ]
    | inr f ↦ rw (e, f) (omega arith)
  ]
]

pub read_message-Within :
    (c : Chain) (msg : Incoming) (m : Miner) → Within (tally m) (read_message c msg m)
unfolding read_message
read_message-Within c msg m = elim (Bool-cases (eq_bytes msg.method [])) [
  | inl e ↦ rw e (handle_response-tally msg m)
  | inr e ↦ rw e (handle_notification-Within c msg m)
]
