-- ===== src/Stratum/Client/Laws.antt =====
-- `handleSubmit` on each of its branches.
use monetarium_stratum.Prelude.{ℕ, ◌≡◌, refl, List, ok, err, Option-cases, inl, inr, ap, ◌∙◌}
use monetarium_stratum.Mining.Chain.{Chain}
use monetarium_stratum.Mining.Work.{build_solved_header, refresh_timestamp, timestamp}
use monetarium_stratum.Bytes.Endian.{le_value}
use monetarium_stratum.Mining.Evaluate.{Decision}
use monetarium_stratum.Stratum.Protocol.{Json}
use monetarium_stratum.Stratum.Server.{
  Client, Server, Node, broadcast_work, broadcast, refresh_work, fresh_timestamp,
  index_out_of_range,
}
use monetarium_stratum.Mining.Manager.{current_work, set_current, reason_new_votes}
use monetarium_stratum.Stratum.Client.{Validated, validate, decide, judge, handle_submit}

module _ (c : Chain) (node : Node) (id req_id : ℕ) where
  -- A submission whose checks pass comes to the verdict on the decision.
  pub handle_submit-decided :
      (client : Client) (params : List Json) (s : Server) (v : Validated) (header : c.Header)
      (d : Decision)
      → validate client s params ≡ ok v
      → build_solved_header c v.work v.extra_nonce1 v.extra_nonce2 v.ntime v.nonce ≡ ok header
      → decide c node id req_id header s ≡ ok d
      → handle_submit c node id req_id client params s ≡ judge c node id req_id v s d
  unfolding handle_submit
  handle_submit-decided client params s v header d e1 e2 e3 = rw (handle_submit, e1, e2, e3) refl

broadcast_work-node_calls : (s : Server) → (broadcast_work s).node_calls ≡ s.node_calls
unfolding broadcast_work broadcast
broadcast_work-node_calls s = elim (Option-cases (current_work s.work_mgr)) [
  | inl e ↦ simp e
  | inr (w, e) ↦ simp e
]

pub refresh_work-node_calls :
    (now : ℕ) (s s' : Server) → refresh_work now s ≡ ok s' → s'.node_calls ≡ s.node_calls
unfolding refresh_work current_work
refresh_work-node_calls now s s' h = elim (Option-cases s.work_mgr.current) [
  | inl e ↦
      let run : refresh_work now s ≡ ok s = simp e in
      let same : s' ≡ s = cc in ap (λ x. x.node_calls) same
  | inr (w, e) ↦
      elim (Option-cases (
        set_current s.work_mgr (refresh_timestamp w (fresh_timestamp now (le_value (timestamp w))))
          reason_new_votes)) [
            | inl f ↦ let run : refresh_work now s ≡ err index_out_of_range = simp (e, f) in cc
            | inr (r, f) ↦
                let run : refresh_work now s ≡ ok (broadcast_work (record s { work_mgr = r.0 })) =
                  simp (e, f) in
                let same : s' ≡ broadcast_work (record s { work_mgr = r.0 }) = cc in
                ap (λ x. x.node_calls) same
                ∙ broadcast_work-node_calls (record s { work_mgr = r.0 })
          ]
]
