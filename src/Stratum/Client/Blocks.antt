-- ===== src/Stratum/Client/Blocks.antt =====
-- When `handleSubmit` submits a block to the node.
use monetarium_stratum.Prelude.{
  ℕ, ◌≡◌, ◌⊎◌, ap, ◌∙◌, sym, refl, true, false, List, [], ◌∷◌, ◌++◌, ok, err, Result-cases,
  Bool-cases, inl, inr, ok-injective,
}
use monetarium_stratum.Bytes.Slice.{Bytes}
use monetarium_stratum.Mining.Chain.{Chain}
use monetarium_stratum.Mining.Work.{build_solved_header, solved_header_data}
use monetarium_stratum.Mining.Evaluate.{Decision, rejected, accepted_share, submit_block}
use monetarium_stratum.Mining.Throttle.{allow}
use monetarium_stratum.Stratum.Protocol.{Json, bool}
use monetarium_stratum.Stratum.Server.{
  Client, Server, Node, NodeReply, replied, failed, update_client, enqueue, send_error, send_result,
  record_share,
}
use monetarium_stratum.Stratum.Client.{
  Validated, validate, decide, judge, handle_submit, reject, submit_found, throttle_block,
  submit_block_data, call_node, count_submission, invalid_submission,
}
use monetarium_stratum.Stratum.Client.Laws.{refresh_work-node_calls, handle_submit-decided}

pub NodeReply-cases :
    (r : NodeReply) → (r ≡ replied true) ⊎ (r ≡ replied false) ⊎ ((e : Bytes) × (r ≡ failed e))
NodeReply-cases (replied true) = inl refl
NodeReply-cases (replied false) = inr (inl refl)
NodeReply-cases (failed e) = inr (inr (e, refl))

module _ (c : Chain) (node : Node) (id req_id : ℕ) where
  -- The submission of one block: it passed every check, its decision was to submit, the throttle let
  -- it pass, and the node got its serialized header.
  pub record BlockSent (client : Client) (params : List Json) (s s' : Server) : Type 0 where
    pub validated : Validated
    pub header : c.Header
    pub blob : Bytes
    pub checked : validate client s params ≡ ok validated
    pub built :
        build_solved_header c validated.work validated.extra_nonce1 validated.extra_nonce2
          validated.ntime validated.nonce
        ≡ ok header
    pub solved : decide c node id req_id header s ≡ ok submit_block
    pub allowed : (allow s.throttle).1 ≡ true
    pub serialized :
        solved_header_data c validated.work validated.extra_nonce1 validated.extra_nonce2
          validated.ntime validated.nonce
        ≡ ok blob
    pub sent : s'.node_calls ≡ s.node_calls ++ blob ∷ []

  call_node-node_calls :
      (blob : Bytes) (s : Server)
      → (call_node node id req_id blob s).node_calls ≡ s.node_calls ++ blob ∷ []
  unfolding call_node reject send_error send_result enqueue update_client
  call_node-node_calls blob s = elim (NodeReply-cases (node.submit_work blob)) [
    | inl e ↦ simp (call_node, e)
    | inr (inl e) ↦ simp (call_node, e)
    | inr (inr (m, e)) ↦ simp (call_node, e)
  ]

  submit_block_data-node_calls :
      (v : Validated) (s : Server)
      → ((submit_block_data c node id req_id v s).node_calls ≡ s.node_calls)
        ⊎ ((blob : Bytes) × (solved_header_data c v.work v.extra_nonce1 v.extra_nonce2 v.ntime
                v.nonce
              ≡ ok blob)
            × ((submit_block_data c node id req_id v s).node_calls ≡ s.node_calls ++ blob ∷ []))
  unfolding submit_block_data reject send_error enqueue update_client
  submit_block_data-node_calls v s =
      elim (Result-cases
        (solved_header_data c v.work v.extra_nonce1 v.extra_nonce2 v.ntime v.nonce)) [
          | inl (blob, e) ↦
              let run : submit_block_data c node id req_id v s ≡ call_node node id req_id blob s =
                simp (submit_block_data, e) in
              inr (blob, e, (ap (λ x. x.node_calls) run ∙ call_node-node_calls blob s))
          | inr (r, e) ↦ inl (simp (submit_block_data, e))
        ]

  throttle_block-node_calls :
      (s s' : Server) → throttle_block node id req_id s ≡ ok s' → s'.node_calls ≡ s.node_calls
  unfolding throttle_block send_result enqueue update_client record_share
  throttle_block-node_calls s s' h =
      refresh_work-node_calls node.now (send_result id req_id (bool true) (record_share s)) s' h

  abbrev counted : Server → Server
  counted s =
      let s1 = update_client id count_submission s in record s1 { throttle = (allow s1.throttle).0 }

  submit_found-node_calls :
      (v : Validated) (s s' : Server)
      → submit_found c node id req_id v s ≡ ok s'
      → (s'.node_calls ≡ s.node_calls)
        ⊎ ((blob : Bytes) × ((allow s.throttle).1 ≡ true)
            × (solved_header_data c v.work v.extra_nonce1 v.extra_nonce2 v.ntime v.nonce ≡ ok blob)
            × (s'.node_calls ≡ s.node_calls ++ blob ∷ []))
  unfolding submit_found update_client
  submit_found-node_calls v s s' h = elim (Bool-cases ((allow s.throttle).1)) [
    | inr stop ↦
        let run : submit_found c node id req_id v s ≡ throttle_block node id req_id (counted s) =
          simp stop in
        inl (throttle_block-node_calls (counted s) s' (sym run ∙ h))
    | inl pass ↦
        let run : submit_found c node id req_id v s
            ≡ ok (submit_block_data c node id req_id v (counted s)) =
          simp pass in
        let same : s' ≡ submit_block_data c node id req_id v (counted s) = cc in
        let calls = ap (λ x. x.node_calls) same in
        elim (submit_block_data-node_calls v (counted s)) [
          | inl e ↦ inl (calls ∙ e)
          | inr (blob, serialized, e) ↦ inr (blob, pass, serialized, calls ∙ e)
        ]
  ]

  judge-node_calls :
      (v : Validated) (s s' : Server) (d : Decision)
      → judge c node id req_id v s d ≡ ok s'
      → (s'.node_calls ≡ s.node_calls)
        ⊎ ((blob : Bytes) × (d ≡ submit_block)
            × ((allow s.throttle).1 ≡ true)
            × (solved_header_data c v.work v.extra_nonce1 v.extra_nonce2 v.ntime v.nonce ≡ ok blob)
            × (s'.node_calls ≡ s.node_calls ++ blob ∷ []))
  unfolding judge reject send_error send_result enqueue update_client record_share
  judge-node_calls v s s' rejected h = inl (ap (λ x. x.node_calls) (ok-injective (sym h)))
  judge-node_calls v s s' accepted_share h = inl (ap (λ x. x.node_calls) (ok-injective (sym h)))
  judge-node_calls v s s' submit_block h = elim (submit_found-node_calls v s s' h) [
    | inl e ↦ inl e
    | inr (blob, allowed, serialized, sent) ↦ inr (blob, refl, allowed, serialized, sent)
  ]

  -- A submission that is handled without a panic calls the node at most once, and only with the
  -- serialized header of a submission that passed every check, whose decision was to submit a
  -- block, and that the throttle let pass.
  pub handle_submit-node_calls :
      (client : Client) (params : List Json) (s s' : Server)
      → handle_submit c node id req_id client params s ≡ ok s'
      → (s'.node_calls ≡ s.node_calls) ⊎ BlockSent client params s s'
  unfolding handle_submit reject send_error enqueue update_client
  handle_submit-node_calls client params s s' h = elim (Result-cases (validate client s params)) [
    | inr (r, e) ↦
        let run : handle_submit c node id req_id client params s ≡ ok (reject id req_id r s) =
          simp (handle_submit, e) in
        inl (ap (λ x. x.node_calls) (ok-injective (sym h ∙ run)))
    | inl (v, e) ↦
        elim (Result-cases
          (build_solved_header c v.work v.extra_nonce1 v.extra_nonce2 v.ntime v.nonce)) [
            | inr (r, f) ↦
                let run : handle_submit c node id req_id client params s
                    ≡ ok (reject id req_id invalid_submission s) =
                  simp (handle_submit, e, f) in
                inl (ap (λ x. x.node_calls) (ok-injective (sym h ∙ run)))
            | inl (header, f) ↦ elim (Result-cases (decide c node id req_id header s)) [
              | inr (p, g) ↦
                  let run : handle_submit c node id req_id client params s ≡ err p =
                    simp (handle_submit, e, f, g) in
                  cc
              | inl (d, g) ↦
                  elim (judge-node_calls v s s' d (
                    sym (handle_submit-decided c node id req_id client params s v header d e f g)
                    ∙ h)) [
                      | inl same ↦ inl same
                      | inr (blob, is_block, allowed, serialized, sent) ↦ inr (record {
                        validated = v;
                        header = header;
                        blob = blob;
                        checked = e;
                        built = f;
                        solved = g ∙ ap ok is_block;
                        allowed = allowed;
                        serialized = serialized;
                        sent = sent;
                      })
                    ]
            ]
          ]
  ]
