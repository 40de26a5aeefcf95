-- ===== src/Stratum/Client/Health.antt =====
-- Every message of a client leaves the server healthy, and none of them is a panic.
use monetarium_stratum.Prelude.{
  ℕ, ◌+◌, ◌^◌, ◌<◌, ◌≡◌, refl, ap, ◌∙◌, true, Option, none, some, List, [], ◌∷◌, ◌++◌, arith, inl,
  inr, Bool-cases, Option-cases, Result-cases, Result, ok, pos, eq_bytes,
}
use monetarium_stratum.Bytes.Slice.{Bytes}
use monetarium_stratum.Bytes.Text.{codes}
use monetarium_stratum.Mining.Chain.{Chain}
use monetarium_stratum.Mining.Work.{Work, build_solved_header, solved_header_data}
use monetarium_stratum.Mining.Evaluate.{
  Decision, rejected, accepted_share, submit_block, share_target, evaluate_submit,
}
use monetarium_stratum.Mining.Throttle.{allow}
use monetarium_stratum.Mining.Manager.{current_work}
use monetarium_stratum.Stratum.Protocol.{
  Json, bool, notification, new_set_difficulty, err_unknown, Request, parse_request, string_params,
  method_subscribe, method_authorize, method_submit, method_suggest_difficulty,
}
use monetarium_stratum.Stratum.Server.{
  Panic, Client, Server, Node, update_client, enqueue, send_error, send_result, record_share,
  find_client, send_work,
}
use monetarium_stratum.Stratum.Server.Health.{
  IsHealthy, IsHealthy-le, update_client-IsHealthy, enqueue-IsHealthy, refresh_work-IsHealthy,
}
use monetarium_stratum.Stratum.Client.{
  low_difficulty, invalid_submission, Validated, validate, decide, judge, handle_submit, reject,
  submit_found, throttle_block, submit_block_data, call_node, count_submission, handle_subscribe,
  handle_authorize, two_params, accepts_login, handle_message, log_in, dispatch, send_current,
  subscription,
}
use monetarium_stratum.Stratum.Client.Laws.{handle_submit-decided}
use monetarium_stratum.Stratum.Client.Blocks.{NodeReply-cases}

module _ (c : Chain) (node : Node) (n d share : ℕ) (share_defined : share_target c d ≡ some share)
    (fits : n + 1 < 2 ^ 64) where
  abbrev Succeeds : Result Panic Server → Type 0
  Succeeds r = (s' : Server) × (r ≡ ok s') × IsHealthy (n + 1) d s'

  settled : {r : Result Panic Server} (s' : Server) → r ≡ ok s' → IsHealthy n d s' → Succeeds r
  settled s' e h = (s', e, IsHealthy-le n (n + 1) d s' (omega arith) h)

  module _ (id req_id : ℕ) where
    call_node-IsHealthy :
        (k : ℕ) (blob : Bytes) (s : Server)
        → IsHealthy k d s
        → IsHealthy k d (call_node node id req_id blob s)
    unfolding call_node reject send_error send_result
    call_node-IsHealthy k blob s h =
        let called = record s { node_calls = s.node_calls ++ blob ∷ [] } in
        elim (NodeReply-cases (node.submit_work blob)) [
          | inl e ↦ rw (call_node, e) (enqueue-IsHealthy k d id _ called h)
          | inr (inl e) ↦ rw (call_node, e) (enqueue-IsHealthy k d id _ called h)
          | inr (inr (m, e)) ↦ rw (call_node, e) (enqueue-IsHealthy k d id _ called h)
        ]

    submit_block_data-IsHealthy :
        (k : ℕ) (v : Validated) (s : Server)
        → IsHealthy k d s
        → IsHealthy k d (submit_block_data c node id req_id v s)
    unfolding submit_block_data reject send_error
    submit_block_data-IsHealthy k v s h =
        elim (Result-cases
          (solved_header_data c v.work v.extra_nonce1 v.extra_nonce2 v.ntime v.nonce)) [
            | inl (blob, e) ↦ rw (submit_block_data, e) (call_node-IsHealthy k blob s h)
            | inr (r, e) ↦ rw (submit_block_data, e) (enqueue-IsHealthy k d id _ s h)
          ]

    submit_found-Succeeds :
        (v : Validated) (s : Server)
        → IsHealthy n d s
        → Succeeds (submit_found c node id req_id v s)
    unfolding submit_found throttle_block send_result record_share update_client
    submit_found-Succeeds v s h =
        let s1 = update_client id count_submission s in
        let s2 = record s1 { throttle = (allow s.throttle).0 } in
        let h1 = update_client-IsHealthy n d id count_submission s (λ x. refl) h in
        elim (Bool-cases ((allow s.throttle).1)) [
          | inl pass ↦
              settled (submit_block_data c node id req_id v s2) (simp pass)
                (submit_block_data-IsHealthy n v s2 h1)
          | inr stop ↦
              let told = send_result id req_id (bool true) (record_share s2) in
              let (s', e, h') =
                refresh_work-IsHealthy n d node.now told fits
                  (enqueue-IsHealthy n d id _ (record_share s2) h1) in
              (s', simp (stop, e), h')
        ]

    judge-Succeeds :
        (v : Validated) (s : Server) (decision : Decision)
        → IsHealthy n d s
        → Succeeds (judge c node id req_id v s decision)
    unfolding judge reject send_error send_result record_share
    judge-Succeeds v s rejected h =
        settled (reject id req_id low_difficulty s) refl (enqueue-IsHealthy n d id _ s h)
    judge-Succeeds v s accepted_share h =
        settled (send_result id req_id (bool true) (record_share s)) refl
          (enqueue-IsHealthy n d id _ (record_share s) h)
    judge-Succeeds v s submit_block h = submit_found-Succeeds v s h

    decide-ok :
        (header : c.Header) (s : Server)
        → IsHealthy n d s
        → (x : Decision) × (decide c node id req_id header s ≡ ok x)
    unfolding decide
    decide-ok header s h =
        let e : share_target c s.share_diff ≡ some share =
          ap (share_target c) h.same_share ∙ share_defined in
        (
          evaluate_submit (c.hash_to_big (c.pow_hash_v2 header)) (pos share)
              (c.compact_to_big (c.bits header)),
          simp e,
        )

    pub handle_submit-Succeeds :
        (client : Client) (params : List Json) (s : Server)
        → IsHealthy n d s
        → Succeeds (handle_submit c node id req_id client params s)
    unfolding handle_submit reject send_error
    handle_submit-Succeeds client params s h = elim (Result-cases (validate client s params)) [
      | inr (r, e) ↦
          settled (reject id req_id r s) (simp (handle_submit, e)) (enqueue-IsHealthy n d id _ s h)
      | inl (v, e) ↦
          elim (Result-cases
            (build_solved_header c v.work v.extra_nonce1 v.extra_nonce2 v.ntime v.nonce)) [
              | inr (r, f) ↦
                  settled (reject id req_id invalid_submission s) (simp (handle_submit, e, f))
                    (enqueue-IsHealthy n d id _ s h)
              | inl (header, f) ↦
                  let (x, g) = decide-ok header s h in
                  let (s', run, h') = judge-Succeeds v s x h in
                  (
                    s',
                    handle_submit-decided c node id req_id client params s v header x e f g ∙ run,
                    h',
                  )
            ]
    ]

  send_current-IsHealthy :
      (k id : ℕ) (w : Option Work) (s : Server)
      → IsHealthy k d s
      → IsHealthy k d (send_current id w s)
  unfolding send_current send_work
  send_current-IsHealthy k id none s h = h
  send_current-IsHealthy k id (some w) s h = enqueue-IsHealthy k d id _ s h

  handle_subscribe-IsHealthy :
      (k req_id : ℕ) (client : Client) (s : Server)
      → IsHealthy k d s
      → IsHealthy k d (handle_subscribe req_id client s)
  unfolding handle_subscribe send_result
  handle_subscribe-IsHealthy k req_id client s h =
      let s1 = send_result client.id req_id (subscription client) s in
      let s2 = enqueue client.id (notification (new_set_difficulty s1.share_diff)) s1 in
      send_current-IsHealthy k client.id (current_work s2.work_mgr) s2 (
        enqueue-IsHealthy k d client.id (notification (new_set_difficulty s1.share_diff)) s1
          (enqueue-IsHealthy k d client.id _ s h))

  handle_authorize-IsHealthy :
      (k req_id : ℕ) (client : Client) (params : List Json) (s : Server)
      → IsHealthy k d s
      → IsHealthy k d (handle_authorize req_id client params s)
  unfolding handle_authorize send_result send_error
  handle_authorize-IsHealthy k req_id client params s h =
      elim (Option-cases (two_params (string_params params))) [
        | inl e ↦ rw (handle_authorize, e) (enqueue-IsHealthy k d client.id _ s h)
        | inr ((user, pass), e) ↦ elim (Bool-cases (accepts_login s user pass)) [
          | inl f ↦
              rw (handle_authorize, e, f)
                (enqueue-IsHealthy k d client.id _ (update_client client.id (log_in user) s)
                  (update_client-IsHealthy k d client.id (log_in user) s (λ x. refl) h))
          | inr f ↦ rw (handle_authorize, e, f) (enqueue-IsHealthy k d client.id _ s h)
        ]
      ]

  abbrev unknown_method : Client → Request → Server → Server
  unknown_method client req s =
      send_error client.id req.id err_unknown
        (codes "unknown method " ++ (b'"' ∷ (req.method ++ b'"' ∷ []))) s

  dispatch-Succeeds :
      (client : Client) (req : Request) (s : Server)
      → IsHealthy n d s
      → (s' : Server) × (dispatch c node client req s ≡ ok s') × IsHealthy (n + 1) d s'
  unfolding dispatch send_result send_error
  dispatch-Succeeds client req s h = elim (Bool-cases (eq_bytes req.method method_subscribe)) [
    | inl e ↦
        settled (handle_subscribe req.id client s) (simp e)
          (handle_subscribe-IsHealthy n req.id client s h)
    | inr e ↦ elim (Bool-cases (eq_bytes req.method method_authorize)) [
      | inl f ↦
          settled (handle_authorize req.id client req.params s) (simp (e, f))
            (handle_authorize-IsHealthy n req.id client req.params s h)
      | inr f ↦ elim (Bool-cases (eq_bytes req.method method_submit)) [
        | inl g ↦
            let (s', run, h') = handle_submit-Succeeds client.id req.id client req.params s h in
            (s', simp (e, f, g, run), h')
        | inr g ↦ elim (Bool-cases (eq_bytes req.method method_suggest_difficulty)) [
          | inl i ↦
              settled (send_result client.id req.id (bool true) s) (simp (e, f, g, i))
                (enqueue-IsHealthy n d client.id _ s h)
          | inr i ↦
              settled (unknown_method client req s) (simp (e, f, g, i))
                (enqueue-IsHealthy n d client.id _ s h)
        ]
      ]
    ]
  ]

  -- A line of a client, whatever it is, is never a panic, and leaves the server healthy, where the
  -- share difficulty has a target.
  pub handle_message-Succeeds :
      (id : ℕ) (line : Option Json) (s : Server)
      → IsHealthy n d s
      → (s' : Server) × (handle_message c node id line s ≡ ok s') × IsHealthy (n + 1) d s'
  unfolding handle_message send_error
  handle_message-Succeeds id line s h = elim (Option-cases (find_client id s)) [
    | inl e ↦ settled s (simp (handle_message, e)) h
    | inr (client, e) ↦ elim (Option-cases (parse_request line)) [
      | inl f ↦
          settled (send_error id 0 err_unknown (codes "invalid request") s)
            (simp (handle_message, e, f)) (enqueue-IsHealthy n d id _ s h)
      | inr (req, f) ↦
          let (s', run, h') = dispatch-Succeeds client req s h in
          (s', simp (handle_message, e, f, run), h')
    ]
  ]
