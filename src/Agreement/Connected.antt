-- ===== src/Agreement/Connected.antt =====
-- A miner and the pool that it connects to: what the pool queues for it, and what it makes of that.
use mathlib.Core.List.{append_assoc}
use monetarium_stratum.Prelude.{
  ℕ, ◌+◌, ◌%◌, ◌^◌, ◌≡◌, refl, ap, ◌∙◌, inl, inr, arith, true, none, some, List, [], ◌∷◌, ◌++◌, map,
  length, All, pos, ok, ◌>>=◌,
}
use monetarium_stratum.Bytes.Slice.{Bytes, IsByte}
use monetarium_stratum.Bytes.Endian.{le_value}
use monetarium_stratum.Bytes.Hex.{encode}
use monetarium_stratum.Mining.Chain.{Chain}
use monetarium_stratum.Mining.Work.{Work, bits}
use monetarium_stratum.Mining.Work.Solved.{IsBlob}
use monetarium_stratum.Mining.Evaluate.{share_target}
use monetarium_stratum.Mining.Manager.{current_work}
use monetarium_stratum.Stratum.Protocol.{
  method_subscribe, method_authorize, bool, response, new_response, string_params,
}
use monetarium_stratum.Stratum.Server.{
  Client, Server, Node, find_client, enqueue, send_result, send_work,
}
use monetarium_stratum.Stratum.Client.{
  handle_message, dispatch, handle_subscribe, handle_authorize, two_params, send_current, log_in,
}
use monetarium_stratum.Stratum.Client.Login.{MayLogIn, handle_authorize_lem}
use monetarium_stratum.Stratum.Protocol.Reads.{parse_request-request_fields}
use monetarium_stratum.Agreement.Requests.{sent_line, handle_message-dispatch}
use monetarium_stratum.Miner.Job.{to_target_bytes}
use monetarium_stratum.Miner.Session.{Sent, Incoming, Miner, Turn, run_turns, connect_and_mine}
use monetarium_stratum.Agreement.Greeting.{delivered, greeting, find_client-handle_subscribe}
use monetarium_stratum.Agreement.Handshake.{
  subscribe_params, authorize_params, welcome, welcomed, connect_and_mine-welcome,
}

-- The login of a subscribed client is checked as before its subscription.
MayLogIn-handle_subscribe :
    (req_id : ℕ) (k : Client) (s : Server) (w : Work) (user pass : Bytes)
    → s.work_mgr.current ≡ some w
    → MayLogIn s user pass
    → MayLogIn (handle_subscribe req_id k s) user pass
unfolding handle_subscribe current_work send_current send_work send_result enqueue
MayLogIn-handle_subscribe req_id k s w user pass current may = rw current may

-- A subscription and a login of a registered client that may log in, at a pool with current work:
-- the reply, the difficulty, the work and the second reply join the client's queue.
find_client-welcome :
    (id : ℕ) (k : Client) (s : Server) (w : Work) (m : Miner)
    → find_client k.id s ≡ some k
    → s.work_mgr.current ≡ some w
    → MayLogIn s m.user m.password
    → find_client k.id (
        handle_authorize
          ((id + 1) % 2 ^ 64)
          (record k { sends = k.sends ++ greeting id k s w })
          (authorize_params m)
          (handle_subscribe id k s))
      ≡ some (record (log_in m.user k) { sends = k.sends ++ welcome id k s w })
unfolding string_params two_params
find_client-welcome id k s w m found current may =
    let s1 = handle_subscribe id k s in
    let k1 = record k { sends = k.sends ++ greeting id k s w } in
    let reply = response (new_response ((id + 1) % 2 ^ 64) (bool true)) in
    let may1 = MayLogIn-handle_subscribe id k s w m.user m.password current may in
    elim (handle_authorize_lem ((id + 1) % 2 ^ 64) k1 (authorize_params m) s1 m.user m.password
      (find_client-handle_subscribe id k s w found current) refl) [
        | inl (_, e) ↦
            e
            ∙ ap (λ q. some (record (log_in m.user k) { sends = q }))
                (append_assoc k.sends (greeting id k s w) (reply ∷ []))
        | inr (may_not, _) ↦ absurd (may_not may1)
      ]

-- The two requests of a miner that connects.
abbrev pub subscribe_request : Miner → Sent
subscribe_request m = record {
  id = (m.next_id + 1) % 2 ^ 64;
  method = method_subscribe;
  params = subscribe_params;
}

abbrev pub authorize_request : Miner → Sent
authorize_request m = record {
  id = ((m.next_id + 1) % 2 ^ 64 + 1) % 2 ^ 64;
  method = method_authorize;
  params = authorize_params m;
}

module _ (c : Chain) (node : Node) where
  handle_message-subscribe_request :
      (m : Miner) (k : Client) (s : Server)
      → find_client k.id s ≡ some k
      → handle_message c node k.id (some (sent_line (subscribe_request m))) s
        ≡ ok (handle_subscribe ((m.next_id + 1) % 2 ^ 64) k s)
  unfolding sent_line dispatch
  handle_message-subscribe_request m k s found = handle_message-dispatch c node k.id _ s k _ found (
      parse_request-request_fields ((m.next_id + 1) % 2 ^ 64) method_subscribe subscribe_params
        (omega arith) refl)

  handle_message-authorize_request :
      (m : Miner) (k : Client) (s : Server)
      → find_client k.id s ≡ some k
      → handle_message c node k.id (some (sent_line (authorize_request m))) s
        ≡ ok (handle_authorize (((m.next_id + 1) % 2 ^ 64 + 1) % 2 ^ 64) k (authorize_params m) s)
  unfolding sent_line dispatch
  handle_message-authorize_request m k s found = handle_message-dispatch c node k.id _ s k _ found (
      parse_request-request_fields (((m.next_id + 1) % 2 ^ 64 + 1) % 2 ^ 64) method_authorize
        (authorize_params m) (omega arith) refl)

module _ (c : Chain) (node node' : Node) (w : Work) (blob : IsBlob w) (extra_nonce1 : Bytes)
    (sized : length extra_nonce1 ≡ 4) (extra_nonce1_bytes : All IsByte extra_nonce1) (share : ℕ)
    (share_be block_be : Bytes) (share_fits : to_target_bytes (pos share) ≡ some share_be)
    (block_fits : to_target_bytes (c.compact_to_big (le_value (bits w))) ≡ some block_be) where
  -- A miner connects to a pool with current work `w`, as a client with an empty queue, an extra nonce
  -- 1 of four bytes and a login that the pool takes, where the share difficulty has a target and both
  -- targets fit 32 bytes. The pool handles the two lines that the miner writes in its handshake, one
  -- after the other; on what it then has queued for the client, and whatever comes later, the
  -- handshake succeeds, and the connection goes on with the extra nonce 1 and the share target of the
  -- pool and with the job of `w`.
  pub connect_and_mine-handle_message :
      (turns : List Turn) (later : List Incoming) (m : Miner) (k : Client) (s : Server)
      → find_client k.id s ≡ some k
      → k.sends ≡ []
      → k.extra_nonce1 ≡ encode extra_nonce1
      → s.work_mgr.current ≡ some w
      → MayLogIn s m.user m.password
      → share_target c s.share_diff ≡ some share
      → (s1 : Server) × (s2 : Server) × (k' : Client) × (handle_message c node k.id
            (some (sent_line (subscribe_request m)))
            s
          ≡ ok s1)
        × (handle_message c node' k.id (some (sent_line (authorize_request m))) s1 ≡ ok s2)
        × (find_client k.id s2 ≡ some k')
        × (connect_and_mine c turns (map delivered k'.sends ++ later) m ≡ (
            run_turns c turns later (
              welcomed c w blob extra_nonce1 sized extra_nonce1_bytes share share_be block_be
                share_fits block_fits m k)
            >>= λ m'. ok (m', none)))
  connect_and_mine-handle_message turns later m k s found empty nonce current may target =
      let id = (m.next_id + 1) % 2 ^ 64 in
      let k1 = record k { sends = k.sends ++ greeting id k s w } in
      let s1 = handle_subscribe id k s in
      (
        s1,
        handle_authorize ((id + 1) % 2 ^ 64) k1 (authorize_params m) s1,
        record (log_in m.user k) { sends = k.sends ++ welcome id k s w },
        handle_message-subscribe_request c node m k s found,
        handle_message-authorize_request c node' m k1 s1
            (find_client-handle_subscribe id k s w found current),
        find_client-welcome id k s w m found current may,
        ap (λ q. connect_and_mine c turns (map delivered (q ++ welcome id k s w) ++ later) m) empty
            ∙ connect_and_mine-welcome c w blob extra_nonce1 sized extra_nonce1_bytes share share_be
                block_be share_fits block_fits turns later m k s nonce target,
      )
