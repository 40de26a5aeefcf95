-- ===== src/Agreement/Requests.antt =====
-- The requests that the miner writes, as the pool reads them.
use monetarium_stratum.Prelude.{
  ℕ, ◌+◌, ◌%◌, ◌^◌, ◌≡◌, refl, ap, ◌∙◌, true, false, Option, none, some, List, [], ◌∷◌, ◌++◌, arith,
  eq_bytes, ok,
}
use monetarium_stratum.Bytes.Slice.{Bytes}
use monetarium_stratum.Bytes.Text.{codes}
use monetarium_stratum.Bytes.Endian.{le_bytes}
use monetarium_stratum.Mining.Chain.{Chain}
use monetarium_stratum.Stratum.Protocol.{
  Json, err_unknown, obj, Request, parse_request, method_submit,
}
use monetarium_stratum.Stratum.Protocol.Reads.{request_fields, parse_request-request_fields}
use monetarium_stratum.Stratum.Server.{Client, Server, Node, find_client, send_error}
use monetarium_stratum.Stratum.Client.{handle_submit, handle_message, dispatch}
use monetarium_stratum.Miner.Job.{Job}
use monetarium_stratum.Miner.Session.{
  Sent, Miner, submit_share, submit_params, send_request, next_request_id, drop_id,
}

-- The line that `sendRequest` writes: `json.Marshal` puts the keys of a map in order.
-- (It replaces bytes that are no UTF-8; the strings here are taken to be UTF-8.)
unfoldable pub sent_line : Sent → Json
sent_line r = obj (request_fields r.id r.method r.params)

-- The request that `submitShare` writes.
abbrev pub share_request : Job → Bytes → ℕ → Miner → Sent
share_request job extra_nonce2 nonce m = record {
  id = (m.next_id + 1) % 2 ^ 64;
  method = method_submit;
  params = submit_params m.user job.job_id extra_nonce2 job.ntime (le_bytes 4 nonce);
}

-- Where the connection of the miner takes the write, `sendRequest` adds one request to those that
-- are written, and `ParseRequest` reads its line back as a request with the identifier that
-- `sendRequest` returns, and with the method, which is not empty, and the parameters it was given.
pub parse_request-send_request :
    (m : Miner) (method : Bytes) (params : List Json)
    → m.writable ≡ true
    → eq_bytes method [] ≡ false
    → (r : Sent) × (id : ℕ) × (send_request method params m
        ≡ (record m { next_id = id; sent = m.sent ++ r ∷ [] }, some id))
      × (parse_request (some (sent_line r))
          ≡ some (record { id = id; method = method; params = params }))
unfolding send_request next_request_id sent_line
parse_request-send_request m method params writable named =
    let id = (m.next_id + 1) % 2 ^ 64 in
    (
      record { id = id; method = method; params = params },
      id,
      simp writable,
      parse_request-request_fields id method params (omega arith) named,
    )

pub handle_message-dispatch :
    (c : Chain) (node : Node) (id : ℕ) (line : Option Json) (s : Server) (client : Client)
    (req : Request)
    → find_client id s ≡ some client
    → parse_request line ≡ some req
    → handle_message c node id line s ≡ dispatch c node client req s
unfolding handle_message
handle_message-dispatch c node id line s client req present read =
    ap
      (λ o. elim o [
        | none ↦ ok s
        | some k ↦ elim (parse_request line) [
          | none ↦ ok (send_error id 0 err_unknown (codes "invalid request") s)
          | some r ↦ dispatch c node k r s
        ]
      ])
      present
    ∙ ap
        (λ o. elim o [
          | none ↦ ok (send_error id 0 err_unknown (codes "invalid request") s)
          | some r ↦ dispatch c node client r s
        ])
        read

-- A share that the miner submits on a connection that takes the write is written as one request
-- and waits under its identifier; the pool makes of that line, from a client that it has, the call
-- of `handleSubmit` with the identifier and the parameters of the request.
pub handle_message-submit_share :
    (c : Chain) (node : Node) (job : Job) (extra_nonce2 : Bytes) (nonce : ℕ) (m : Miner) (id : ℕ)
    (client : Client) (s : Server)
    → m.writable ≡ true
    → find_client id s ≡ some client
    → ((submit_share job extra_nonce2 nonce m).sent
        ≡ m.sent ++ share_request job extra_nonce2 nonce m ∷ [])
      × ((submit_share job extra_nonce2 nonce m).pending
          ≡ (share_request job extra_nonce2 nonce m).id
            ∷ drop_id (share_request job extra_nonce2 nonce m).id m.pending)
      × (handle_message c node id (some (sent_line (share_request job extra_nonce2 nonce m))) s
          ≡ handle_submit c node client.id
              ((m.next_id + 1) % 2 ^ 64)
              client
              (submit_params m.user job.job_id extra_nonce2 job.ntime (le_bytes 4 nonce))
              s)
unfolding submit_share send_request next_request_id sent_line dispatch
handle_message-submit_share c node job extra_nonce2 nonce m id client s writable present =
    let r = share_request job extra_nonce2 nonce m in
    let read = parse_request-request_fields r.id method_submit r.params (omega arith) refl in
    (simp writable, simp writable, handle_message-dispatch c node id _ s client _ present read)
