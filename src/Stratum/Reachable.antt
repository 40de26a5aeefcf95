-- ===== src/Stratum/Reachable.antt =====
-- The server over time: the steps that change it, in any order, from its start.
use monetarium_stratum.Prelude.{
  ℕ, suc, Bool, ◌+◌, ◌^◌, ◌≤◌, ◌<◌, ◌≡◌, ◌≢◌, refl, sym, ap, ◌∙◌, subst, Option, some, List, [],
  ◌∷◌, map, arith, All, ok, Distinct, ok-injective,
}
use monetarium_stratum.Bytes.Slice.{Bytes}
use monetarium_stratum.Bytes.Endian.{le_bytes, le_value, le_value-le_bytes, le_bytes-All}
use monetarium_stratum.Bytes.Hex.{encode, decode, decode-encode}
use mathlib.Core.Option.{some-injective}
use monetarium_stratum.Mining.Chain.{Chain}
use monetarium_stratum.Mining.Work.{Work}
use monetarium_stratum.Mining.Evaluate.{share_target}
use monetarium_stratum.Mining.Manager.{WorkManager, set_current, new_work_manager}
use monetarium_stratum.Mining.Manager.Registry.{Ascending, new_work_manager-IsRegistry}
use monetarium_stratum.Stratum.Protocol.{Json}
use monetarium_stratum.Stratum.Server.{
  Client, Server, Node, new_server, connect, remove_client, process_work, send_work, client_count,
}
use monetarium_stratum.Stratum.Server.Health.{
  IsHealthy, IsHealthy-le, identity, process_work-IsHealthy, installs, send_work-IsHealthy,
}
use monetarium_stratum.Stratum.Server.Accept.{
  connect-IsHealthy, remove_client-IsHealthy, length-map,
}
use monetarium_stratum.Stratum.Client.{handle_message}
use monetarium_stratum.Stratum.Client.Health.{handle_message-Succeeds}

-- The extra nonces of clients with rising identifiers below 2 ^ 32 are different.
nonce_ne : (a b : ℕ) → a < b → b < 2 ^ 32 → encode (le_bytes 4 a) ≢ encode (le_bytes 4 b)
nonce_ne a b lt fits e =
    let d : some (le_bytes 4 a) ≡ some (le_bytes 4 b) =
      sym (decode-encode (le_bytes 4 a) (le_bytes-All 4 a))
      ∙ ap decode e
      ∙ decode-encode (le_bytes 4 b) (le_bytes-All 4 b) in
    let v : a ≡ b =
      sym (le_value-le_bytes 4 a (omega arith))
      ∙ ap le_value (some-injective _ _ d)
      ∙ le_value-le_bytes 4 b (omega arith) in
    absurd (omega arith)

Ascending-nonce_ne :
    (a top : ℕ) (x : Bytes) (cs : List Client)
    → top < 2 ^ 32
    → x ≡ encode (le_bytes 4 a)
    → All (λ m. a < m) (map (λ i. i.0) (map identity cs))
    → Ascending (map (λ i. i.0) (map identity cs)) top
    → All (λ i. i.1 ≡ encode (le_bytes 4 (i.0))) (map identity cs)
    → All (λ y. x ≢ y) (map (λ k. k.extra_nonce1) cs)
Ascending-nonce_ne a top x [] fits e lt asc all = tt
Ascending-nonce_ne a top x (k ∷ cs) fits e lt asc all =
    let le : k.id ≤ top = asc.0 in
    let ltk : a < k.id = lt.0 in
    (
      λ same. nonce_ne a k.id ltk (omega arith) (sym e ∙ same ∙ all.0),
      Ascending-nonce_ne a top x cs fits e (lt.1) (asc.2) (all.1),
    )

Ascending-Distinct :
    (top : ℕ) (cs : List Client)
    → top < 2 ^ 32
    → Ascending (map (λ i. i.0) (map identity cs)) top
    → All (λ i. i.1 ≡ encode (le_bytes 4 (i.0))) (map identity cs)
    → Distinct (map (λ k. k.extra_nonce1) cs)
Ascending-Distinct top [] fits asc all = tt
Ascending-Distinct top (k ∷ cs) fits asc all = (
  Ascending-nonce_ne k.id top k.extra_nonce1 cs fits (all.0) (asc.1) (asc.2) (all.1),
  Ascending-Distinct top cs fits (asc.2) (all.1),
)

module _ (c : Chain) (share_difficulty divisor : ℕ) (password : Bytes) (max_clients : ℕ) where
  -- A server after `n` steps. A message meets the node and the clock as they are then; `ProcessWork`
  -- is one step, or its `SetCurrent` and its sends are one each.
  pub data IsReachable : ℕ → Server → Type 0 where
    started : IsReachable 0 (new_server share_difficulty divisor password max_clients)
    connected : (n : ℕ) (s : Server) → IsReachable n s → IsReachable (suc n) (connect s)
    disconnected :
        (n id : ℕ) (s : Server) → IsReachable n s → IsReachable (suc n) (remove_client id s)
    got_message :
        (n id : ℕ) (node : Node) (line : Option Json) (s s' : Server)
        → IsReachable n s
        → handle_message c node id line s ≡ ok s'
        → IsReachable (suc n) s'
    got_work :
        (n : ℕ) (blob reason : Bytes) (s s' : Server)
        → IsReachable n s
        → process_work blob reason s ≡ ok s'
        → IsReachable (suc n) s'
    installed :
        (n : ℕ) (blob reason : Bytes) (s : Server) (r : WorkManager × Option Work × Bool)
        → IsReachable n s
        → set_current s.work_mgr blob reason ≡ some r
        → IsReachable (suc n) (record s { work_mgr = r.0 })
    sent_work :
        (n id : ℕ) (w : Work) (clean : Bool) (s : Server)
        → IsReachable n s
        → IsReachable (suc n) (send_work id w clean s)

  new_server-IsHealthy :
      IsHealthy 0 share_difficulty (new_server share_difficulty divisor password max_clients)
  unfolding new_server new_work_manager
  new_server-IsHealthy = record {
    registry = new_work_manager-IsRegistry 1000;
    capacity = omega arith;
    jobs_counted = omega arith;
    clients_counted = omega arith;
    same_counter = refl;
    ascending = tt;
    nonces = tt;
    limited = omega arith;
    same_share = refl;
  }

  module _ (share : ℕ) (share_defined : share_target c share_difficulty ≡ some share) where
    pub IsReachable-IsHealthy :
        (n : ℕ) (s : Server) → n < 2 ^ 32 → IsReachable n s → IsHealthy n share_difficulty s
    IsReachable-IsHealthy _ _ fits started = new_server-IsHealthy
    IsReachable-IsHealthy _ _ fits (connected n s r) =
        subst (λ k. IsHealthy k share_difficulty (connect s)) (omega arith)
          (connect-IsHealthy n share_difficulty s (omega arith)
            (IsReachable-IsHealthy n s (omega arith) r))
    IsReachable-IsHealthy _ _ fits (disconnected n id s r) =
        IsHealthy-le n (suc n) share_difficulty (remove_client id s) (omega arith) (
          remove_client-IsHealthy n share_difficulty id s
            (IsReachable-IsHealthy n s (omega arith) r))
    IsReachable-IsHealthy _ _ fits (got_message n id node line s s' r run) =
        let (t, e, h) =
          handle_message-Succeeds c node n share_difficulty share share_defined (omega arith) id
            line s (IsReachable-IsHealthy n s (omega arith) r) in
        let same : t ≡ s' = ok-injective (sym e ∙ run) in
        IsHealthy-le (n + 1) (suc n) share_difficulty s' (omega arith)
          (subst (IsHealthy (n + 1) share_difficulty) same h)
    IsReachable-IsHealthy _ _ fits (got_work n blob reason s s' r run) =
        let (t, e, h) =
          process_work-IsHealthy n share_difficulty s blob reason (omega arith)
            (IsReachable-IsHealthy n s (omega arith) r) in
        let same : t ≡ s' = ok-injective (sym e ∙ run) in
        IsHealthy-le (n + 1) (suc n) share_difficulty s' (omega arith)
          (subst (IsHealthy (n + 1) share_difficulty) same h)
    IsReachable-IsHealthy _ _ fits (installed n blob reason s r reach run) =
        let (t, e, h) =
          installs n share_difficulty s blob reason (omega arith)
            (IsReachable-IsHealthy n s (omega arith) reach) in
        let same : t ≡ r = some-injective t r (sym e ∙ run) in
        IsHealthy-le (n + 1) (suc n) share_difficulty (record s { work_mgr = r.0 }) (omega arith)
          (subst (λ x. IsHealthy (n + 1) share_difficulty (record s { work_mgr = x.0 })) same h)
    IsReachable-IsHealthy _ _ fits (sent_work n id w clean s r) =
        IsHealthy-le n (suc n) share_difficulty (send_work id w clean s) (omega arith) (
          send_work-IsHealthy n share_difficulty id w clean s
            (IsReachable-IsHealthy n s (omega arith) r))

    -- After fewer than 2 ^ 32 steps of any kind and order, at a share difficulty that has a target:
    -- the clients are within their limit, and no two of them have the same extra nonce 1.
    pub reachable_clients :
        (n : ℕ) (s : Server)
        → n < 2 ^ 32
        → IsReachable n s
        → (client_count s ≤ s.max_clients) × Distinct (map (λ k. k.extra_nonce1) s.clients)
    unfolding client_count
    reachable_clients n s fits r =
        let h = IsReachable-IsHealthy n s fits r in
        (
          omega (arith, h.limited, length-map identity s.clients),
          Ascending-Distinct s.client_id s.clients (omega (arith, h.clients_counted)) h.ascending
              h.nonces,
        )

    -- A server after fewer than 2 ^ 32 steps takes every line of every client, and all data from the
    -- node, without a panic, where the share difficulty has a target.
    pub reachable_runs :
        (n : ℕ) (s : Server)
        → n < 2 ^ 32
        → IsReachable n s
        → ((node : Node) (id : ℕ) (line : Option Json)
            → (s' : Server) × (handle_message c node id line s ≡ ok s'))
          × ((blob reason : Bytes) → (s' : Server) × (process_work blob reason s ≡ ok s'))
    reachable_runs n s fits r =
        let h = IsReachable-IsHealthy n s fits r in
        (
          λ node id line.
              let (t, e, _) =
                handle_message-Succeeds c node n share_difficulty share share_defined (omega arith)
                  id line s h in
              (t, e),
          λ blob reason.
              let (t, e, _) =
                process_work-IsHealthy n share_difficulty s blob reason (omega arith) h in
              (t, e),
        )
