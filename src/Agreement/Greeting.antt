-- ===== src/Agreement/Greeting.antt =====
-- What `handleSubscribe` sends, and how the miner takes the difficulty.
use monetarium_stratum.Prelude.{
  ℕ, ◌≡◌, sym, ap, ◌∙◌, false, Option, none, some, List, [], ◌∷◌, ◌++◌, arith, ok, ◌>>=◌, or_fail,
}
use mathlib.Core.List.{append_assoc}
use monetarium_stratum.Bytes.Text.{codes}
use monetarium_stratum.Mining.Chain.{Chain}
use monetarium_stratum.Mining.Work.{Work}
use monetarium_stratum.Mining.Evaluate.{share_target}
use monetarium_stratum.Mining.Manager.{current_work}
use monetarium_stratum.Stratum.Protocol.{
  Json, str, num, obj, field, no_fields, Message, response, notification, StratumError,
  new_response, new_set_difficulty,
}
use monetarium_stratum.Stratum.Server.{
  Client, Server, find_client, update_client, enqueue, send_result, send_work, work_notification,
  queue,
}
use monetarium_stratum.Stratum.Server.Find.{find_client-enqueue}
use monetarium_stratum.Stratum.Client.{handle_subscribe, send_current, subscription}
use monetarium_stratum.Miner.Session.{
  division_by_zero, Incoming, Miner, handle_notification, set_difficulty, difficulty_of,
}

-- A message of the pool as the miner decodes it.
abbrev error_json : Option StratumError → Option Json
error_json none = none
error_json (some e) =
    some (
      obj (field (codes "code") (num e.code 0) (field (codes "message") (str e.message) no_fields)))

abbrev pub delivered : Message → Incoming
delivered (response r) = record {
  id = r.id;
  method = [];
  result = r.result;
  error = error_json r.error;
  params = [];
}
delivered (notification n) = record {
  id = n.id;
  method = n.method;
  result = none;
  error = none;
  params = n.params;
}

-- The difficulty that the pool announces gives the miner the share target of the pool, and a panic
-- exactly where the pool has none.
pub handle_notification-new_set_difficulty :
    (c : Chain) (difficulty : ℕ) (m : Miner)
    → handle_notification c (delivered (notification (new_set_difficulty difficulty))) m ≡ (
        or_fail (share_target c difficulty) division_by_zero >>= λ t.
        ok (record m { target = some t }))
unfolding handle_notification new_set_difficulty set_difficulty difficulty_of share_target
handle_notification-new_set_difficulty c difficulty m = ground arith

-- What a subscribed client of a pool with work `w` is sent: the reply, the difficulty and the work.
abbrev pub greeting : ℕ → Client → Server → Work → List Message
greeting req_id k s w =
    response (new_response req_id (subscription k))
    ∷ notification (new_set_difficulty s.share_diff)
    ∷ notification (work_notification w false)
    ∷ []

-- A subscription of a registered client to a pool with current work: exactly three messages join
-- the client's queue, in this order: the reply, the difficulty and the work.
pub find_client-handle_subscribe :
    (req_id : ℕ) (k : Client) (s : Server) (w : Work)
    → find_client k.id s ≡ some k
    → s.work_mgr.current ≡ some w
    → find_client k.id (handle_subscribe req_id k s)
      ≡ some (record k { sends = k.sends ++ greeting req_id k s w })
unfolding handle_subscribe current_work send_current send_work send_result enqueue update_client
find_client-handle_subscribe req_id k s w found current =
    let m1 = response (new_response req_id (subscription k)) in
    let m2 = notification (new_set_difficulty s.share_diff) in
    let m3 = notification (work_notification w false) in
    let run : handle_subscribe req_id k s ≡ enqueue k.id m3 (enqueue k.id m2 (enqueue k.id m1 s)) =
      simp current in
    let queued : k.sends ++ greeting req_id k s w ≡ ((k.sends ++ m1 ∷ []) ++ m2 ∷ []) ++ m3 ∷ [] =
      simp append_assoc in
    ap (find_client k.id) run
    ∙ find_client-enqueue k.id m3 _ _ (
        find_client-enqueue k.id m2 (enqueue k.id m1 s) (queue m1 k)
          (find_client-enqueue k.id m1 s k found))
    ∙ ap (λ q. some (record k { sends = q })) (sym queued)
