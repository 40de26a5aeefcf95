-- ===== src/Stratum/Client/Handlers.antt =====
-- `handleSubscribe`, `handleAuthorize` and the dispatch of `handleMessage`.
use monetarium_stratum.Prelude.{
  ℕ, Bool, true, false, not, ◌&&◌, Option, none, some, List, [], ◌∷◌, ◌++◌, if◌then◌else◌, eq_bytes,
  Result, ok,
}
use monetarium_stratum.Bytes.Slice.{Bytes}
use monetarium_stratum.Bytes.Text.{codes}
use monetarium_stratum.Mining.Chain.{Chain}
use monetarium_stratum.Mining.Work.{Work}
use monetarium_stratum.Mining.Manager.{current_work}
use monetarium_stratum.Stratum.Protocol.{
  Json, bool, num, str, arr, no_items, item, Request, notification, parse_request, string_params,
  new_set_difficulty, method_subscribe, method_authorize, method_submit, method_suggest_difficulty,
  method_set_difficulty, method_notify, err_unknown, err_unauthorized,
}
use monetarium_stratum.Stratum.Server.{
  Panic, Client, Server, Node, update_client, find_client, enqueue, send_result, send_error,
  send_work, authorize,
}
use monetarium_stratum.Stratum.Client.Submit.{handle_submit}

abbrev text_pair : Bytes → Bytes → Json
text_pair a b = arr (item (str a) (item (str b) no_items))

-- The subscription reply: the two subscriptions, the extra nonce 1 and the length of the second.
abbrev pub subscription : Client → Json
subscription c = arr (
    item
      (arr (
        item (text_pair method_set_difficulty (codes "1"))
          (item (text_pair method_notify (codes "1")) no_items)))
      (item (str c.extra_nonce1) (item (num c.extra_nonce2_length 0) no_items)))

unfoldable pub send_current : ℕ → Option Work → Server → Server
send_current id none s = s
send_current id (some w) s = send_work id w false s

-- `handleSubscribe`
unfoldable pub handle_subscribe : ℕ → Client → Server → Server
unfolding send_current current_work
handle_subscribe req_id c s =
    let s1 = send_result c.id req_id (subscription c) s in
    let s2 = enqueue c.id (notification (new_set_difficulty s1.share_diff)) s1 in
    send_current c.id (current_work s2.work_mgr) s2

-- The first two parameters.
unfoldable pub two_params : Option (List Bytes) → Option (Bytes × Bytes)
two_params (some (user ∷ pass ∷ _)) = some (user, pass)
two_params _ = none

-- `user != "" && c.server.authorize(user, pass)`
unfoldable pub accepts_login : Server → Bytes → Bytes → Bool
accepts_login s user pass = not (eq_bytes user []) && authorize s user pass

abbrev pub log_in : Bytes → Client → Client
log_in user c = record c { worker = user; authorized = true }

-- `handleAuthorize`
unfoldable pub handle_authorize : ℕ → Client → List Json → Server → Server
unfolding two_params accepts_login
handle_authorize req_id c params s = elim (two_params (string_params params)) [
  | none ↦ send_error c.id req_id err_unauthorized (codes "invalid authorize params") s
  | some (user, pass) ↦
      if accepts_login s user pass
      then send_result c.id req_id (bool true) (update_client c.id (log_in user) s)
      else send_error c.id req_id err_unauthorized (codes "unauthorized worker") s
]

module _ (c : Chain) (node : Node) where
  -- The `switch` on the method. (`%q` also escapes what is not printable; that is left out.)
  unfoldable pub dispatch : Client → Request → Server → Result Panic Server
  unfolding handle_subscribe handle_authorize
  dispatch client req s =
      if eq_bytes req.method method_subscribe
      then ok (handle_subscribe req.id client s)
      else if eq_bytes req.method method_authorize
      then ok (handle_authorize req.id client req.params s)
      else if eq_bytes req.method method_submit
      then handle_submit c node client.id req.id client req.params s
      else if eq_bytes req.method method_suggest_difficulty
      then ok (send_result client.id req.id (bool true) s)
      else ok (
          send_error client.id req.id err_unknown
            (codes "unknown method " ++ (b'"' ∷ (req.method ++ b'"' ∷ []))) s)

  -- `handleMessage` on a line of a client; a line of a client that is gone is not read.
  unfoldable pub handle_message : ℕ → Option Json → Server → Result Panic Server
  unfolding dispatch
  handle_message id line s = elim (find_client id s) [
    | none ↦ ok s
    | some client ↦ elim (parse_request line) [
      | none ↦ ok (send_error id 0 err_unknown (codes "invalid request") s)
      | some req ↦ dispatch client req s
    ]
  ]
