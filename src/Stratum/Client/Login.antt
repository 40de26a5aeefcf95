-- ===== src/Stratum/Client/Login.antt =====
-- `handleAuthorize` and the server's password.
use monetarium_stratum.Prelude.{
  ℕ, ◌≡◌, ◌≢◌, ◌⊎◌, refl, sym, ap, ◌∙◌, true, false, some, List, [], Bool-cases, inl, inr, eq_bytes,
  eq_bytes→eq, eq_bytes_refl,
}
use monetarium_stratum.Bytes.Slice.{Bytes}
use monetarium_stratum.Bytes.Text.{codes}
use monetarium_stratum.Stratum.Protocol.{
  Json, bool, response, new_response, new_error_response, err_unauthorized, string_params,
}
use monetarium_stratum.Stratum.Server.{
  Client, Server, find_client, update_client, enqueue, queue, send_result, send_error, authorize,
}
use monetarium_stratum.Stratum.Server.Find.{find_client-enqueue, find_client-update_client}
use monetarium_stratum.Stratum.Client.{handle_authorize, two_params, accepts_login, log_in}

abbrev pub MayLogIn : Server → Bytes → Bytes → Type 0
MayLogIn s user pass = (user ≢ []) × ((s.pool_password ≡ []) ⊎ (pass ≡ s.pool_password))

accepts_login-cases :
    (s : Server) (user pass : Bytes)
    → ((accepts_login s user pass ≡ true) × MayLogIn s user pass)
      ⊎ ((accepts_login s user pass ≡ false) × (¬ MayLogIn s user pass))
unfolding accepts_login authorize
accepts_login-cases s user pass = elim (Bool-cases (eq_bytes user [])) [
  | inl e ↦ inr (simp e, λ may. may.0 (eq_bytes→eq user [] e))
  | inr e ↦
      let named : user ≢ [] = λ same. cc (sym e ∙ ap (λ u. eq_bytes u []) same) in
      elim (Bool-cases (eq_bytes s.pool_password [])) [
        | inl f ↦ inl (simp (e, f), (named, inl (eq_bytes→eq s.pool_password [] f)))
        | inr f ↦ elim (Bool-cases (eq_bytes pass s.pool_password)) [
          | inl g ↦ inl (simp (e, f, g), (named, inr (eq_bytes→eq pass s.pool_password g)))
          | inr g ↦ inr (
            simp (e, f, g),
            λ may. elim (may.1) [
              | inl free ↦ cc (sym f ∙ ap (λ p. eq_bytes p []) free)
              | inr same ↦ cc (
                  sym g ∙ ap (λ p. eq_bytes p s.pool_password) same ∙ eq_bytes_refl s.pool_password)
            ],
          )
        ]
      ]
]

-- A registered client that sends a user and a password is logged in as that user and told so
-- exactly where the user is not empty and the server has no password or this one; otherwise it
-- keeps its login and is sent the error for an unauthorized worker.
pub handle_authorize_lem :
    (req_id : ℕ) (k : Client) (params : List Json) (s : Server) (user pass : Bytes)
    → find_client k.id s ≡ some k
    → two_params (string_params params) ≡ some (user, pass)
    → (MayLogIn s user pass
        × (find_client k.id (handle_authorize req_id k params s)
            ≡ some (queue (response (new_response req_id (bool true))) (log_in user k))))
      ⊎ ((¬ MayLogIn s user pass)
          × (find_client k.id (handle_authorize req_id k params s)
              ≡ some (
                  queue
                    (response
                      (new_error_response req_id err_unauthorized (codes "unauthorized worker")))
                    k)))
unfolding handle_authorize send_result send_error
handle_authorize_lem req_id k params s user pass found two =
    elim (accepts_login-cases s user pass) [
      | inl (yes_login, may) ↦
          let run : handle_authorize req_id k params s
              ≡ enqueue k.id (response (new_response req_id (bool true)))
                  (update_client k.id (log_in user) s) =
            simp (handle_authorize, two, yes_login) in
          inl (
            may,
            ap (find_client k.id) run
                ∙ find_client-enqueue k.id _ (update_client k.id (log_in user) s) (log_in user k)
                    (find_client-update_client k.id (log_in user) s k (λ x. refl) found),
          )
      | inr (no_login, may_not) ↦
          let run : handle_authorize req_id k params s
              ≡ enqueue k.id
                  (response
                    (new_error_response req_id err_unauthorized (codes "unauthorized worker")))
                  s =
            simp (handle_authorize, two, no_login) in
          inr (may_not, ap (find_client k.id) run ∙ find_client-enqueue k.id _ s k found)
    ]
