-- ===== src/Stratum/Server/Stop.antt =====
-- `Stop` of the server: the listener is closed, so that no client comes any more, and each client is.
use monetarium_stratum.Prelude.{
  ℕ, ◌≡◌, refl, Bool, true, false, List, [], ◌∷◌, ◌==◌, if◌then◌else◌, arith, All, Bool-cases, inl,
  inr,
}
use monetarium_stratum.Stratum.Server.State.{Client, Server, drop_client, remove_client}

-- `close` of each client of a list: the client leaves the map.
unfoldable pub close_clients : List Client → Server → Server
close_clients [] s = s
close_clients (k ∷ ks) s = close_clients ks (remove_client k.id s)

-- `Stop`
unfoldable pub stop : Server → Server
unfolding close_clients
stop s = close_clients s.clients s

abbrev named : List Client → ℕ → Bool
named [] id = false
named (k ∷ ks) id = if k.id == id then true else named ks id

drop_client-named :
    (k : Client) (ks ds : List Client)
    → All (λ d. named (k ∷ ks) d.id ≡ true) ds
    → All (λ d. named ks d.id ≡ true) (drop_client k.id ds)
unfolding drop_client
drop_client-named k ks [] h = tt
drop_client-named k ks (d ∷ ds) h =
    let rest = drop_client-named k ks ds (h.1) in
    elim (Bool-cases (d.id == k.id)) [
      | inl e ↦ rw e rest
      | inr e ↦
          let other : (k.id == d.id) ≡ false = ground arith in
          let found : named ks d.id ≡ true = ground (arith, h.0) in rw e (found, rest)
    ]

close_clients_all :
    (ks : List Client) (s : Server)
    → All (λ d. named ks d.id ≡ true) s.clients
    → (close_clients ks s).clients ≡ []
unfolding close_clients remove_client
close_clients_all [] s h = none_left s.clients h
  where
    none_left : (ds : List Client) → All (λ d. named [] d.id ≡ true) ds → ds ≡ []
    none_left [] h = refl
    none_left (d ∷ ds) h = cc (h.0)
close_clients_all (k ∷ ks) s h =
    close_clients_all ks (remove_client k.id s) (drop_client-named k ks s.clients h)

all_named :
    (ks ds : List Client)
    → ((id : ℕ) → named ds id ≡ true → named ks id ≡ true)
    → All (λ d. named ks d.id ≡ true) ds
all_named ks [] h = tt
all_named ks (d ∷ ds) h =
    (h d.id (ground arith), all_named ks ds (λ id e. h id (ground (arith, e))))

-- No client is left when the server is stopped.
pub stop-clients : (s : Server) → (stop s).clients ≡ []
unfolding stop
stop-clients s = close_clients_all s.clients s (all_named s.clients s.clients (λ id e. e))
