-- ===== src/Stratum/Server/Find.antt =====
-- A change of one client, as it is found afterwards.
use mathlib.Core.Option.{some-injective}
use monetarium_stratum.Prelude.{
  ℕ, ◌≡◌, refl, sym, ap, ◌∙◌, true, some, List, [], ◌∷◌, map, ◌==◌, if◌then◌else◌, Bool-cases, inl,
  inr,
}
use monetarium_stratum.Stratum.Protocol.{Message}
use monetarium_stratum.Stratum.Server.{
  Client, Server, find_client, find_in, update_client, enqueue, queue,
}

find_in-changed :
    (id : ℕ) (f : Client → Client) (cs : List Client) (k : Client)
    → ((x : Client) → (f x).id ≡ x.id)
    → find_in id cs ≡ some k
    → find_in id (map (λ x. if x.id == id then f x else x) cs) ≡ some (f k)
unfolding find_in
find_in-changed id f [] k keeps h = cc
find_in-changed id f (x ∷ cs) k keeps h = elim (Bool-cases (x.id == id)) [
  | inl e ↦
      let e' : ((f x).id == id) ≡ true = ap (λ n. n == id) (keeps x) ∙ e in
      let found : find_in id (x ∷ cs) ≡ some x = simp e in
      let same : x ≡ k = some-injective x k (sym found ∙ h) in
      rw (e, e') (ap (λ y. some (f y)) same)
  | inr e ↦
      let skips : find_in id (x ∷ cs) ≡ find_in id cs = simp e in
      rw (e, e) (find_in-changed id f cs k keeps (sym skips ∙ h))
]

pub find_client-update_client :
    (id : ℕ) (f : Client → Client) (s : Server) (k : Client)
    → ((x : Client) → (f x).id ≡ x.id)
    → find_client id s ≡ some k
    → find_client id (update_client id f s) ≡ some (f k)
unfolding find_client update_client
find_client-update_client id f s k keeps h = find_in-changed id f s.clients k keeps h

pub find_client-enqueue :
    (id : ℕ) (m : Message) (s : Server) (k : Client)
    → find_client id s ≡ some k
    → find_client id (enqueue id m s) ≡ some (queue m k)
unfolding enqueue
find_client-enqueue id m s k h = find_client-update_client id (queue m) s k (λ x. refl) h
