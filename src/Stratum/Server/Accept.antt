-- ===== src/Stratum/Server/Accept.antt =====
-- Connections and disconnections keep the server healthy.
use monetarium_stratum.Prelude.{
  ℕ, ◌+◌, ◌%◌, ◌^◌, ◌≤◌, ◌<◌, ◌≡◌, refl, sym, ap, ◌∙◌, subst, false, List, [], ◌∷◌, ◌++◌, map,
  arith, inl, inr, Bool-cases, length, length-append, All, leb, ◌==◌,
}
use mathlib.Core.List.{map-append}
use monetarium_stratum.Bytes.Slice.{Bytes}
use monetarium_stratum.Bytes.Endian.{le_bytes}
use monetarium_stratum.Bytes.Hex.{encode}
use monetarium_stratum.Mining.Manager.Registry.{Ascending, Ascending-snoc, All-snoc}
use monetarium_stratum.Stratum.Server.{
  Server, Client, connect, client_count, new_client, add_client, remove_client, drop_client,
  next_client_id, assign_extra_nonce1,
}
use monetarium_stratum.Stratum.Server.Health.{IsHealthy, IsHealthy-le, identity}

abbrev ids_of : List Client → List ℕ
ids_of cs = map (λ i. i.0) (map identity cs)

drop_client-All :
    (P : ℕ → Type 0) (id : ℕ) (cs : List Client)
    → All P (ids_of cs)
    → All P (ids_of (drop_client id cs))
unfolding drop_client
drop_client-All P id [] h = tt
drop_client-All P id (c ∷ cs) h = elim (Bool-cases (c.id == id)) [
  | inl e ↦ rw e (drop_client-All P id cs h.1)
  | inr e ↦ rw e (h.0, drop_client-All P id cs h.1)
]

drop_client-nonces :
    (P : ℕ × Bytes → Type 0) (id : ℕ) (cs : List Client)
    → All P (map identity cs)
    → All P (map identity (drop_client id cs))
unfolding drop_client
drop_client-nonces P id [] h = tt
drop_client-nonces P id (c ∷ cs) h = elim (Bool-cases (c.id == id)) [
  | inl e ↦ rw e (drop_client-nonces P id cs h.1)
  | inr e ↦ rw e (h.0, drop_client-nonces P id cs h.1)
]

drop_client-Ascending :
    (id top : ℕ) (cs : List Client)
    → Ascending (ids_of cs) top
    → Ascending (ids_of (drop_client id cs)) top
unfolding drop_client
drop_client-Ascending id top [] h = tt
drop_client-Ascending id top (c ∷ cs) h = elim (Bool-cases (c.id == id)) [
  | inl e ↦ rw e (drop_client-Ascending id top cs (h.2))
  | inr e ↦
      rw e (h.0, drop_client-All (λ m. c.id < m) id cs (h.1), drop_client-Ascending id top cs (h.2))
]

length-drop_client :
    (id : ℕ) (cs : List Client)
    → length (map identity (drop_client id cs)) ≤ length (map identity cs)
unfolding drop_client
length-drop_client id [] = omega arith
length-drop_client id (c ∷ cs) = elim (Bool-cases (c.id == id)) [
  | inl e ↦ rw e (omega (arith, length-drop_client id cs))
  | inr e ↦ rw e (omega (arith, length-drop_client id cs))
]

drop_client_new :
    (id top : ℕ) (cs : List Client) → top < id → Ascending (ids_of cs) top → drop_client id cs ≡ cs
unfolding drop_client
drop_client_new id top [] lt h = refl
drop_client_new id top (c ∷ cs) lt h =
    let e : (c.id == id) ≡ false = ground arith in
    rw e (ap (λ t. c ∷ t) (drop_client_new id top cs lt (h.2)))

pub length-map : {A B : Type 0} (f : A → B) (xs : List A) → length (map f xs) ≡ length xs
length-map f [] = refl
length-map f (x ∷ xs) = omega (arith, length-map f xs)

pub remove_client-IsHealthy :
    (n d id : ℕ) (s : Server) → IsHealthy n d s → IsHealthy n d (remove_client id s)
unfolding remove_client
remove_client-IsHealthy n d id s h = record {
  registry = h.registry;
  capacity = h.capacity;
  jobs_counted = h.jobs_counted;
  clients_counted = h.clients_counted;
  same_counter = h.same_counter;
  ascending = drop_client-Ascending id s.client_id s.clients h.ascending;
  nonces = drop_client-nonces (λ i. i.1 ≡ encode (le_bytes 4 (i.0))) id s.clients h.nonces;
  limited = omega (arith, length-drop_client id s.clients, h.limited);
  same_share = h.same_share;
}

-- The client that a server with `k` connections registers next.
abbrev newcomer : Server → Client
newcomer s = record {
  id = s.client_id + 1;
  extra_nonce1 = encode (le_bytes 4 (s.client_id + 1));
  extra_nonce2_length = s.extra_nonce2_length;
  worker = [];
  authorized = false;
  sends = [];
  submissions = 0;
}

abbrev joined : Server → Server
joined s = record s {
  client_id = s.client_id + 1;
  nonce1 = s.client_id + 1;
  clients = s.clients ++ newcomer s ∷ [];
}

connect_below_limit :
    (n d : ℕ) (s : Server)
    → n + 1 < 2 ^ 32
    → leb s.max_clients (client_count s) ≡ false
    → IsHealthy n d s
    → connect s ≡ joined s
unfolding connect client_count new_client add_client next_client_id assign_extra_nonce1
connect_below_limit n d s fits room h =
    let id : (s.client_id + 1) % 2 ^ 64 ≡ s.client_id + 1 = omega (arith, h.clients_counted) in
    let nonce : (s.nonce1 + 1) % 2 ^ 32 ≡ s.client_id + 1 =
      omega (arith, h.clients_counted, h.same_counter) in
    let kept : drop_client (s.client_id + 1) s.clients ≡ s.clients =
      drop_client_new (s.client_id + 1) s.client_id s.clients (omega arith) h.ascending in
    simp (room, id, nonce, kept)

joined-IsHealthy :
    (n d : ℕ) (s : Server)
    → leb s.max_clients (client_count s) ≡ false
    → IsHealthy n d s
    → IsHealthy (n + 1) d (joined s)
unfolding client_count
joined-IsHealthy n d s room h =
    let ids : map identity (s.clients ++ newcomer s ∷ [])
        ≡ map identity s.clients ++ identity (newcomer s) ∷ [] =
      map-append identity s.clients (newcomer s ∷ []) in
    let numbers : ids_of (s.clients ++ newcomer s ∷ [])
        ≡ ids_of s.clients ++ (s.client_id + 1) ∷ [] =
      ap (map (λ i. i.0)) ids
      ∙ map-append (λ i. i.0) (map identity s.clients) (identity (newcomer s) ∷ []) in
    record {
      registry = h.registry;
      capacity = h.capacity;
      jobs_counted = omega (arith, h.jobs_counted);
      clients_counted = omega (arith, h.clients_counted);
      same_counter = refl;
      ascending =
          subst (λ l. Ascending l (s.client_id + 1)) (sym numbers)
            (Ascending-snoc (ids_of s.clients) s.client_id h.ascending);
      nonces = subst (All (λ i. i.1 ≡ encode (le_bytes 4 (i.0)))) (sym ids) (
          All-snoc (λ i. i.1 ≡ encode (le_bytes 4 (i.0))) (map identity s.clients)
            (identity (newcomer s)) h.nonces refl);
      limited =
          let l : length (map identity (s.clients ++ newcomer s ∷ [])) ≡ length s.clients + 1 =
            length-map identity (s.clients ++ newcomer s ∷ [])
            ∙ length-append s.clients (newcomer s ∷ []) in
          let r : length s.clients < s.max_clients = ground arith in omega arith;
      same_share = h.same_share;
    }

pub connect-IsHealthy :
    (n d : ℕ) (s : Server) → n + 1 < 2 ^ 32 → IsHealthy n d s → IsHealthy (n + 1) d (connect s)
unfolding connect
connect-IsHealthy n d s fits h = elim (Bool-cases (leb s.max_clients (client_count s))) [
  | inl full ↦
      let same : connect s ≡ s = simp full in
      subst (IsHealthy (n + 1) d) (sym same) (IsHealthy-le n (n + 1) d s (omega arith) h)
  | inr room ↦
      subst (IsHealthy (n + 1) d) (sym (connect_below_limit n d s fits room h))
        (joined-IsHealthy n d s room h)
]
