-- ===== src/Stratum/Server/Health.antt =====
-- The invariant of the server: its registry is well formed, its clients are within the limit, and
-- each has an identifier and an extra nonce 1 of its own.
use monetarium_stratum.Prelude.{
  ℕ, ◌+◌, ◌^◌, ◌≤◌, ◌<◌, ◌≡◌, refl, sym, ap₂, subst, Bool, false, Option, none, some, List, [], ◌∷◌,
  map, arith, inl, inr, Bool-cases, Option-cases, length, All, ok, ◌==◌, if◌then◌else◌,
}
use monetarium_stratum.Bytes.Slice.{Bytes}
use monetarium_stratum.Bytes.Endian.{le_bytes, le_value}
use monetarium_stratum.Bytes.Hex.{encode}
use monetarium_stratum.Mining.Manager.{WorkManager, set_current, reason_new_votes, current_work}
use monetarium_stratum.Mining.Manager.Registry.{IsRegistry, Ascending}
use monetarium_stratum.Mining.Manager.Updates.{set_current-IsRegistry}
use monetarium_stratum.Mining.Work.{Work, refresh_timestamp, timestamp}
use monetarium_stratum.Stratum.Protocol.{Message, notification}
use monetarium_stratum.Stratum.Server.{
  Server, Client, update_client, enqueue, queue, broadcast, broadcast_work, refresh_work,
  process_work, fresh_timestamp, broadcast_to, work_notification, send_work,
}

-- What the server gave a client and never changes.
abbrev pub identity : Client → ℕ × Bytes
identity c = (c.id, c.extra_nonce1)

-- The identities `ids`, after at most `n` steps.
pub record IsPool (n share_diff : ℕ) (mgr : WorkManager) (ids : List (ℕ × Bytes))
    (client_id nonce1 max_clients share : ℕ) : Type 0 where
  pub registry : IsRegistry mgr
  pub capacity : 0 < mgr.max_jobs
  pub jobs_counted : mgr.seq ≤ n
  pub clients_counted : client_id ≤ n
  pub same_counter : nonce1 ≡ client_id
  pub ascending : Ascending (map (λ i. i.0) ids) client_id
  pub nonces : All (λ i. i.1 ≡ encode (le_bytes 4 (i.0))) ids
  pub limited : length ids ≤ max_clients
  pub same_share : share ≡ share_diff

abbrev pub IsHealthy : ℕ → ℕ → Server → Type 0
IsHealthy n share_diff s =
    IsPool n share_diff s.work_mgr (map identity s.clients) s.client_id s.nonce1 s.max_clients
      s.share_diff

map-map_keeps :
    (f : Client → Client)
    → ((c : Client) → identity (f c) ≡ identity c)
    → (cs : List Client) → map identity (map f cs) ≡ map identity cs
map-map_keeps f h [] = refl
map-map_keeps f h (c ∷ cs) = ap₂ ◌∷◌ (h c) (map-map_keeps f h cs)

-- A change of the clients that keeps their identities.
pub keeps-IsHealthy :
    (n d : ℕ) (f : Client → Client) (s : Server)
    → ((c : Client) → identity (f c) ≡ identity c)
    → IsHealthy n d s
    → IsHealthy n d (record s { clients = map f s.clients })
keeps-IsHealthy n d f s keeps h =
    subst (λ ids. IsPool n d s.work_mgr ids s.client_id s.nonce1 s.max_clients s.share_diff)
      (sym (map-map_keeps f keeps s.clients)) h

pub update_client-IsHealthy :
    (n d id : ℕ) (f : Client → Client) (s : Server)
    → ((c : Client) → identity (f c) ≡ identity c)
    → IsHealthy n d s
    → IsHealthy n d (update_client id f s)
unfolding update_client
update_client-IsHealthy n d id f s keeps h =
    keeps-IsHealthy n d (λ c. if c.id == id then f c else c) s
      (λ c. elim (Bool-cases (c.id == id)) [ inl e ↦ rw e (keeps c) | inr e ↦ rw e refl ]) h

pub enqueue-IsHealthy :
    (n d id : ℕ) (m : Message) (s : Server) → IsHealthy n d s → IsHealthy n d (enqueue id m s)
unfolding enqueue
enqueue-IsHealthy n d id m s h = update_client-IsHealthy n d id (queue m) s (λ c. refl) h

broadcast_to-IsHealthy :
    (n d : ℕ) (w : Option Work) (clean : Bool) (s : Server)
    → IsHealthy n d s
    → IsHealthy n d (broadcast_to w clean s)
unfolding broadcast
broadcast_to-IsHealthy n d none clean s h = h
broadcast_to-IsHealthy n d (some w) clean s h =
    keeps-IsHealthy n d (queue (notification (work_notification w clean))) s (λ c. refl) h

-- More steps.
pub IsHealthy-le : (n n' d : ℕ) (s : Server) → n ≤ n' → IsHealthy n d s → IsHealthy n' d s
IsHealthy-le n n' d s le h = record {
  registry = h.registry;
  capacity = h.capacity;
  jobs_counted = omega (arith, h.jobs_counted);
  clients_counted = omega (arith, h.clients_counted);
  same_counter = h.same_counter;
  ascending = h.ascending;
  nonces = h.nonces;
  limited = h.limited;
  same_share = h.same_share;
}

pub with_manager :
    (n n' d : ℕ) (s : Server) (m : WorkManager)
    → n ≤ n'
    → IsHealthy n d s
    → IsRegistry m
    → 0 < m.max_jobs
    → m.seq ≤ n'
    → IsHealthy n' d (record s { work_mgr = m })
with_manager n n' d s m le h reg cap counted = record {
  registry = reg;
  capacity = cap;
  jobs_counted = counted;
  clients_counted = omega (arith, h.clients_counted);
  same_counter = h.same_counter;
  ascending = h.ascending;
  nonces = h.nonces;
  limited = h.limited;
  same_share = h.same_share;
}

-- New data for the manager is never a panic, and keeps the server healthy.
pub installs :
    (n d : ℕ) (s : Server) (blob reason : Bytes)
    → n + 1 < 2 ^ 64
    → IsHealthy n d s
    → (r : WorkManager × Option Work × Bool) × (set_current s.work_mgr blob reason ≡ some r)
      × IsHealthy (n + 1) d (record s { work_mgr = r.0 })
installs n d s blob reason fits h =
    let (r, e, reg, same, counted) =
      set_current-IsRegistry s.work_mgr blob reason h.registry h.capacity
        (omega (arith, h.jobs_counted)) in
    (
      r,
      e,
      with_manager n (n + 1) d s (r.0) (omega arith) h reg
          (subst (λ k. 0 < k) (sym same) h.capacity) (omega (arith, h.jobs_counted)),
    )

-- `ProcessWork`
pub process_work-IsHealthy :
    (n d : ℕ) (s : Server) (blob reason : Bytes)
    → n + 1 < 2 ^ 64
    → IsHealthy n d s
    → (s' : Server) × (process_work blob reason s ≡ ok s') × IsHealthy (n + 1) d s'
unfolding process_work
process_work-IsHealthy n d s blob reason fits h =
    let (r, e, healthy) = installs n d s blob reason fits h in
    (
      broadcast_to (r.1) (r.2) (record s { work_mgr = r.0 }),
      simp e,
      broadcast_to-IsHealthy (n + 1) d (r.1) (r.2) (record s { work_mgr = r.0 }) healthy,
    )

-- `RefreshWork`
pub refresh_work-IsHealthy :
    (n d now : ℕ) (s : Server)
    → n + 1 < 2 ^ 64
    → IsHealthy n d s
    → (s' : Server) × (refresh_work now s ≡ ok s') × IsHealthy (n + 1) d s'
unfolding refresh_work current_work broadcast_work
refresh_work-IsHealthy n d now s fits h = elim (Option-cases s.work_mgr.current) [
  | inl e ↦ (s, simp e, IsHealthy-le n (n + 1) d s (omega arith) h)
  | inr (w, e) ↦
      let blob = refresh_timestamp w (fresh_timestamp now (le_value (timestamp w))) in
      let (r, f, healthy) = installs n d s blob reason_new_votes fits h in
      (
        broadcast_to r.0.current false (record s { work_mgr = r.0 }),
        simp (e, f),
        broadcast_to-IsHealthy (n + 1) d r.0.current false (record s { work_mgr = r.0 }) healthy,
      )
]

-- `sendWork`
pub send_work-IsHealthy :
    (n d id : ℕ) (w : Work) (clean : Bool) (s : Server)
    → IsHealthy n d s
    → IsHealthy n d (send_work id w clean s)
unfolding send_work
send_work-IsHealthy n d id w clean s h =
    enqueue-IsHealthy n d id (notification (work_notification w clean)) s h
