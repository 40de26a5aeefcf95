-- ===== src/Mining/Manager/Registry.antt =====
-- The invariant of the job registry: identifiers in the order of issue, a job for each of them, and
-- the current job among them.
use monetarium_stratum.Prelude.{
  ℕ, ◌+◌, ◌^◌, ◌≤◌, ◌<◌, ◌≡◌, ◌≢◌, refl, sym, ap, ap₂, ◌∙◌, subst, false, some, List, [], ◌∷◌, ◌++◌,
  map, arith, ltb, Bool-cases, inl, inr, length, All,
}
use mathlib.Core.List.{map-append}
use monetarium_stratum.Bytes.Slice.{Bytes}
use monetarium_stratum.Bytes.Dict.{keys, lookup, insert, remove, insert_new, remove_first}
use monetarium_stratum.Bytes.Decimal.{format_uint, format_uint_inj}
use monetarium_stratum.Mining.Work.{Work, getwork_data_len}
use monetarium_stratum.Mining.Manager.{WorkManager, evict, register, new_work_manager}

-- Numbers that rise strictly and do not pass `top`.
abbrev pub Ascending : List ℕ → ℕ → Type 0
Ascending [] top = Unit
Ascending (n ∷ ns) top = (n ≤ top) × All (λ m. n < m) ns × Ascending ns top

-- A job is filed under its own identifier, with a blob of the right size.
abbrev pub IsEntry : Bytes × Work → Type 0
IsEntry e = (e.1.job_id ≡ e.0) × (length e.1.data_blob ≡ getwork_data_len)

-- The registry lists the numbers `ns`, oldest first, none of them above `top`.
pub record Listed (ns : List ℕ) (top : ℕ) (m : WorkManager) : Type 0 where
  pub ordered : m.order ≡ map format_uint ns
  pub keyed : keys m.jobs ≡ m.order
  pub ascending : Ascending ns top
  pub sound : All IsEntry m.jobs

pub record IsRegistry (m : WorkManager) : Type 0 where
  pub numbers : List ℕ
  pub listed : Listed numbers m.seq m
  pub bounded : length m.order ≤ m.max_jobs
  pub current_listed :
      (w : Work)
      → m.current ≡ some w
      → (lookup w.job_id m.jobs ≡ some w) × (length w.data_blob ≡ getwork_data_len)

pub All-snoc :
    {A : Type 0} (P : A → Type 0) (ns : List A) (k : A) → All P ns → P k → All P (ns ++ k ∷ [])
All-snoc P [] k h p = (p, tt)
All-snoc P (n ∷ ns) k h p = (h.0, All-snoc P ns k h.1 p)

pub Ascending-le : (ns : List ℕ) (a b : ℕ) → a ≤ b → Ascending ns a → Ascending ns b
Ascending-le [] a b h s = tt
Ascending-le (n ∷ ns) a b h s = (omega arith, s.1, Ascending-le ns a b h s.2)

pub Ascending-snoc :
    (ns : List ℕ) (top : ℕ) → Ascending ns top → Ascending (ns ++ (top + 1) ∷ []) (top + 1)
Ascending-snoc [] top s = (omega arith, tt, tt)
Ascending-snoc (n ∷ ns) top s =
    (omega arith, All-snoc (λ m. n < m) ns (top + 1) s.1 (omega arith), Ascending-snoc ns top s.2)

-- The next number has a text that none of the listed ones has.
pub next_is_new :
    (ns : List ℕ) (top : ℕ)
    → Ascending ns top
    → top + 1 < 2 ^ 64
    → All (λ j. j ≢ format_uint (top + 1)) (map format_uint ns)
next_is_new [] top s h = tt
next_is_new (n ∷ ns) top s h = (
  λ e.
      let same : n ≡ top + 1 = format_uint_inj n (top + 1) (omega arith) h e in
      absurd (omega arith),
  next_is_new ns top s.2 h,
)

pub new_work_manager-IsRegistry : (max_jobs : ℕ) → IsRegistry (new_work_manager max_jobs)
unfolding new_work_manager
new_work_manager-IsRegistry max_jobs = record {
  numbers = [];
  listed = record { ordered = refl; keyed = refl; ascending = tt; sound = tt };
  bounded = omega arith;
  current_listed = λ w e. cc;
}

-- What an eviction leaves.
pub record Evicted (top : ℕ) (m m' : WorkManager) : Type 0 where
  pub evicts : evict m ≡ some m'
  pub numbers : List ℕ
  pub listed : Listed numbers top m'
  pub room : length m'.order < m.max_jobs
  pub same_max : m'.max_jobs ≡ m.max_jobs
  pub same_seq : m'.seq ≡ m.seq
  pub same_current : m'.current ≡ m.current

evict_full :
    (m : WorkManager) (order : List Bytes) (jobs : List (Bytes × Work)) (ns : List ℕ) (top : ℕ)
    → order ≡ m.order
    → jobs ≡ m.jobs
    → Listed ns top m
    → 0 < m.max_jobs
    → length m.order ≤ m.max_jobs
    → ltb (length m.order) m.max_jobs ≡ false
    → (m' : WorkManager) × Evicted top m m'
unfolding evict
evict_full m [] jobs ns top eo ej l pos b full =
    let z : length m.order ≡ 0 = ap length (sym eo) in absurd (ground arith)
evict_full m (k ∷ order) [] ns top eo ej l pos b full = cc
evict_full m (k ∷ order) (e ∷ jobs) [] top eo ej l pos b full = cc
evict_full m (k ∷ order) ((j, w) ∷ jobs) (n ∷ ns) top eo ej l pos b full =
    let head : j ≡ k = cc in
    let tail : keys jobs ≡ order = cc in
    let gone : remove k m.jobs ≡ jobs = ap₂ remove (sym head) (sym ej) ∙ remove_first j w jobs in
    (
      record m { order = order; jobs = jobs },
      record {
        evicts = ground arith;
        numbers = ns;
        listed = record {
          ordered = cc;
          keyed = tail;
          ascending = l.ascending.2;
          sound = (subst (All IsEntry) (sym ej) l.sound).1;
        };
        room = omega (arith, ap length eo);
        same_max = refl;
        same_seq = refl;
        same_current = refl;
      },
    )

pub evict_lem :
    (m : WorkManager) (ns : List ℕ) (top : ℕ)
    → Listed ns top m
    → 0 < m.max_jobs
    → length m.order ≤ m.max_jobs
    → (m' : WorkManager) × Evicted top m m'
unfolding evict
evict_lem m ns top l pos b = elim (Bool-cases (ltb (length m.order) m.max_jobs)) [
  | inl room ↦ (
    m,
    record {
      evicts = rw room;
      numbers = ns;
      listed = l;
      room = ground arith;
      same_max = refl;
      same_seq = refl;
      same_current = refl;
    },
  )
  | inr full ↦ evict_full m m.order m.jobs ns top refl refl l pos b full
]

-- A job under the next number joins the registry.
pub register-Listed :
    (m : WorkManager) (ns : List ℕ) (top : ℕ) (w : Work)
    → Listed ns top m
    → top + 1 < 2 ^ 64
    → w.job_id ≡ format_uint (top + 1)
    → length w.data_blob ≡ getwork_data_len
    → Listed (ns ++ (top + 1) ∷ []) (top + 1) (register m w)
unfolding register
register-Listed m ns top w l fits id size =
    let new : All (λ j. j ≢ w.job_id) (keys m.jobs) =
      subst (λ i. All (λ j. j ≢ i) (keys m.jobs)) (sym id)
        (subst (All (λ j. j ≢ format_uint (top + 1))) (sym (l.keyed ∙ l.ordered))
          (next_is_new ns top l.ascending fits)) in
    let at_end : insert w.job_id w m.jobs ≡ m.jobs ++ (w.job_id, w) ∷ [] =
      insert_new w.job_id w m.jobs new in
    record {
      ordered =
          ap₂ (λ a b. a ++ b ∷ []) l.ordered id ∙ sym (map-append format_uint ns ((top + 1) ∷ []));
      keyed =
          ap keys at_end
          ∙ map-append (λ e. e.0) m.jobs ((w.job_id, w) ∷ [])
          ∙ ap (λ o. o ++ w.job_id ∷ []) l.keyed;
      ascending = Ascending-snoc ns top l.ascending;
      sound =
          subst (All IsEntry) (sym at_end)
            (All-snoc IsEntry m.jobs (w.job_id, w) l.sound (refl, size));
    }
