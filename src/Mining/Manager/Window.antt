-- ===== src/Mining/Manager/Window.antt =====
-- The registry against its whole history: it holds exactly the last jobs that were issued.
use mathlib.Core.List.{map-append}
use mathlib.Core.Option.{some-injective}
use monetarium_stratum.Prelude.{
  ℕ, suc, ◌+◌, ◌-◌, ◌%◌, ◌^◌, ◌≤◌, ◌<◌, ◌≡◌, ◌≢◌, refl, sym, ap, ap₂, ◌∙◌, subst, Bool, true, false,
  Option, none, some, List, [], ◌∷◌, ◌++◌, map, arith, ltb, Bool-cases, inl, inr, length,
  if◌then◌else◌, All, ok, err, eq_bytes, lt→ltb,
}
use monetarium_stratum.Bytes.Slice.{Bytes}
use monetarium_stratum.Bytes.Dict.{keys, lookup, remove, insert_new, remove_first}
use monetarium_stratum.Bytes.Decimal.{format_uint}
use monetarium_stratum.Mining.Work.{Work, new_work, invalid_length}
use monetarium_stratum.Mining.Work.Fields.{new_work_lem}
use monetarium_stratum.Mining.Manager.{
  WorkManager, is_duplicate, evict, register, set_current, current_work, job, new_work_manager,
  reason_new_parent,
}
use monetarium_stratum.Mining.Manager.Registry.{
  IsRegistry, Listed, evict_lem, next_is_new, new_work_manager-IsRegistry,
}
use monetarium_stratum.Mining.Manager.Updates.{set_current-IsRegistry}
use monetarium_stratum.Mining.Manager.History.{
  History, last, last_n, find_work, issue, entry, last-snoc, drop_nil, trimmed, trimmed-last_n,
  history, no_history,
}

length-map : {A B : Type 0} (f : A → B) (xs : List A) → length (map f xs) ≡ length xs
length-map f [] = refl
length-map f (x ∷ xs) = ap suc (length-map f xs)

-- The registry holds the last jobs of the history, and its current job is the last of them.
record Holds (h : History) (m : WorkManager) : Type 0 where
  filed : m.jobs ≡ map entry (last_n m.max_jobs h.issued)
  listed : m.order ≡ map (λ w. w.job_id) (last_n m.max_jobs h.issued)
  is_last : m.current ≡ last h.issued
  counted : m.seq ≡ h.seq
  registry : IsRegistry m

evicts_oldest :
    (m : WorkManager) (ws : List Work)
    → m.jobs ≡ map entry ws
    → m.order ≡ map (λ w. w.job_id) ws
    → 0 < m.max_jobs
    → evict m
      ≡ some (record m {
        order = map (λ w. w.job_id) (trimmed m.max_jobs ws);
        jobs = map entry (trimmed m.max_jobs ws);
      })
unfolding evict
evicts_oldest m [] ej eo pos =
    let room : ltb 0 m.max_jobs ≡ true = lt→ltb 0 m.max_jobs pos in rw (eo, room) (simp ej)
evicts_oldest m (w ∷ ws) ej eo pos =
    let len : length m.order ≡ suc (length ws) =
      ap length eo ∙ ap suc (length-map (λ v. v.job_id) ws) in
    elim (Bool-cases (ltb (suc (length ws)) m.max_jobs)) [
      | inl room ↦
          let r : ltb (length m.order) m.max_jobs ≡ true = ap (λ n. ltb n m.max_jobs) len ∙ room in
          rw (r, room) (ap₂ (λ j o. some (record m { jobs = j; order = o })) ej eo)
      | inr full ↦
          let r : ltb (length m.order) m.max_jobs ≡ false = ap (λ n. ltb n m.max_jobs) len ∙ full in
          let gone : remove w.job_id m.jobs ≡ map entry ws =
            ap (remove w.job_id) ej ∙ remove_first w.job_id w (map entry ws) in
          rw (r, full) (simp (eo, gone))
    ]

-- A new job joins the window.
registers_last :
    (m m1 : WorkManager) (ns : List ℕ) (top : ℕ) (ws : List Work) (w : Work)
    → Listed ns top m1
    → top + 1 < 2 ^ 64
    → w.job_id ≡ format_uint (top + 1)
    → m1.jobs ≡ map entry ws
    → (register m1 w).jobs ≡ map entry (ws ++ w ∷ [])
unfolding register
registers_last m m1 ns top ws w l fits id ej =
    let new : All (λ j. j ≢ w.job_id) (keys m1.jobs) =
      subst (λ i. All (λ j. j ≢ i) (keys m1.jobs)) (sym id)
        (subst (All (λ j. j ≢ format_uint (top + 1))) (sym (l.keyed ∙ l.ordered))
          (next_is_new ns top l.ascending fits)) in
    insert_new w.job_id w m1.jobs new
    ∙ ap (λ x. x ++ entry w ∷ []) ej
    ∙ sym (map-append entry ws (w ∷ []))

module _ (h : History) (m : WorkManager) (blob reason : Bytes) (holds : Holds h m)
    (pos : 0 < m.max_jobs) (fits : m.seq + 1 < 2 ^ 64) where
  following-IsRegistry :
      (r : WorkManager × Option Work × Bool) → set_current m blob reason ≡ some r → IsRegistry r.0
  following-IsRegistry r e =
      let (r', e', reg, _, _) = set_current-IsRegistry m blob reason holds.registry pos fits in
      subst (λ x. IsRegistry x.0) (some-injective r' r (sym e' ∙ e)) reg

  abbrev Follows : Type 0
  Follows =
      (r : WorkManager × Option Work × Bool) × (set_current m blob reason ≡ some r)
      × Holds (issue blob h) r.0
      × (r.0.max_jobs ≡ m.max_jobs)
      × (r.0.seq ≤ m.seq + 1)

  same_seq : (m.seq + 1) % 2 ^ 64 ≡ m.seq + 1
  same_seq = omega arith

  duplicate : is_duplicate m.current blob ≡ true → Follows
  unfolding set_current
  duplicate dup =
      let dup' : is_duplicate (last h.issued) blob ≡ true =
        ap (λ c. is_duplicate c blob) (sym holds.is_last) ∙ dup in
      ((m, m.current, false), simp dup, rw dup' holds, refl, omega arith)

  wrong :
      is_duplicate m.current blob ≡ false
      → new_work blob (format_uint (m.seq + 1)) ≡ err (invalid_length (length blob))
      → Follows
  unfolding set_current
  wrong fresh fails =
      let fresh' : is_duplicate (last h.issued) blob ≡ false =
        ap (λ c. is_duplicate c blob) (sym holds.is_last) ∙ fresh in
      let fails' : new_work blob (format_uint (h.seq + 1)) ≡ err (invalid_length (length blob)) =
        ap (λ n. new_work blob (format_uint (n + 1))) (sym holds.counted) ∙ fails in
      let r : WorkManager × Option Work × Bool = (record m { seq = m.seq + 1 }, m.current, false) in
      let run : set_current m blob reason ≡ some r = simp (fresh, same_seq, fails) in
      let told : issue blob h ≡ record h { seq = h.seq + 1 } = simp (fresh', fails') in
      (
        r,
        run,
        rw told (record {
          filed = holds.filed;
          listed = holds.listed;
          is_last = holds.is_last;
          counted = ap (λ n. n + 1) holds.counted;
          registry = following-IsRegistry r run;
        }),
        refl,
        omega arith,
      )

  issued :
      (w : Work)
      → is_duplicate m.current blob ≡ false
      → new_work blob (format_uint (m.seq + 1)) ≡ ok w
      → w.job_id ≡ format_uint (m.seq + 1)
      → Follows
  unfolding set_current register
  issued w fresh made id =
      let fresh' : is_duplicate (last h.issued) blob ≡ false =
        ap (λ c. is_duplicate c blob) (sym holds.is_last) ∙ fresh in
      let made' : new_work blob (format_uint (h.seq + 1)) ≡ ok w =
        ap (λ n. new_work blob (format_uint (n + 1))) (sym holds.counted) ∙ made in
      let ws = last_n m.max_jobs h.issued in
      let begun = record m { seq = m.seq + 1; current = some w } in
      let m1 = record begun {
        order = map (λ v. v.job_id) (trimmed m.max_jobs ws);
        jobs = map entry (trimmed m.max_jobs ws);
      } in
      let left : evict begun ≡ some m1 = evicts_oldest begun ws holds.filed holds.listed pos in
      let reg = holds.registry in
      let listed : Listed reg.numbers m.seq begun = record {
        ordered = reg.listed.ordered;
        keyed = reg.listed.keyed;
        ascending = reg.listed.ascending;
        sound = reg.listed.sound;
      } in
      let (m2, ev) = evict_lem begun reg.numbers m.seq listed pos reg.bounded in
      let same : m2 ≡ m1 = some-injective m2 m1 (sym ev.evicts ∙ left) in
      let listed1 : Listed ev.numbers m.seq m1 = subst (Listed ev.numbers m.seq) same ev.listed in
      let r : WorkManager × Option Work × Bool =
        (register m1 w, some w, eq_bytes reason reason_new_parent) in
      let run : set_current m blob reason ≡ some r = ground (arith, left) in
      let told : issue blob h ≡ record { issued = h.issued ++ w ∷ []; seq = h.seq + 1 } =
        simp (fresh', made') in
      let grows = trimmed-last_n m.max_jobs h.issued w pos in
      (
        r,
        run,
        rw told (record {
          filed =
              registers_last m m1 ev.numbers m.seq (trimmed m.max_jobs ws) w listed1 fits id refl
              ∙ ap (map entry) grows;
          listed =
              sym (map-append (λ v. v.job_id) (trimmed m.max_jobs ws) (w ∷ []))
              ∙ ap (map (λ v. v.job_id)) grows;
          is_last = sym (last-snoc h.issued w);
          counted = ap (λ n. n + 1) holds.counted;
          registry = following-IsRegistry r run;
        }),
        refl,
        omega arith,
      )

  follows : Follows
  follows = elim (Bool-cases (is_duplicate m.current blob)) [
    | inl dup ↦ duplicate dup
    | inr fresh ↦ elim (new_work_lem blob (format_uint (m.seq + 1))) [
      | inl (size, (w, made, id, _, _)) ↦ issued w fresh made id
      | inr (ne, fails) ↦ wrong fresh fails
    ]
  ]

-- The updates of the node, in their order: data and reason.
unfoldable pub feed : List (Bytes × Bytes) → WorkManager → Option WorkManager
feed [] m = some m
feed ((blob, reason) ∷ updates) m = elim (set_current m blob reason) [
  | none ↦ none
  | some r ↦ feed updates (r.0)
]

find_work-lookup : (id : Bytes) (ws : List Work) → lookup id (map entry ws) ≡ find_work id ws
unfolding lookup
find_work-lookup id [] = refl
find_work-lookup id (w ∷ ws) =
    ap (λ t. if eq_bytes w.job_id id then some w else t) (find_work-lookup id ws)

feed-Holds :
    (updates : List (Bytes × Bytes)) (h : History) (m : WorkManager)
    → Holds h m
    → 0 < m.max_jobs
    → m.seq + length updates < 2 ^ 64
    → (m' : WorkManager) × (feed updates m ≡ some m')
      × Holds (history updates h) m'
      × (m'.max_jobs ≡ m.max_jobs)
unfolding feed
feed-Holds [] h m holds pos fits = (m, refl, holds, refl)
feed-Holds ((blob, reason) ∷ updates) h m holds pos fits =
    let (r, run, holds', same, grown) = follows h m blob reason holds pos (omega arith) in
    let (m', done, all, same') =
      feed-Holds updates (issue blob h) (r.0) holds' (omega (arith, same)) (omega arith) in
    (m', simp (feed, run, done), all, same' ∙ same)

-- A manager that keeps at most `max_jobs` jobs, at least one, and is given fewer than 2 ^ 64 updates,
-- does not panic on any. It finds a job exactly if it is one of the last `max_jobs` jobs issued, with
-- the work of that job, and its current work is the last one issued.
pub feed-new_work_manager :
    (max_jobs : ℕ) (updates : List (Bytes × Bytes))
    → 0 < max_jobs
    → length updates < 2 ^ 64
    → (m : WorkManager) × (feed updates (new_work_manager max_jobs) ≡ some m)
      × ((id : Bytes)
          → job m id ≡ find_work id (last_n max_jobs (history updates no_history).issued))
      × (current_work m ≡ last (history updates no_history).issued)
unfolding new_work_manager job current_work
feed-new_work_manager max_jobs updates pos fits =
    let (m, run, holds, same) =
      feed-Holds updates no_history (new_work_manager max_jobs)
        (record {
          filed = ap (map entry) (sym (drop_nil (0 - max_jobs)));
          listed = ap (map (λ w. w.job_id)) (sym (drop_nil (0 - max_jobs)));
          is_last = refl;
          counted = refl;
          registry = new_work_manager-IsRegistry max_jobs;
        })
        pos (omega arith) in
    let window = last_n m.max_jobs (history updates no_history).issued in
    let found : (id : Bytes) → lookup id m.jobs ≡ find_work id window =
      λ id. ap (lookup id) holds.filed ∙ find_work-lookup id window in
    (
      m,
      run,
      λ id. found id ∙ ap (λ k. find_work id (last_n k (history updates no_history).issued)) same,
      holds.is_last,
    )
