-- ===== src/Mining/Manager/Updates.antt =====
-- What `set_current` does on each branch, and that it keeps the registry well formed.
use monetarium_stratum.Prelude.{
  ◌+◌, ◌^◌, ◌≤◌, ◌<◌, ◌≡◌, ◌≢◌, ◌⊎◌, refl, sym, ap, ◌∙◌, subst, Bool, true, false, Option, some, [],
  ◌∷◌, ◌++◌, arith, Bool-cases, inl, inr, length, length-append, eq_bytes, ok, err,
}
use mathlib.Core.Option.{some-injective}
use monetarium_stratum.Bytes.Slice.{Bytes}
use monetarium_stratum.Bytes.Dict.{lookup, insert, lookup-insert_self}
use monetarium_stratum.Bytes.Decimal.{format_uint}
use monetarium_stratum.Mining.Work.{Work, new_work, getwork_data_len, invalid_length}
use monetarium_stratum.Mining.Work.Fields.{new_work_lem}
use monetarium_stratum.Mining.Manager.{
  WorkManager, is_duplicate, register, set_current, job, reason_new_parent,
}
use monetarium_stratum.Mining.Manager.Registry.{
  IsRegistry, Listed, Evicted, evict_lem, register-Listed, Ascending-le,
}

-- A blob of the right size that is not for the current template: the new job, filed under the next number, is current, is returned,
-- and is found again; a new parent asks for clean jobs.
pub record Installed (m : WorkManager) (blob reason : Bytes) : Type 0 where
  pub after : WorkManager
  pub work : Work
  pub is_new : is_duplicate m.current blob ≡ false
  pub sized : length blob ≡ getwork_data_len
  pub result :
      set_current m blob reason ≡ some (after, some work, eq_bytes reason reason_new_parent)
  pub numbered : work.job_id ≡ format_uint (m.seq + 1)
  pub keeps_blob : work.data_blob ≡ blob
  pub is_current : after.current ≡ some work
  pub is_found : job after work.job_id ≡ some work
  pub counted : after.seq ≡ m.seq + 1
  pub same_max : after.max_jobs ≡ m.max_jobs
  pub registry : IsRegistry after

module _ (m : WorkManager) (blob reason : Bytes) (reg : IsRegistry m) (pos : 0 < m.max_jobs)
    (fits : m.seq + 1 < 2 ^ 64) where
  install_registered :
      (w : Work) (m' : WorkManager)
      → is_duplicate m.current blob ≡ false
      → new_work blob (format_uint (m.seq + 1)) ≡ ok w
      → w.job_id ≡ format_uint (m.seq + 1)
      → w.data_blob ≡ blob
      → length blob ≡ getwork_data_len
      → Evicted m.seq (record m { seq = m.seq + 1; current = some w }) m'
      → Installed m blob reason
  unfolding set_current job
  install_registered w m' fresh made id same size ev = record {
    after = register m' w;
    work = w;
    is_new = fresh;
    sized = size;
    result = ground (arith, ev.evicts);
    numbered = id;
    keeps_blob = same;
    is_current = ev.same_current;
    is_found = lookup-insert_self w.job_id w m'.jobs;
    counted = ev.same_seq;
    same_max = ev.same_max;
    registry = record {
      numbers = ev.numbers ++ (m.seq + 1) ∷ [];
      listed =
          subst (λ t. Listed (ev.numbers ++ (m.seq + 1) ∷ []) t (register m' w)) (sym ev.same_seq)
            (register-Listed m' ev.numbers m.seq w ev.listed fits id (ap length same ∙ size));
      bounded = omega (arith, length-append m'.order (w.job_id ∷ []), ev.room, ev.same_max);
      current_listed = λ v e.
          subst
            (λ u.
              (lookup u.job_id (insert w.job_id w m'.jobs) ≡ some u)
              × (length u.data_blob ≡ getwork_data_len))
            (some-injective w v (sym ev.same_current ∙ e))
            (lookup-insert_self w.job_id w m'.jobs, ap length same ∙ size);
    };
  }

  install :
      (w : Work)
      → is_duplicate m.current blob ≡ false
      → new_work blob (format_uint (m.seq + 1)) ≡ ok w
      → w.job_id ≡ format_uint (m.seq + 1)
      → w.data_blob ≡ blob
      → length blob ≡ getwork_data_len
      → Installed m blob reason
  install w fresh made id same size =
      let started = record m { seq = m.seq + 1; current = some w } in
      let listed : Listed reg.numbers m.seq started = record {
        ordered = reg.listed.ordered;
        keyed = reg.listed.keyed;
        ascending = reg.listed.ascending;
        sound = reg.listed.sound;
      } in
      let (m', ev) = evict_lem started reg.numbers m.seq listed pos reg.bounded in
      install_registered w m' fresh made id same size ev

  counted_on : IsRegistry (record m { seq = m.seq + 1 })
  counted_on = record {
    numbers = reg.numbers;
    listed = record {
      ordered = reg.listed.ordered;
      keyed = reg.listed.keyed;
      ascending = Ascending-le reg.numbers m.seq (m.seq + 1) (omega arith) reg.listed.ascending;
      sound = reg.listed.sound;
    };
    bounded = reg.bounded;
    current_listed = reg.current_listed;
  }

  wrong_size :
      (length blob ≢ getwork_data_len)
      → is_duplicate m.current blob ≡ false
      → new_work blob (format_uint (m.seq + 1)) ≡ err (invalid_length (length blob))
      → set_current m blob reason ≡ some (record m { seq = m.seq + 1 }, m.current, false)
  unfolding set_current
  wrong_size ne fresh fails = ground arith

  -- On a well-formed registry with room for a job, while the numbers do not wrap: data for the
  -- current template changes nothing; a blob of another size than 192 bytes only uses up a number;
  -- every other blob becomes the current job, filed and found under the next number.
  pub set_current_lem :
      ((is_duplicate m.current blob ≡ true)
        × (set_current m blob reason ≡ some (m, m.current, false)))
      ⊎ ((is_duplicate m.current blob ≡ false)
          × (length blob ≢ getwork_data_len)
          × (set_current m blob reason ≡ some (record m { seq = m.seq + 1 }, m.current, false)))
      ⊎ Installed m blob reason
  unfolding set_current
  set_current_lem = elim (Bool-cases (is_duplicate m.current blob)) [
    | inl dup ↦ inl (dup, rw dup)
    | inr fresh ↦ elim (new_work_lem blob (format_uint (m.seq + 1))) [
      | inl (size, (w, made, id, same, _)) ↦ inr (inr (install w fresh made id same size))
      | inr (ne, fails) ↦ inr (inl (fresh, ne, wrong_size ne fresh fails))
    ]
  ]

  -- On a well-formed registry with room for a job, while the numbers do not wrap, `set_current`
  -- does not panic, and the registry stays well formed: within its bound, one job for each
  -- identifier, the current job among them; at most one number is used up.
  pub set_current-IsRegistry :
      (r : WorkManager × Option Work × Bool) × (set_current m blob reason ≡ some r)
      × IsRegistry r.0
      × (r.0.max_jobs ≡ m.max_jobs)
      × (r.0.seq ≤ m.seq + 1)
  set_current-IsRegistry = elim set_current_lem [
    | inl (_, e) ↦ ((m, m.current, false), e, reg, refl, omega arith)
    | inr (inl (_, _, e)) ↦
        ((record m { seq = m.seq + 1 }, m.current, false), e, counted_on, refl, omega arith)
    | inr (inr i) ↦ (
      (i.after, some i.work, eq_bytes reason reason_new_parent),
      i.result,
      i.registry,
      i.same_max,
      omega (arith, i.counted),
    )
  ]
