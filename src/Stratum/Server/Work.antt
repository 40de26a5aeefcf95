-- ===== src/Stratum/Server/Work.antt =====
-- What `RefreshWork` and `ProcessWork` do to a server whose registry is well formed.
use monetarium_stratum.Prelude.{
  ℕ, ◌+◌, ◌^◌, ◌<◌, ◌≡◌, ◌≢◌, ◌⊎◌, refl, sym, ap, ◌∙◌, subst, true, false, some, map, arith, inl,
  inr, length, eq_bytes, eq_bytes→eq, All, ok, take, drop,
}
use monetarium_stratum.Bytes.Slice.{Bytes, IsByte, take-All, drop-All, length-slice}
use monetarium_stratum.Bytes.Endian.{le_value, le_value-lt}
use monetarium_stratum.Bytes.Decimal.{format_uint}
use monetarium_stratum.Mining.Work.{
  Work, getwork_data_len, timestamp, timestamp_offset, refresh_timestamp,
}
use monetarium_stratum.Mining.Work.Fields.{length-refresh_timestamp, timestamp_of_refreshed}
use monetarium_stratum.Mining.Manager.{
  is_duplicate, current_work, job, reason_new_votes, reason_new_parent,
}
use monetarium_stratum.Mining.Manager.Registry.{IsRegistry}
use monetarium_stratum.Mining.Manager.Updates.{Installed, set_current_lem}
use monetarium_stratum.Stratum.Protocol.{notification}
use monetarium_stratum.Stratum.Server.{
  Server, broadcast, broadcast_work, refresh_work, process_work, fresh_timestamp, work_notification,
  queue,
}

fresh_timestamp-lt : (now old : ℕ) → now < 2 ^ 32 → fresh_timestamp now old < 2 ^ 32
unfolding fresh_timestamp
fresh_timestamp-lt now old h = ground arith

fresh_timestamp-ne : (now old : ℕ) → old < 2 ^ 32 → fresh_timestamp now old ≢ old
unfolding fresh_timestamp
fresh_timestamp-ne now old h e = ground arith

-- The server after a refresh of the work `w`.
pub record Refreshed (now : ℕ) (w : Work) (s : Server) : Type 0 where
  pub after : Server
  pub work : Work
  pub result : refresh_work now s ≡ ok after
  pub refreshed :
      work.data_blob ≡ refresh_timestamp w (fresh_timestamp now (le_value (timestamp w)))
  pub stamped : le_value (timestamp work) ≡ fresh_timestamp now (le_value (timestamp w))
  pub numbered : work.job_id ≡ format_uint (s.work_mgr.seq + 1)
  pub is_current : after.work_mgr.current ≡ some work
  pub is_found : job after.work_mgr work.job_id ≡ some work
  pub registry : IsRegistry after.work_mgr
  pub told : after.clients ≡ map (queue (notification (work_notification work false))) s.clients
  pub same_calls : after.node_calls ≡ s.node_calls
  pub same_shares : after.share_count ≡ s.share_count

module _ (s : Server) (reg : IsRegistry s.work_mgr) (pos : 0 < s.work_mgr.max_jobs)
    (fits : s.work_mgr.seq + 1 < 2 ^ 64) where
  module _ (now : ℕ) (w : Work) (h : s.work_mgr.current ≡ some w) (in_range : now < 2 ^ 32)
      (bytes : All IsByte w.data_blob) where
    abbrev new_blob : Bytes
    new_blob = refresh_timestamp w (fresh_timestamp now (le_value (timestamp w)))

    size : length w.data_blob ≡ getwork_data_len
    size = (reg.current_listed w h).1

    old_fits : le_value (timestamp w) < 2 ^ 32
    unfolding timestamp
    old_fits =
        let l : length (timestamp w) ≡ 4 =
          omega (arith, length-slice w.data_blob timestamp_offset (timestamp_offset + 4), size) in
        let b : le_value (timestamp w) < 256 ^ length (timestamp w) =
          le_value-lt (timestamp w)
            (take-All IsByte 4 _ (drop-All IsByte timestamp_offset w.data_blob bytes)) in
        subst (λ n. le_value (timestamp w) < 256 ^ n) l b

    new_timestamp :
        le_value (take 4 (drop timestamp_offset new_blob))
        ≡ fresh_timestamp now (le_value (timestamp w))
    new_timestamp =
        timestamp_of_refreshed w (fresh_timestamp now (le_value (timestamp w))) size
          (fresh_timestamp-lt now (le_value (timestamp w)) in_range)

    refreshed_facts : (length new_blob ≡ getwork_data_len) × (eq_bytes w.data_blob new_blob ≢ true)
    unfolding timestamp
    refreshed_facts = (
      length-refresh_timestamp w (fresh_timestamp now (le_value (timestamp w))) ∙ size,
      λ e. fresh_timestamp-ne now (le_value (timestamp w)) old_fits (
          sym new_timestamp
          ∙ sym (
              ap (λ b. le_value (take 4 (drop timestamp_offset b)))
                (eq_bytes→eq w.data_blob new_blob e))),
    )

    refresh-Installed : Installed s.work_mgr new_blob reason_new_votes → Refreshed now w s
    unfolding refresh_work current_work broadcast_work broadcast timestamp
    refresh-Installed i = record {
      after = broadcast (work_notification i.work false) (record s { work_mgr = i.after });
      work = i.work;
      result = simp (h, i.result, i.is_current);
      refreshed = i.keeps_blob;
      stamped = ap (λ b. le_value (take 4 (drop timestamp_offset b))) i.keeps_blob ∙ new_timestamp;
      numbered = i.numbered;
      is_current = i.is_current;
      is_found = i.is_found;
      registry = i.registry;
      told = refl;
      same_calls = refl;
      same_shares = refl;
    }

    -- On a well-formed registry with room for a job, while the numbers do not wrap and with the
    -- clock within 32 bits, a refresh of the current work never fails: it files a new job with the
    -- clock's timestamp, or the old one plus a second where the clock is not past it, makes it
    -- current, sends it to every client, and counts nothing.
    pub refresh_work_lem : Refreshed now w s
    refresh_work_lem = elim (set_current_lem s.work_mgr new_blob reason_new_votes reg pos fits) [
      | inl (dup, _) ↦ absurd (refreshed_facts.1 (sym (ap (λ o. is_duplicate o new_blob) h) ∙ dup))
      | inr (inl (_, ne, _)) ↦ absurd (ne refreshed_facts.0)
      | inr (inr i) ↦ refresh-Installed i
    ]

  -- On a well-formed registry with room for a job, while the numbers do not wrap, `ProcessWork`
  -- never fails, and exactly one of three things happens. Data for the current template sends the
  -- clients that template again. Other data of a wrong size uses up a number and sends them the
  -- current template, if there is one. All data that is neither becomes the current job and goes to
  -- every client, with the clean flag exactly for a new parent.
  pub process_work_lem :
      (blob reason : Bytes)
      → ((is_duplicate s.work_mgr.current blob ≡ true)
          × (process_work blob reason s ≡ ok (broadcast_work s)))
        ⊎ ((is_duplicate s.work_mgr.current blob ≡ false)
            × (length blob ≢ getwork_data_len)
            × (process_work blob reason s
                ≡ ok (
                    broadcast_work
                      (record s { work_mgr = record s.work_mgr { seq = s.work_mgr.seq + 1 } }))))
        ⊎ ((i : Installed s.work_mgr blob reason) × (process_work blob reason s
              ≡ ok (
                  broadcast
                    (work_notification i.work (eq_bytes reason reason_new_parent))
                    (record s { work_mgr = i.after }))))
  unfolding process_work broadcast_work current_work
  process_work_lem blob reason = elim (set_current_lem s.work_mgr blob reason reg pos fits) [
    | inl (dup, e) ↦ inl (dup, simp e)
    | inr (inl (fresh, ne, e)) ↦ inr (inl (fresh, ne, simp e))
    | inr (inr i) ↦ inr (inr (i, simp (i.result)))
  ]
