-- ===== src/Jobs/Recovery.antt =====
-- `recover_stale_running`: jobs whose worker died are given back.
use omni_desk_ai.Shared.{
  ℕ, ◌<◌, ◌≡◌, refl, ap, ◌∙◌, String, Bool, true, false, none, some, List, [], ◌∷◌, map, arith,
  Bool-cases, inl, inr, All, eq_iff, eq_refl, if◌then◌else◌, length,
}
use omni_desk_ai.Shared.Table.{
  find, update, select, count, IsUnique, update-none, find-select-none, find-update_found,
}
use omni_desk_ai.Shared.Text.{◌+++◌}
use omni_desk_ai.Jobs.Defs.{
  Job, JobQueue, retry, job_id, is_stale, stale_error, retry_row, recover_row, recover_rows,
  stale_rows, recover_stale_running, complete, complete_row,
}
use omni_desk_ai.Jobs.Invariant.{IsValid}

module _ (now base lease : ℕ) where
  -- what recovery makes of one row
  abbrev pub recovered : Job → Job
  recovered j =
      retry_row now base (stale_error lease) (stale_error lease +++ " and moved to dead_letter") j j

  -- the specification of the loop: every stale row is recovered, every other row is kept
  abbrev pub recover_each : Job → Job
  recover_each j = if is_stale now lease j then recovered j else j

  recover_rows-cons :
      (rows : List Job) (j : Job) (t : List Job)
      → find job_id j.id rows ≡ none
      → recover_rows now base lease rows (j ∷ t) ≡ j ∷ recover_rows now base lease rows t
  unfolding recover_rows recover_row find update
  recover_rows-cons [] j t n = refl
  recover_rows-cons (row ∷ rows) j t n = ground (
    arith,
    eq_iff row.id j.id,
    eq_iff j.id row.id,
    recover_rows-cons rows j (recover_row now base lease row t),
  )

  id-recovered : (j : Job) → (recovered j).id ≡ j.id
  id-recovered j = ground arith

  recover_rows_head :
      (rows : List Job) (j : Job) (t : List Job)
      → find job_id j.id rows ≡ none
      → find job_id j.id t ≡ none
      → recover_rows now base lease (j ∷ rows) (j ∷ t)
        ≡ recovered j ∷ recover_rows now base lease rows t
  unfolding recover_row
  recover_rows_head rows j t n m =
      unfold recover_rows update in
      (rw
        (
          eq_refl j.id,
          update-none job_id j.id
              (retry_row now base (stale_error lease)
                (stale_error lease +++ " and moved to dead_letter") j)
              t m,
        )
        (recover_rows-cons rows (recovered j) t (rw (id-recovered j) n)))

  recover_rows-eq-map :
      (t : List Job)
      → IsUnique job_id t
      → recover_rows now base lease (stale_rows now lease t) t ≡ map recover_each t
  unfolding stale_rows select
  recover_rows-eq-map [] u = unfold recover_rows in refl
  recover_rows-eq-map (j ∷ t) u = elim (Bool-cases (is_stale now lease j)) [
    | inl s ↦
        rw (s, select)
          (recover_rows_head (select (is_stale now lease) t) j t
              (find-select-none job_id (is_stale now lease) j.id t u.0) u.0
            ∙ ap (λ l. recovered j ∷ l) (recover_rows-eq-map t u.1))
    | inr s ↦
        rw (s, select)
          (recover_rows-cons (select (is_stale now lease) t) j t
              (find-select-none job_id (is_stale now lease) j.id t u.0)
            ∙ ap (λ l. j ∷ l) (recover_rows-eq-map t u.1))
  ]

  All-recover_each : (t : List Job) → All (λ j. is_stale now lease j ≡ false) (map recover_each t)
  All-recover_each [] = tt
  All-recover_each (j ∷ t) = (ground arith, All-recover_each t)

  find-recover_each_keeps :
      (id : String) (t : List Job) {row : Job}
      → find job_id id t ≡ some row
      → is_stale now lease row ≡ false
      → find job_id id (map recover_each t) ≡ some row
  unfolding find
  find-recover_each_keeps id [] e s = ground arith
  find-recover_each_keeps id (j ∷ t) {row} e s =
      ground (arith, eq_iff j.id id, find-recover_each_keeps id t {row = row})

length-select : (p : Job → Bool) (t : List Job) → length (select p t) ≡ count p t
unfolding select count
length-select p [] = refl
length-select p (j ∷ t) = ground (arith, length-select p t)

-- The loop of `recover_stale_running` does to every row at once what it does to each.
pub recover_stale_running-eq-map :
    (now lease : ℕ) (q : JobQueue)
    → IsValid q
    → recover_stale_running now lease q ≡ (
      count (is_stale now lease) q.jobs,
      record q { jobs = map (recover_each now q.base_retry_seconds lease) q.jobs },
    )
unfolding recover_stale_running
recover_stale_running-eq-map now lease q v = rw (
  recover_rows-eq-map now q.base_retry_seconds lease q.jobs v.ids,
  length-select (is_stale now lease) q.jobs,
)

-- After a recovery on a valid queue no job is running whose lease was over.
pub recover_stale_running_none_left :
    (now lease : ℕ) (q : JobQueue)
    → IsValid q
    → All (λ j. is_stale now lease j ≡ false) (recover_stale_running now lease q).1.jobs
recover_stale_running_none_left now lease q v =
    rw (recover_stale_running-eq-map now lease q v)
      (All-recover_each now q.base_retry_seconds lease q.jobs)

-- A recovery leaves a job alone whose lease is not over.
pub recover_stale_running_keeps :
    (now lease : ℕ) (q : JobQueue) (id : String) {row : Job}
    → IsValid q
    → find job_id id q.jobs ≡ some row
    → is_stale now lease row ≡ false
    → find job_id id (recover_stale_running now lease q).1.jobs ≡ some row
recover_stale_running_keeps now lease q id v e s =
    rw (recover_stale_running-eq-map now lease q v)
      (find-recover_each_keeps now q.base_retry_seconds lease id q.jobs e s)

-- The connection commits each statement by itself. If a job has retries left and the worker's
-- `complete` runs between the SELECT that found its lease over and the UPDATE of its row, the
-- UPDATE puts the completed job back to retry, so that it runs again.
pub recover_row_undoes_complete :
    (now done lease : ℕ) (result : String) (q : JobQueue) {row : Job}
    → find job_id row.id q.jobs ≡ some row
    → is_stale now lease row ≡ true
    → row.retry_count < row.max_retries
    → (row' : Job) × (find job_id row.id
          (recover_row now q.base_retry_seconds lease row (complete done row.id result q).jobs)
        ≡ some row')
      × (row'.status ≡ retry)
unfolding recover_row complete
recover_row_undoes_complete now done lease result q {row} e s h =
    let d = stale_error lease in
    let f = retry_row now q.base_retry_seconds d (d +++ " and moved to dead_letter") row in
    (
      f (complete_row done result row),
      find-update_found job_id row.id f (complete done row.id result q).jobs (λ j. ground arith)
          (find-update_found job_id row.id (complete_row done result) q.jobs (λ j. refl) e),
      ground arith,
    )
