-- ===== src/Jobs/Invariant.antt =====
-- What holds of the queue between two calls, and that every method keeps it.
use omni_desk_ai.Shared.{
  ℕ, ◌≤◌, ◌<◌, ◌≡◌, refl, String, some, List, [], ◌∷◌, true, arith, Option-cases, inl, inr, All,
  is_some,
}
use omni_desk_ai.Shared.Text.{cut, ◌+++◌}
use omni_desk_ai.Shared.Table.{
  find, update, oldest, IsUnique, IsCurrent, All-find, All-update, All-update_found, All-append,
  All-delete, IsUnique-update, IsUnique-delete, IsUnique-append, IsUnique-select, IsCurrent-select,
  IsCurrent-update, oldest-IsSelected, find-oldest,
}
use omni_desk_ai.Shared.Backoff.{retry_at}
use omni_desk_ai.Jobs.Defs.{
  pending, running, retry, dead_letter, Job, JobQueue, job_id, job_dedupe_key, job_created_at,
  is_running, eligible, claim_row, claim_next, is_stale, stale_error, retry_row, recover_row,
  recover_rows, stale_rows, recover_stale_running, complete_row, complete, fail, insert_job,
  new_job, ChannelMessage,
}
use omni_desk_ai.Jobs.Admin.{requeue_row, requeue_dead_letter, is_purged, purge_dead_letter}

-- The columns of a row agree with its status.
pub record IsValidRow (base : ℕ) (j : Job) : Type 0 where
  pub pending_fresh : j.status ≡ pending → (j.retry_count ≡ 0) × (j.next_retry_at ≡ 0)
  pub retry_within : j.status ≡ retry → (1 ≤ j.retry_count) × (j.retry_count ≤ j.max_retries)
  pub retry_backoff : j.status ≡ retry → j.next_retry_at ≡ retry_at j.updated_at base j.retry_count
  pub running_within : j.status ≡ running → j.retry_count ≤ j.max_retries
  pub dead_exhausted : j.status ≡ dead_letter → j.max_retries < j.retry_count
  pub locked_running : is_some j.locked_at ≡ is_running j.status

pub record IsValid (q : JobQueue) : Type 0 where
  pub rows : All (IsValidRow q.base_retry_seconds) q.jobs
  pub ids : IsUnique job_id q.jobs
  pub keys : IsUnique job_dedupe_key q.jobs

pub insert_job-IsValid :
    (j : Job) (q : JobQueue)
    → IsValidRow q.base_retry_seconds j
    → IsValid q
    → IsValid (insert_job j q).1
unfolding insert_job
insert_job-IsValid j q r v = ground (
  arith,
  All-append (IsValidRow q.base_retry_seconds) q.jobs j v.rows r,
  IsUnique-append job_id q.jobs j v.ids,
  IsUnique-append job_dedupe_key q.jobs j v.keys,
)

pub new_job-IsValidRow :
    (now base max_retries : ℕ) (id key source payload : String) (m : ChannelMessage)
    → IsValidRow base (new_job now id key source m payload max_retries)
new_job-IsValidRow now base max_retries id key source payload m = ground arith

-- An UPDATE by id that writes neither key keeps the invariant if it does so at the row it finds.
update-IsValid :
    (q : JobQueue) (id : String) (f : Job → Job) {row : Job}
    → ((j : Job) → (f j).id ≡ j.id)
    → ((j : Job) → (f j).dedupe_key ≡ j.dedupe_key)
    → IsValid q
    → find job_id id q.jobs ≡ some row
    → IsValidRow q.base_retry_seconds (f row)
    → IsValid (record q { jobs = update job_id id f q.jobs })
update-IsValid q id f keep_id keep_key v e r = record {
  rows = All-update_found job_id (IsValidRow q.base_retry_seconds) id f q.jobs v.ids e v.rows r;
  ids = IsUnique-update job_id job_id id f q.jobs keep_id v.ids;
  keys = IsUnique-update job_id job_dedupe_key id f q.jobs keep_key v.keys;
}

claim_row-IsValidRow :
    (now base : ℕ) (j : Job)
    → eligible now j ≡ true
    → IsValidRow base j
    → IsValidRow base (claim_row now j)
claim_row-IsValidRow now base j e v = ground arith

-- The row that a claim selects is found by its id, is eligible and is valid.
pub claimed_row :
    (now : ℕ) (q : JobQueue) {row : Job}
    → IsValid q
    → oldest job_created_at (eligible now) q.jobs ≡ some row
    → (find job_id row.id q.jobs ≡ some row)
      × (eligible now row ≡ true)
      × IsValidRow q.base_retry_seconds row
claimed_row now q {row} v e =
    let found = find-oldest job_id job_created_at (eligible now) q.jobs v.ids e in
    (
      found,
      (oldest-IsSelected job_created_at (eligible now) q.jobs e).passes,
      All-find job_id (IsValidRow q.base_retry_seconds) row.id q.jobs v.rows found,
    )

pub claim_next-IsValid : (now : ℕ) (q : JobQueue) → IsValid q → IsValid (claim_next now q).1
unfolding claim_next
claim_next-IsValid now q v = elim (Option-cases (oldest job_created_at (eligible now) q.jobs)) [
  | inl e ↦ rw (e, claim_next) v
  | inr (row, e) ↦
      let (found, may, valid) = claimed_row now q v e in
      rw (e, claim_next)
        (update-IsValid q row.id (claim_row now) (λ j. refl) (λ j. refl) v found
          (claim_row-IsValidRow now q.base_retry_seconds row may valid))
]

module _ (now base : ℕ) (retry_error dead_error : String) (row : Job) where
  retry_row-IsValidRow : IsValidRow base (retry_row now base retry_error dead_error row row)
  retry_row-IsValidRow = ground arith

  id-retry_row : (j : Job) → (retry_row now base retry_error dead_error row j).id ≡ j.id
  id-retry_row j = ground arith

  dedupe_key-retry_row :
      (j : Job) → (retry_row now base retry_error dead_error row j).dedupe_key ≡ j.dedupe_key
  dedupe_key-retry_row j = ground arith

pub fail-IsValid :
    (now : ℕ) (id error : String) (q : JobQueue) → IsValid q → IsValid (fail now id error q).1
unfolding fail
fail-IsValid now id error q v = elim (Option-cases (find job_id id q.jobs)) [
  | inl e ↦ rw (e, fail) v
  | inr (row, e) ↦
      let t = cut 4000 error in
      let base = q.base_retry_seconds in
      rw (e, fail)
        (update-IsValid q id (retry_row now base t t row) (id-retry_row now base t t row)
          (dedupe_key-retry_row now base t t row) v e (retry_row-IsValidRow now base t t row))
]

pub requeue_dead_letter-IsValid :
    (now : ℕ) (id : String) (q : JobQueue) → IsValid q → IsValid (requeue_dead_letter now id q).1
unfolding requeue_dead_letter
requeue_dead_letter-IsValid now id q v = elim (Option-cases (find job_id id q.jobs)) [
  | inl e ↦ rw (e, requeue_dead_letter) v
  | inr (row, e) ↦
      rw (e, requeue_dead_letter)
        (ground
          (arith, update-IsValid q id (requeue_row now) (λ j. refl) (λ j. refl) v e (ground arith)))
]

pub purge_dead_letter-IsValid :
    (id : String) (q : JobQueue) → IsValid q → IsValid (purge_dead_letter id q).1
unfolding purge_dead_letter
purge_dead_letter-IsValid id q v = ground (
  arith,
  All-delete (IsValidRow q.base_retry_seconds) (is_purged id) q.jobs v.rows,
  IsUnique-delete job_id (is_purged id) q.jobs v.ids,
  IsUnique-delete job_dedupe_key (is_purged id) q.jobs v.keys,
)

pub complete-IsValid :
    (now : ℕ) (id result : String) (q : JobQueue) → IsValid q → IsValid (complete now id result q)
unfolding complete
complete-IsValid now id result q v = record {
  rows =
      All-update job_id (IsValidRow q.base_retry_seconds) id (complete_row now result) q.jobs
        (λ j _ _. ground arith) v.rows;
  ids = IsUnique-update job_id job_id id (complete_row now result) q.jobs (λ j. refl) v.ids;
  keys =
      IsUnique-update job_id job_dedupe_key id (complete_row now result) q.jobs (λ j. refl) v.keys;
}

-- While the loop of `recover_stale_running` runs, the rows still to come are as they were selected.
recover_rows-IsValid :
    (now lease : ℕ) (rows : List Job) (q : JobQueue)
    → IsValid q
    → IsUnique job_id rows
    → IsCurrent job_id q.jobs rows
    → IsValid (record q { jobs = recover_rows now q.base_retry_seconds lease rows q.jobs })
unfolding recover_rows recover_row
recover_rows-IsValid now lease [] q v u c = v
recover_rows-IsValid now lease (row ∷ rows) q v u c =
    let t = stale_error lease in
    let d = t +++ " and moved to dead_letter" in
    let base = q.base_retry_seconds in
    let f = retry_row now base t d row in
    recover_rows-IsValid now lease rows (record q { jobs = update job_id row.id f q.jobs })
      (update-IsValid q row.id f (id-retry_row now base t d row)
        (dedupe_key-retry_row now base t d row) v c.0 (retry_row-IsValidRow now base t d row))
      u.1 (IsCurrent-update job_id row.id f q.jobs rows (id-retry_row now base t d row) u.0 c.1)

pub recover_stale_running-IsValid :
    (now lease : ℕ) (q : JobQueue) → IsValid q → IsValid (recover_stale_running now lease q).1
unfolding recover_stale_running
recover_stale_running-IsValid now lease q v =
    recover_rows-IsValid now lease (stale_rows now lease q.jobs) q v
      (IsUnique-select job_id (is_stale now lease) q.jobs v.ids)
      (IsCurrent-select job_id (is_stale now lease) q.jobs v.ids)
