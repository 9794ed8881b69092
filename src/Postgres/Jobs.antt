-- ===== src/Postgres/Jobs.antt =====
-- omnidesk_agent/repositories/postgres_state.py: `PostgresJobQueue`, over the rows of `JobQueue`.
pub mod Agree
pub mod History
use omni_desk_ai.Shared.{
  ℕ, ◌+◌, String, Bool, true, false, ◌&&◌, Option, none, some, List, [], ◌∷◌, ltb, if◌then◌else◌,
  Result, ok, err,
}
use omni_desk_ai.Shared.Text.{◌+++◌, cut, decimal}
use omni_desk_ai.Shared.Table.{find}
use omni_desk_ai.Jobs.{
  Status, dead_letter, pending, Job, JobQueue, JobError, key_error, not_dead_letter, Enqueued,
  ChannelMessage, job_id, job_dedupe_key, job_created_at, is_running, is_dead_letter, dedupe_key_of,
  source_of, new_job, eligible, claim_row, lease_over, retry_row, complete_row, Failed, requeue_row,
  same_status, has_status,
}
use omni_desk_ai.Postgres.State.{
  insert_once, delete_key, update_locked_by_field, claim_ready_by_status, list_rows, or_number,
}

abbrev pub with_jobs : List Job → JobQueue → JobQueue
with_jobs jobs q = record q { jobs = jobs }

-- A dedupe key that exists is found first, so the unique index is not hit in one step.
unfoldable pub pg_enqueue :
    (String → String)
    → (ChannelMessage → String)
    → ℕ
    → String
    → Option String
    → ChannelMessage
    → JobQueue
    → Enqueued × JobQueue
pg_enqueue sha256 to_json now id source_key m q =
    let source = source_of source_key m in
    let payload = to_json m in
    let key = dedupe_key_of sha256 m.channel source m.message_id payload in
    elim (find job_dedupe_key key q.jobs) [
      | some row ↦ (record { job_id = row.id; created = false; dedupe_key = key }, q)
      | none ↦
          let (created, t) =
            insert_once job_id (new_job now id key source m payload q.max_retries) q.jobs in
          (record { job_id = id; created = created; dedupe_key = key }, with_jobs t q)
    ]

unfoldable pub pg_claim_next : ℕ → JobQueue → Option Job × JobQueue
pg_claim_next now q =
    let (r, t) =
      claim_ready_by_status job_id job_created_at (eligible now) (claim_row now) q.jobs in
    (r, with_jobs t q)

-- the row that `fail` writes: a retry limit of 0 counts as the queue's
unfoldable pub pg_failed_row : ℕ → JobQueue → String → Job → Job
pg_failed_row now q error row =
    let e = cut 4000 error in
    retry_row now q.base_retry_seconds e e
      (record row { max_retries = or_number row.max_retries q.max_retries }) row

abbrev pub failed_of : Job → Failed
failed_of j = record {
  status = j.status;
  retry_count = j.retry_count;
  next_retry_at = j.next_retry_at;
}

abbrev pub reply_failed : Result JobError Job → Result JobError Failed
reply_failed (ok j) = ok (failed_of j)
reply_failed (err e) = err e

unfoldable pub pg_fail : ℕ → String → String → JobQueue → Result JobError Failed × JobQueue
unfolding pg_failed_row
pg_fail now id error q =
    let (r, t) =
      update_locked_by_field job_id (key_error id) job_id id
        (λ row. ok (pg_failed_row now q error row)) q.jobs in
    (reply_failed r, with_jobs t q)

abbrev pub replied : {A : Type 0} → A → Result JobError Job → Result JobError A
replied a (ok _) = ok a
replied a (err e) = err e

-- a job that does not exist raises here
unfoldable pub pg_complete : ℕ → String → String → JobQueue → Result JobError (Unit {0}) × JobQueue
pg_complete now id result q =
    let (r, t) =
      update_locked_by_field job_id (key_error id) job_id id
        (λ row. ok (complete_row now result row)) q.jobs in
    (replied tt r, with_jobs t q)

abbrev pub requeued : ℕ → String → Job → Result JobError Job
requeued now id row =
    if is_dead_letter row.status then ok (requeue_row now row) else err (not_dead_letter id)

unfoldable pub pg_requeue_dead_letter : ℕ → String → JobQueue → Result JobError Status × JobQueue
pg_requeue_dead_letter now id q =
    let (r, t) = update_locked_by_field job_id (key_error id) job_id id (requeued now id) q.jobs in
    (replied pending r, with_jobs t q)

-- the SELECT and the DELETE are two transactions
unfoldable pub pg_purge_dead_letter : String → JobQueue → Result JobError Bool × JobQueue
pg_purge_dead_letter id q = elim (find job_id id q.jobs) [
  | none ↦ (err (key_error id), q)
  | some row ↦
      if is_dead_letter row.status
      then (ok true, with_jobs (delete_key job_id id q.jobs) q)
      else (err (not_dead_letter id), q)
]

abbrev pub stale_error : ℕ → String
stale_error lease = "stale running job recovered after " +++ decimal lease +++ "s lease"

-- the loop of `recover_stale_running` over the rows that were listed
unfoldable pub pg_recover_rows : ℕ → ℕ → List Job → JobQueue → ℕ × JobQueue
unfolding pg_fail
pg_recover_rows now lease [] q = (0, q)
pg_recover_rows now lease (row ∷ rows) q =
    let over = lease_over now lease row.locked_at in
    let (n, q') =
      pg_recover_rows now lease rows
        (if over then (pg_fail now row.id (stale_error lease) q).1 else q) in
    (if over then n + 1 else n, q')

unfoldable pub pg_recover_stale_running : ℕ → ℕ → JobQueue → ℕ × JobQueue
unfolding pg_recover_rows
pg_recover_stale_running now lease q =
    pg_recover_rows now lease (list_rows job_created_at (λ j. is_running j.status) 1000 q.jobs) q

unfoldable pub pg_list_jobs : Option Status → ℕ → JobQueue → List Job
pg_list_jobs status n q = list_rows job_created_at (has_status status) n q.jobs
