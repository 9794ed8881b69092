-- ===== src/Jobs/Admin.antt =====
-- The methods of `JobQueue` on dead letters, its listings and its counts.
use omni_desk_ai.Shared.{
  ℕ, String, Bool, true, false, ◌&&◌, Option, none, some, List, ◌==◌, ltb, if◌then◌else◌, Result,
  ok, err,
}
use Prim.Native.Nat.{min, max}
use omni_desk_ai.Shared.Table.{find, update, delete, select, count, newest_first, limit}
use omni_desk_ai.Jobs.Defs.{
  Status, pending, running, retry, completed, dead_letter, Job, JobQueue, JobError, key_error,
  not_dead_letter, job_id, job_created_at, is_dead_letter,
}

abbrev pub requeue_row : ℕ → Job → Job
requeue_row now j = record j {
  status = pending;
  retry_count = 0;
  next_retry_at = 0;
  locked_at = none;
  updated_at = now;
  last_error = none;
}

unfoldable pub requeue_dead_letter : ℕ → String → JobQueue → Result JobError Status × JobQueue
requeue_dead_letter now id q = elim (find job_id id q.jobs) [
  | none ↦ (err (key_error id), q)
  | some row ↦
      if is_dead_letter row.status
      then (ok pending, record q { jobs = update job_id id (requeue_row now) q.jobs })
      else (err (not_dead_letter id), q)
]

-- the WHERE clause of `purge_dead_letter`
abbrev pub is_purged : String → Job → Bool
is_purged id j = j.id == id && is_dead_letter j.status

-- `cur.rowcount` is the number of rows that the DELETE matched
unfoldable pub purge_dead_letter : String → JobQueue → Result JobError Bool × JobQueue
purge_dead_letter id q =
    if ltb 0 (count (is_purged id) q.jobs)
    then (ok true, record q { jobs = delete (is_purged id) q.jobs })
    else (
      elim (find job_id id q.jobs) [
        | none ↦ err (key_error id)
        | some _ ↦ err (not_dead_letter id)
      ],
      q,
    )

unfoldable pub get : String → JobQueue → Option Job
get id q = find job_id id q.jobs

abbrev pub same_status : Status → Status → Bool
same_status pending pending = true
same_status running running = true
same_status retry retry = true
same_status completed completed = true
same_status dead_letter dead_letter = true
same_status _ _ = false

abbrev pub has_status : Option Status → Job → Bool
has_status none j = true
has_status (some s) j = same_status j.status s

-- `list`; a limit below 1 counts as 1
unfoldable pub list_jobs : Option Status → ℕ → JobQueue → List Job
list_jobs status n q =
    limit (max 1 (min n 200)) (newest_first job_created_at (select (has_status status) q.jobs))

unfoldable pub list_dead_letters : ℕ → JobQueue → List Job
unfolding list_jobs
list_dead_letters = list_jobs (some dead_letter)

-- the number that `stats` reports for a status; a status that no row has is left out there
unfoldable pub stats : JobQueue → Status → ℕ
stats q s = count (has_status (some s)) q.jobs
