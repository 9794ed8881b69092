-- ===== src/Jobs/Failures.antt =====
-- `fail`: retries with backoff, then the dead-letter state.
use omni_desk_ai.Shared.{
  ℕ, ◌+◌, ◌≤◌, ◌<◌, ◌≡◌, ◌≢◌, refl, String, some, List, [], ◌∷◌, arith, length,
}
use omni_desk_ai.Shared.Table.{find, find-update_found}
use omni_desk_ai.Shared.Text.{cut}
use omni_desk_ai.Jobs.Defs.{retry, dead_letter, Job, JobQueue, job_id, retry_row, fail}

-- `fail` once for each attempt, at its time and with its error
unfoldable pub fail_all : List (ℕ × String) → String → JobQueue → JobQueue
fail_all [] id q = q
fail_all ((now, error) ∷ rest) id q = fail_all rest id (fail now id error q).1

module _ (now : ℕ) (id error : String) (q : JobQueue) {row : Job}
    (e : find job_id id q.jobs ≡ some row) where
  -- The row that `fail` leaves, which its reply describes.
  pub find-fail :
      find job_id id (fail now id error q).1.jobs
      ≡ some (retry_row now q.base_retry_seconds (cut 4000 error) (cut 4000 error) row row)
  unfolding fail
  find-fail =
      rw (e, fail)
        (find-update_found job_id id
          (retry_row now q.base_retry_seconds (cut 4000 error) (cut 4000 error) row) q.jobs
          (λ j. ground arith) e)

-- Of the job `id`, after some failed attempts.
pub record HasFailed (attempts : ℕ) (row row' : Job) : Type 0 where
  pub counted : row'.retry_count ≡ row.retry_count + attempts
  pub limit_kept : row'.max_retries ≡ row.max_retries
  pub exhausted : row.max_retries < row.retry_count + attempts → row'.status ≡ dead_letter
  pub retried : row.retry_count + attempts ≤ row.max_retries → row'.status ≡ retry

-- After one or more failed attempts, at any times and with any errors, the job's retry count has
-- grown by their number; it is in the dead-letter state exactly if that passes its limit, and else
-- it waits for a retry.
pub fail_all-HasFailed :
    (attempts : List (ℕ × String)) (id : String) (q : JobQueue) {row : Job}
    → attempts ≢ []
    → find job_id id q.jobs ≡ some row
    → (row' : Job) × (find job_id id (fail_all attempts id q).jobs ≡ some row')
      × HasFailed (length attempts) row row'
unfolding fail_all
fail_all-HasFailed [] id q n e = absurd (n refl)
fail_all-HasFailed ((now, error) ∷ []) id q {row} n e = (
  retry_row now q.base_retry_seconds (cut 4000 error) (cut 4000 error) row row,
  find-fail now id error q e,
  ground arith,
)
fail_all-HasFailed ((now, error) ∷ a ∷ rest) id q {row} n e =
    let (row', found, h) =
      fail_all-HasFailed (a ∷ rest) id (fail now id error q).1 (λ p. cc)
        (find-fail now id error q e) in
    (row', found, ground arith)
