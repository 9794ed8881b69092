-- ===== src/Postgres/Jobs/History.antt =====
-- Sequences of calls on the job queue over Postgres, and the same calls on the one over SQLite.
use omni_desk_ai.Shared.{
  ℕ, ◌<◌, ◌≡◌, ap, String, Bool, true, false, Option, none, List, arith, All, Option-cases, inl,
  inr,
}
use omni_desk_ai.Shared.Trace.{trace, trace-trace}
use omni_desk_ai.Shared.Text.{cut}
use omni_desk_ai.Shared.Table.{find, oldest, All-update, All-append, All-delete}
use omni_desk_ai.Jobs.{
  Job, JobQueue, ChannelMessage, job_id, job_created_at, eligible, claim_row, claim_next,
  complete_row, retry_row, complete, fail, requeue_row, requeue_dead_letter, is_purged,
  purge_dead_letter, insert_job, enqueue,
}
use omni_desk_ai.Jobs.Invariant.{IsValid}
use omni_desk_ai.Jobs.History.{
  JobCall, enqueue_call, claim_call, recover_call, complete_call, fail_call, requeue_call,
  purge_call, step, step-IsValid,
}
use omni_desk_ai.Postgres.Jobs.{
  pg_enqueue, pg_claim_next, pg_fail, pg_complete, pg_requeue_dead_letter, pg_purge_dead_letter,
  pg_recover_stale_running,
}
use omni_desk_ai.Postgres.Jobs.Agree.{
  pg_enqueue-enqueue, pg_claim_next-claim_next, pg_complete-complete, pg_requeue-requeue,
  pg_fail-fail, pg_purge-purge,
}

abbrev pub is_recovery : JobCall → Bool
is_recovery (recover_call _ _) = true
is_recovery _ = false

-- The retry limits of the queue and of its rows are above 0.
abbrev pub IsLimited : Job → Type 0
IsLimited j = 0 < j.max_retries

pub record HasRetries (q : JobQueue) : Type 0 where
  pub queue : 0 < q.max_retries
  pub rows : All IsLimited q.jobs

claim_next-HasRetries : (now : ℕ) (q : JobQueue) → HasRetries q → HasRetries (claim_next now q).1
unfolding claim_next
claim_next-HasRetries now q h = elim (Option-cases (oldest job_created_at (eligible now) q.jobs)) [
  | inl e ↦ rw (claim_next, e) h
  | inr (r, e) ↦
      rw (claim_next, e)
        (record {
          queue = h.queue;
          rows = All-update job_id IsLimited r.id (claim_row now) q.jobs (λ _ _ k. k) h.rows;
        })
]

fail-HasRetries :
    (now : ℕ) (id error : String) (q : JobQueue) → HasRetries q → HasRetries (fail now id error q).1
unfolding fail
fail-HasRetries now id error q h = elim (Option-cases (find job_id id q.jobs)) [
  | inl e ↦ rw (fail, e) h
  | inr (r, e) ↦
      let f = retry_row now q.base_retry_seconds (cut 4000 error) (cut 4000 error) r in
      rw (fail, e)
        (record {
          queue = h.queue;
          rows =
              All-update job_id IsLimited id f q.jobs (λ j _ (k : 0 < j.max_retries). ground arith)
                h.rows;
        })
]

requeue-HasRetries :
    (now : ℕ) (id : String) (q : JobQueue)
    → HasRetries q
    → HasRetries (requeue_dead_letter now id q).1
unfolding requeue_dead_letter
requeue-HasRetries now id q h =
    ground (arith, All-update job_id IsLimited id (requeue_row now) q.jobs (λ _ _ k. k) h.rows)

purge-HasRetries :
    (id : String) (q : JobQueue) → HasRetries q → HasRetries (purge_dead_letter id q).1
unfolding purge_dead_letter
purge-HasRetries id q h = ground (arith, All-delete IsLimited (is_purged id) q.jobs h.rows)

insert_job-HasRetries :
    (j : Job) (q : JobQueue) → 0 < j.max_retries → HasRetries q → HasRetries (insert_job j q).1
unfolding insert_job
insert_job-HasRetries j q p h = ground (arith, All-append IsLimited q.jobs j h.rows)

module _ (sha256 : String → String) (to_json : ChannelMessage → String) where
  unfoldable pub pg_step : JobCall → JobQueue → Option Job × JobQueue
  unfolding pg_enqueue
  pg_step (enqueue_call now id source m) q = (none, (pg_enqueue sha256 to_json now id source m q).1)
  pg_step (claim_call now) q = pg_claim_next now q
  pg_step (recover_call now lease) q = (none, (pg_recover_stale_running now lease q).1)
  pg_step (complete_call now id result) q = (none, (pg_complete now id result q).1)
  pg_step (fail_call now id error) q = (none, (pg_fail now id error q).1)
  pg_step (requeue_call now id) q = (none, (pg_requeue_dead_letter now id q).1)
  pg_step (purge_call id) q = (none, (pg_purge_dead_letter id q).1)

  step-HasRetries :
      (c : JobCall) (q : JobQueue)
      → is_recovery c ≡ false
      → HasRetries q
      → HasRetries (step sha256 to_json c q).1
  unfolding step enqueue complete
  step-HasRetries (enqueue_call now id source m) q n h = insert_job-HasRetries _ q h.queue h
  step-HasRetries (claim_call now) q n h = claim_next-HasRetries now q h
  step-HasRetries (recover_call now lease) q n h = ground arith
  step-HasRetries (complete_call now id result) q n h = record {
    queue = h.queue;
    rows = All-update job_id IsLimited id (complete_row now result) q.jobs (λ _ _ k. k) h.rows;
  }
  step-HasRetries (fail_call now id error) q n h = fail-HasRetries now id error q h
  step-HasRetries (requeue_call now id) q n h = requeue-HasRetries now id q h
  step-HasRetries (purge_call id) q n h = purge-HasRetries id q h

  pg_step-step :
      (c : JobCall) (q : JobQueue)
      → is_recovery c ≡ false
      → IsValid q
      → HasRetries q
      → pg_step c q ≡ step sha256 to_json c q
  unfolding pg_step step
  pg_step-step (enqueue_call now id source m) q n v h =
      ap (λ x. (none, x)) (pg_enqueue-enqueue sha256 to_json now id source m q)
  pg_step-step (claim_call now) q n v h = pg_claim_next-claim_next now q v.ids
  pg_step-step (recover_call now lease) q n v h = ground arith
  pg_step-step (complete_call now id result) q n v h =
      ap (λ x. (none, x)) (pg_complete-complete now id result q v.ids)
  pg_step-step (fail_call now id error) q n v h =
      ap (λ x. (none, x.1)) (pg_fail-fail now id error q v.ids h.rows)
  pg_step-step (requeue_call now id) q n v h =
      ap (λ x. (none, x.1)) (pg_requeue-requeue now id q v.ids)
  pg_step-step (purge_call id) q n v h = ap (λ x. (none, x.1)) (pg_purge-purge id q v.ids)

  -- what holds of the calls and the queue on the way
  record IsOnWay (cs : List JobCall) (q : JobQueue) : Type 0 where
    common : All (λ c. is_recovery c ≡ false) cs
    valid : IsValid q
    retries : HasRetries q

  -- On a valid queue whose retry limits are above 0, the queues over Postgres and over SQLite hand
  -- the same jobs to workers, and hold the same rows at the end, over any calls but
  -- recover_stale_running.
  pub jobs_agree :
      (cs : List JobCall) (q : JobQueue)
      → All (λ c. is_recovery c ≡ false) cs
      → IsValid q
      → HasRetries q
      → trace pg_step cs q ≡ trace (step sha256 to_json) cs q
  jobs_agree cs q n v h =
      trace-trace pg_step (step sha256 to_json) IsOnWay
        (λ c rest u w. (
          pg_step-step c u w.common.0 w.valid w.retries,
          record {
            common = w.common.1;
            valid = step-IsValid sha256 to_json c u w.valid;
            retries = step-HasRetries c u w.common.0 w.retries;
          },
        ))
        cs q (record { common = n; valid = v; retries = h })
