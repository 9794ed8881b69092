-- ===== src/Jobs/History.antt =====
-- Sequences of calls on the queue, by any number of webhooks, workers and operators.
use omni_desk_ai.Shared.{ℕ, String, Option, none, List, [], ◌∷◌}
use omni_desk_ai.Jobs.Defs.{
  Job, JobQueue, ChannelMessage, enqueue, claim_next, recover_stale_running, complete, fail,
}
use omni_desk_ai.Jobs.Admin.{requeue_dead_letter, purge_dead_letter}
use omni_desk_ai.Jobs.Invariant.{
  IsValid, new_job-IsValidRow, insert_job-IsValid, claim_next-IsValid,
  recover_stale_running-IsValid, complete-IsValid, fail-IsValid, requeue_dead_letter-IsValid,
  purge_dead_letter-IsValid,
}

-- One call of a method that can write, with the clock and the uuid that it reads.
pub data JobCall : Type 0 where
  enqueue_call : ℕ → String → Option String → ChannelMessage → JobCall
  claim_call : ℕ → JobCall
  recover_call : ℕ → ℕ → JobCall
  complete_call : ℕ → String → String → JobCall
  fail_call : ℕ → String → String → JobCall
  requeue_call : ℕ → String → JobCall
  purge_call : String → JobCall

module _ (sha256 : String → String) (to_json : ChannelMessage → String) where
  -- The job that the call hands to a worker, and the queue after it.
  unfoldable pub step : JobCall → JobQueue → Option Job × JobQueue
  step (enqueue_call now id source m) q = (none, (enqueue sha256 to_json now id source m q).1)
  step (claim_call now) q = claim_next now q
  step (recover_call now lease) q = (none, (recover_stale_running now lease q).1)
  step (complete_call now id result) q = (none, complete now id result q)
  step (fail_call now id error) q = (none, (fail now id error q).1)
  step (requeue_call now id) q = (none, (requeue_dead_letter now id q).1)
  step (purge_call id) q = (none, (purge_dead_letter id q).1)

  unfoldable pub run : List JobCall → JobQueue → JobQueue
  run [] q = q
  run (c ∷ cs) q = run cs (step c q).1

  pub step-IsValid : (c : JobCall) (q : JobQueue) → IsValid q → IsValid (step c q).1
  unfolding step enqueue
  step-IsValid (enqueue_call now id source m) q v =
      insert_job-IsValid _ q (new_job-IsValidRow now _ _ _ _ _ _ m) v
  step-IsValid (claim_call now) q v = claim_next-IsValid now q v
  step-IsValid (recover_call now lease) q v = recover_stale_running-IsValid now lease q v
  step-IsValid (complete_call now id result) q v = complete-IsValid now id result q v
  step-IsValid (fail_call now id error) q v = fail-IsValid now id error q v
  step-IsValid (requeue_call now id) q v = requeue_dead_letter-IsValid now id q v
  step-IsValid (purge_call id) q v = purge_dead_letter-IsValid id q v

  -- After any sequence of calls on a valid queue the ids and the dedupe keys are unique, and each
  -- row's retry count, retry time and lock agree with its status.
  pub run-IsValid : (cs : List JobCall) (q : JobQueue) → IsValid q → IsValid (run cs q)
  unfolding run
  run-IsValid [] q v = v
  run-IsValid (c ∷ cs) q v = run-IsValid cs (step c q).1 (step-IsValid c q v)
