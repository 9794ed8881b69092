-- ===== src/Jobs/Claims.antt =====
-- `claim_next`: which job a worker gets, and that nobody else gets it.
use omni_desk_ai.Shared.{
  ℕ, ◌+◌, ◌≤◌, ◌<◌, ◌∙◌, ◌≡◌, ◌≢◌, refl, String, true, false, Option, none, some, List, [], ◌∷◌,
  arith, Option-cases, inl, inr, All, eq_iff,
}
use omni_desk_ai.Shared.Table.{
  find, update, oldest, find-update, find-append, find-delete, find-update_ne, oldest-eq-none,
  oldest-IsSelected,
}
use omni_desk_ai.Jobs.Defs.{
  Job, JobQueue, ChannelMessage, running, job_id, job_created_at, eligible, claim_row, claim_next,
  insert_job, enqueue, complete, fail, recover_stale_running, complete_row, retry_row,
}
use omni_desk_ai.Jobs.Admin.{requeue_dead_letter, purge_dead_letter, is_purged, requeue_row}
use omni_desk_ai.Shared.Text.{cut}
use omni_desk_ai.Jobs.Recovery.{recover_stale_running_keeps}
use omni_desk_ai.Jobs.Invariant.{IsValid, claimed_row}
use omni_desk_ai.Jobs.History.{
  JobCall, enqueue_call, claim_call, recover_call, complete_call, fail_call, requeue_call,
  purge_call, step, run, step-IsValid,
}

-- What a call of `claim_next` did.
abbrev pub ClaimSpec : ℕ → JobQueue → Option Job × JobQueue → Type 0
ClaimSpec now q (none, q') = (q' ≡ q) × All (λ j. eligible now j ≡ false) q.jobs
ClaimSpec now q (some row, q') =
    (find job_id row.id q.jobs ≡ some row)
    × (eligible now row ≡ true)
    × All (λ j. eligible now j ≡ true → row.created_at ≤ j.created_at) q.jobs
    × (find job_id row.id q'.jobs ≡ some (claim_row now row))

-- On a valid queue a claim returns nothing, and changes nothing, only if no job is eligible: pending
-- or retry, with its retry time reached. Otherwise it returns an eligible job of the table, none
-- that is eligible is older, and that job is then running under a lock of the current time.
pub claim_next-ClaimSpec : (now : ℕ) (q : JobQueue) → IsValid q → ClaimSpec now q (claim_next now q)
unfolding claim_next
claim_next-ClaimSpec now q v = elim (Option-cases (oldest job_created_at (eligible now) q.jobs)) [
  | inl e ↦ rw (e, claim_next) (refl, oldest-eq-none job_created_at (eligible now) q.jobs e)
  | inr (row, e) ↦
      let (found, may, valid) = claimed_row now q v e in
      rw (e, claim_next)
        (
          found,
          may,
          (oldest-IsSelected job_created_at (eligible now) q.jobs e).minimal,
          rw (find-update job_id row.id row.id (claim_row now) q.jobs (λ j. refl), found)
              (ground (arith, eq_iff row.id row.id)),
        )
]

-- A worker holds the job `id` under a lock of the time `at`.
pub record IsHeld (id : String) (at : ℕ) (q : JobQueue) : Type 0 where
  pub row : Job
  pub found : find job_id id q.jobs ≡ some row
  pub held : row.status ≡ running
  pub locked : row.locked_at ≡ some at

-- The call is none of those that release the job `id`: its own `complete` or `fail`, or a recovery
-- when the lease of its lock is over.
abbrev pub Spares : String → ℕ → JobCall → Type 0
Spares id at (complete_call now i result) = i ≢ id
Spares id at (fail_call now i error) = i ≢ id
Spares id at (recover_call now lease) = now < at + lease
Spares id at _ = Unit

module _ (id : String) (at : ℕ) where
  -- an UPDATE of another job
  update-IsHeld :
      (i : String) (f : Job → Job) (q : JobQueue)
      → ((j : Job) → (f j).id ≡ j.id)
      → i ≢ id
      → IsHeld id at q
      → IsHeld id at (record q { jobs = update job_id i f q.jobs })
  update-IsHeld i f q keep n h = record {
    row = h.row;
    found = find-update_ne job_id i id f q.jobs keep n ∙ h.found;
    held = h.held;
    locked = h.locked;
  }

  insert_job-IsHeld : (j : Job) (q : JobQueue) → IsHeld id at q → IsHeld id at (insert_job j q).1
  unfolding insert_job
  insert_job-IsHeld j q h = record {
    row = h.row;
    found = ground (arith, h.found, find-append job_id id q.jobs j);
    held = h.held;
    locked = h.locked;
  }

  -- a claim finds its row eligible, so it is another
  claim_ne :
      (now : ℕ) (q : JobQueue) {row : Job}
      → IsHeld id at q
      → find job_id row.id q.jobs ≡ some row
      → eligible now row ≡ true
      → row.id ≢ id
  claim_ne now q {row} h found may e =
      let same : find job_id id q.jobs ≡ some row = rw (← e) found in
      ground (arith, h.found, h.held)

  claim_next-IsHeld :
      (now : ℕ) (q : JobQueue) → IsValid q → IsHeld id at q → IsHeld id at (claim_next now q).1
  unfolding claim_next
  claim_next-IsHeld now q v h = elim (Option-cases (oldest job_created_at (eligible now) q.jobs)) [
    | inl e ↦ rw (e, claim_next) h
    | inr (row, e) ↦
        let (found, may, valid) = claimed_row now q v e in
        rw (e, claim_next)
          (update-IsHeld row.id (claim_row now) q (λ j. refl) (claim_ne now q h found may) h)
  ]

  fail-IsHeld :
      (now : ℕ) (i error : String) (q : JobQueue)
      → i ≢ id
      → IsHeld id at q
      → IsHeld id at (fail now i error q).1
  unfolding fail
  fail-IsHeld now i error q n h = elim (Option-cases (find job_id i q.jobs)) [
    | inl e ↦ rw (e, fail) h
    | inr (row, e) ↦
        rw (e, fail)
          (update-IsHeld i
            (retry_row now q.base_retry_seconds (cut 4000 error) (cut 4000 error) row) q
            (λ j. ground arith) n h)
  ]

  -- neither an operator's requeue nor a purge takes a job that is running
  requeue-IsHeld :
      (now : ℕ) (i : String) (q : JobQueue)
      → IsHeld id at q
      → IsHeld id at (requeue_dead_letter now i q).1
  unfolding requeue_dead_letter
  requeue-IsHeld now i q h = record {
    row = h.row;
    found = ground (
      arith,
      h.found,
      h.held,
      find-update job_id i id (requeue_row now) q.jobs (λ j. refl),
      eq_iff i id,
    );
    held = h.held;
    locked = h.locked;
  }

  purge-IsHeld :
      (i : String) (q : JobQueue)
      → IsValid q
      → IsHeld id at q
      → IsHeld id at (purge_dead_letter i q).1
  unfolding purge_dead_letter
  purge-IsHeld i q v h = record {
    row = h.row;
    found = ground (arith, h.found, h.held, find-delete job_id (is_purged i) id q.jobs v.ids);
    held = h.held;
    locked = h.locked;
  }

  recover-IsHeld :
      (now lease : ℕ) (q : JobQueue)
      → now < at + lease
      → IsValid q
      → IsHeld id at q
      → IsHeld id at (recover_stale_running now lease q).1
  recover-IsHeld now lease q n v h = record {
    row = h.row;
    found = recover_stale_running_keeps now lease q id v h.found (ground (arith, h.locked));
    held = h.held;
    locked = h.locked;
  }

module _ (sha256 : String → String) (to_json : ChannelMessage → String) (id : String) (at : ℕ) where
  -- no call hands out a job that is held
  step_not_handed :
      (c : JobCall) (q : JobQueue) {row : Job}
      → IsValid q
      → IsHeld id at q
      → (step sha256 to_json c q).0 ≡ some row
      → row.id ≢ id
  unfolding step claim_next
  step_not_handed (claim_call now) q {row} v h e =
      let spec = claimed_row now q {row = row} v (ground arith) in
      claim_ne id at now q h spec.0 spec.1
  step_not_handed _ q v h e = ground arith

  step-IsHeld :
      (c : JobCall) (q : JobQueue)
      → Spares id at c
      → IsValid q
      → IsHeld id at q
      → IsHeld id at (step sha256 to_json c q).1
  unfolding step enqueue
  step-IsHeld (enqueue_call now i source m) q s v h = insert_job-IsHeld id at _ q h
  step-IsHeld (claim_call now) q s v h = claim_next-IsHeld id at now q v h
  step-IsHeld (recover_call now lease) q s v h = recover-IsHeld id at now lease q s v h
  step-IsHeld (complete_call now i result) q s v h =
      unfold complete in (update-IsHeld id at i (complete_row now result) q (λ j. refl) s h)
  step-IsHeld (fail_call now i error) q s v h = fail-IsHeld id at now i error q s h
  step-IsHeld (requeue_call now i) q s v h = requeue-IsHeld id at now i q h
  step-IsHeld (purge_call i) q s v h = purge-IsHeld id at i q v h

  -- the jobs that a sequence of calls hands out
  unfoldable pub handed_out : List JobCall → JobQueue → List (Option Job)
  handed_out [] q = []
  handed_out (c ∷ cs) q =
      let (o, q') = step sha256 to_json c q in let rest = handed_out cs q' in o ∷ rest

  -- While a worker holds a job of a valid queue, no sequence of other calls hands the job out again,
  -- and the worker holds it still, as long as none of them completes or fails that job or recovers it
  -- after its lease is over.
  pub lease_exclusive :
      (cs : List JobCall) (q : JobQueue)
      → All (Spares id at) cs
      → IsValid q
      → IsHeld id at q
      → All (λ o. (row : Job) → o ≡ some row → row.id ≢ id) (handed_out cs q)
        × IsHeld id at (run sha256 to_json cs q)
  unfolding handed_out run
  lease_exclusive [] q s v h = (tt, h)
  lease_exclusive (c ∷ cs) q s v h =
      let (none_out, still) =
        lease_exclusive cs (step sha256 to_json c q).1 s.1 (step-IsValid sha256 to_json c q v)
          (step-IsHeld c q s.0 v h) in
      (((λ row e. step_not_handed c q v h e), none_out), still)
