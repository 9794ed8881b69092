-- ===== src/Postgres/Jobs/Agree.antt =====
-- The job queue over Postgres does what the job queue over SQLite does.
use omni_desk_ai.Shared.{
  ℕ, zero, suc, ◌<◌, ◌≡◌, refl, ap, ◌∙◌, String, Option, some, arith, Option-cases, Bool-cases, inl,
  inr, All,
}
use omni_desk_ai.Shared.Text.{cut}
use omni_desk_ai.Shared.Table.{
  find, update, oldest, count-key, delete-key, IsUnique, update-const, find-oldest, All-find,
  key-find, update-none,
}
use omni_desk_ai.Jobs.{
  Job, JobQueue, ChannelMessage, job_id, job_created_at, is_dead_letter, eligible, claim_row,
  claim_next, retry_row, failed, fail, complete_row, complete, requeue_row, requeue_dead_letter,
  purge_dead_letter, insert_job, enqueue,
}
use omni_desk_ai.Postgres.State.{
  insert_once, delete_key, update_found, update_locked_by_field, claim_ready_by_status, or_number,
}
use omni_desk_ai.Postgres.Jobs.{
  failed_of, pg_enqueue, pg_claim_next, pg_failed_row, pg_fail, pg_complete, pg_requeue_dead_letter,
  pg_purge_dead_letter,
}

pub pg_claim_next-claim_next :
    (now : ℕ) (q : JobQueue) → IsUnique job_id q.jobs → pg_claim_next now q ≡ claim_next now q
unfolding pg_claim_next claim_ready_by_status claim_next
pg_claim_next-claim_next now q u =
    elim (Option-cases (oldest job_created_at (eligible now) q.jobs)) [
      | inl e ↦ rw (e, claim_ready_by_status, claim_next) refl
      | inr (r, e) ↦
          let f = find-oldest job_id job_created_at (eligible now) q.jobs u e in
          rw
            (
              e,
              claim_ready_by_status,
              claim_next,
              update-const job_id r.id (claim_row now) q.jobs u f,
            )
            refl
    ]

-- An update of the row that is found by its id.
updated :
    (id : String) (f : Job → Job) (q : JobQueue) {r : Job}
    → IsUnique job_id q.jobs
    → find job_id id q.jobs ≡ some r
    → update job_id r.id (λ _. f r) q.jobs ≡ update job_id id f q.jobs
updated id f q {r} u e =
    ap (λ k. update job_id k (λ _. f r) q.jobs) (key-find job_id id q.jobs e)
    ∙ update-const job_id id f q.jobs u e

pub pg_complete-complete :
    (now : ℕ) (id result : String) (q : JobQueue)
    → IsUnique job_id q.jobs
    → (pg_complete now id result q).1 ≡ complete now id result q
unfolding pg_complete update_locked_by_field complete
pg_complete-complete now id result q u = elim (Option-cases (find job_id id q.jobs)) [
  | inl e ↦ rw (e, update-none job_id id (complete_row now result) q.jobs e) refl
  | inr (r, e) ↦ rw (e, updated id (complete_row now result) q u e) refl
]

pub pg_requeue-requeue :
    (now : ℕ) (id : String) (q : JobQueue)
    → IsUnique job_id q.jobs
    → pg_requeue_dead_letter now id q ≡ requeue_dead_letter now id q
unfolding pg_requeue_dead_letter update_locked_by_field requeue_dead_letter
pg_requeue-requeue now id q u = elim (Option-cases (find job_id id q.jobs)) [
  | inl e ↦ rw (e, requeue_dead_letter) refl
  | inr (r, e) ↦ elim (Bool-cases (is_dead_letter r.status)) [
    | inl d ↦ rw (e, requeue_dead_letter, update_found, d, updated id (requeue_row now) q u e) refl
    | inr d ↦ rw (e, requeue_dead_letter, update_found, d) refl
  ]
]

-- A retry limit above 0 is kept.
pub or_number-keeps : (n d : ℕ) → 0 < n → or_number n d ≡ n
or_number-keeps zero d h = omega (arith, h)
or_number-keeps (suc n) d h = refl

abbrev failure : ℕ → ℕ → String → Job → Job
failure now base error row = retry_row now base (cut 4000 error) (cut 4000 error) row row

pg_failed_row-keeps :
    (now : ℕ) (q : JobQueue) (error : String) (row : Job)
    → 0 < row.max_retries
    → pg_failed_row now q error row ≡ failure now q.base_retry_seconds error row
unfolding pg_failed_row
pg_failed_row-keeps now q error row h =
    ap
      (λ m.
        retry_row now q.base_retry_seconds (cut 4000 error) (cut 4000 error)
          (record row { max_retries = m }) row)
      (or_number-keeps row.max_retries q.max_retries h)

-- The answer is read from the row that was written.
failed_of-failed :
    (now base : ℕ) (error : String) (row : Job)
    → failed_of (failure now base error row) ≡ failed now base row
failed_of-failed now base error row = ground arith

pub pg_fail-fail :
    (now : ℕ) (id error : String) (q : JobQueue)
    → IsUnique job_id q.jobs
    → All (λ j. 0 < j.max_retries) q.jobs
    → pg_fail now id error q ≡ fail now id error q
unfolding pg_fail update_locked_by_field update_found fail
pg_fail-fail now id error q u a = elim (Option-cases (find job_id id q.jobs)) [
  | inl e ↦ rw (e, fail) refl
  | inr (r, e) ↦
      let k =
        pg_failed_row-keeps now q error r
          (All-find job_id (λ j. 0 < j.max_retries) id q.jobs a e) in
      rw
        (
          e,
          fail,
          k,
          updated id (retry_row now q.base_retry_seconds (cut 4000 error) (cut 4000 error) r) q u e,
          failed_of-failed now q.base_retry_seconds error r,
        )
        refl
]

pub pg_purge-purge :
    (id : String) (q : JobQueue)
    → IsUnique job_id q.jobs
    → pg_purge_dead_letter id q ≡ purge_dead_letter id q
unfolding pg_purge_dead_letter delete_key purge_dead_letter
pg_purge-purge id q u =
    let c = count-key job_id id (λ j. is_dead_letter j.status) q.jobs u in
    elim (Option-cases (find job_id id q.jobs)) [
      | inl e ↦ rw (pg_purge_dead_letter, purge_dead_letter, c, e) refl
      | inr (r, e) ↦ elim (Bool-cases (is_dead_letter r.status)) [
        | inl d ↦
            rw
              (
                pg_purge_dead_letter,
                purge_dead_letter,
                c,
                e,
                d,
                delete-key job_id id (λ j. is_dead_letter j.status) q.jobs u e d,
              )
              refl
        | inr d ↦ rw (pg_purge_dead_letter, purge_dead_letter, c, e, d) refl
      ]
    ]

-- The answers differ where the new id is taken: the one is `created = false`, the other raises.
pub pg_enqueue-enqueue :
    (sha256 : String → String) (to_json : ChannelMessage → String) (now : ℕ) (id : String)
    (source : Option String) (m : ChannelMessage) (q : JobQueue)
    → (pg_enqueue sha256 to_json now id source m q).1 ≡ (enqueue sha256 to_json now id source m q).1
unfolding pg_enqueue insert_once enqueue insert_job
pg_enqueue-enqueue sha256 to_json now id source m q = ground arith
