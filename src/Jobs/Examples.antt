-- ===== src/Jobs/Examples.antt =====
-- Runs of the job queue on concrete data, and the theorems at inputs that meet their hypotheses.
use omni_desk_ai.Shared.{
  ◌≡◌, ◌≢◌, refl, String, true, false, none, some, List, [], ◌∷◌, arith, ok, All, eq_iff,
}
use mathlib.Core.Bool.{false≢true}
use omni_desk_ai.Shared.Table.{find, update, oldest}
use omni_desk_ai.Jobs.{
  Job, JobQueue, ChannelMessage, Enqueued, pending, running, retry, job_id, enqueue, claim_next,
  complete, recover_row, recover_stale_running, dedupe_key_of,
}
use omni_desk_ai.Jobs.Invariant.{IsValid}
use omni_desk_ai.Jobs.History.{
  JobCall, enqueue_call, claim_call, fail_call, recover_call, run, run-IsValid,
}
use omni_desk_ai.Jobs.Claims.{ClaimSpec, claim_next-ClaimSpec, IsHeld, handed_out, lease_exclusive}
use omni_desk_ai.Jobs.Failures.{fail_all, HasFailed, fail_all-HasFailed}
use omni_desk_ai.Jobs.Recovery.{recover_stale_running_keeps, recover_row_undoes_complete}
use omni_desk_ai.Jobs.Recovered.{IsRecovered, recover_stale_running-IsRecovered}
use omni_desk_ai.Jobs.Dedupe.{enqueue-enqueue, enqueue_drops_other}

-- stand-ins for hashlib and json
abbrev sha256 : String → String
sha256 s = s

abbrev to_json : ChannelMessage → String
to_json m = m.text

abbrev message : String → ChannelMessage
message id = record {
  channel = "line";
  sender_id = "u";
  text = "hello";
  thread_id = none;
  message_id = some id;
  raw = "{}";
  received_at = 1;
}

abbrev start : JobQueue
start = record { max_retries = 3; base_retry_seconds = 30; jobs = [] }

start-IsValid : IsValid start
start-IsValid = omega arith

abbrev job_a : Job
job_a = record {
  id = "a";
  dedupe_key = "line:u:1";
  channel = "line";
  message_id = some "1";
  source_key = "u";
  payload_json = "hello";
  status = running;
  retry_count = 2;
  max_retries = 3;
  next_retry_at = 0;
  locked_at = some 100;
  created_at = 5;
  updated_at = 100;
  last_error = none;
  result_json = none;
}

abbrev job_b : Job
job_b = record job_a {
  id = "b";
  dedupe_key = "line:u:2";
  status = pending;
  retry_count = 0;
  locked_at = none;
  created_at = 7;
}

abbrev queue : JobQueue
queue = record { max_retries = 3; base_retry_seconds = 30; jobs = job_b ∷ job_a ∷ [] }

queue-IsValid : IsValid queue
unfolding find
queue-IsValid = ground arith

run-IsValid_example : IsValid (
    run sha256 to_json
      (enqueue_call 1 "a" none (message "1") ∷ claim_call 2 ∷ fail_call 3 "a" "boom" ∷ [])
      start)
run-IsValid_example = run-IsValid sha256 to_json _ start start-IsValid

claim_next-ClaimSpec_example : ClaimSpec 200 queue (claim_next 200 queue)
claim_next-ClaimSpec_example = claim_next-ClaimSpec 200 queue queue-IsValid

claims_b : (claim_next 200 queue).0 ≡ some job_b
unfolding claim_next oldest update
claims_b = refl

queue-IsHeld : IsHeld "a" 100 queue
unfolding find
queue-IsHeld = record { row = job_a; found = refl; held = refl; locked = refl }

abbrev others : List JobCall
others = claim_call 200 ∷ fail_call 201 "b" "boom" ∷ recover_call 300 300 ∷ []

b_is_not_a : ◌≢◌ {A = String} "b" "a"
b_is_not_a p = false≢true ((eq_iff "b" "a").1 p)

lease_exclusive_example :
    All
      (λ o. (row : Job) → o ≡ some row → row.id ≢ "a")
      (handed_out sha256 to_json "a" 100 others queue)
    × IsHeld "a" 100 (run sha256 to_json others queue)
lease_exclusive_example =
    lease_exclusive sha256 to_json "a" 100 others queue (tt, (b_is_not_a, (omega arith, tt)))
      queue-IsValid queue-IsHeld

fail_all-HasFailed_example :
    (row' : Job) × (find job_id "a" (fail_all ((150, "x") ∷ (160, "y") ∷ []) "a" queue).jobs
      ≡ some row')
    × HasFailed 2 job_a row'
fail_all-HasFailed_example =
    fail_all-HasFailed ((150, "x") ∷ (160, "y") ∷ []) "a" queue {row = job_a} (λ p. cc)
      (unfold find in refl)

recover_stale_running-IsRecovered_example :
    (row' : Job) × (find job_id "a" (recover_stale_running 400 300 queue).1.jobs ≡ some row')
    × IsRecovered 400 30 300 job_a row'
recover_stale_running-IsRecovered_example =
    recover_stale_running-IsRecovered 400 300 queue "a" {row = job_a} queue-IsValid
      (unfold find in refl)

recover_stale_running_keeps_example :
    find job_id "b" (recover_stale_running 400 300 queue).1.jobs ≡ some job_b
recover_stale_running_keeps_example =
    recover_stale_running_keeps 400 300 queue "b" queue-IsValid (unfold find in refl) refl

recover_row_undoes_complete_example :
    (row' : Job) × (find job_id "a"
        (recover_row 400 30 300 job_a (complete 390 "a" "done" queue).jobs)
      ≡ some row')
    × (row'.status ≡ retry)
recover_row_undoes_complete_example =
    recover_row_undoes_complete 400 390 300 "done" queue {row = job_a} (unfold find in refl) refl
      (omega arith)

abbrev first : Enqueued
first = record { job_id = "a"; created = true; dedupe_key = "line:u:1" }

enqueue-enqueue_example :
    enqueue sha256 to_json 9 "z"
      (some "u")
      (message "1")
      (enqueue sha256 to_json 1 "a" (some "u") (message "1") start).1
    ≡ (
      ok (record first { created = false }),
      (enqueue sha256 to_json 1 "a" (some "u") (message "1") start).1,
    )
enqueue-enqueue_example =
    enqueue-enqueue sha256 to_json 1 9 "a" "z" (some "u") (message "1") start {r = first}
      (unfold enqueue find dedupe_key_of in refl)

enqueue_drops_other_example :
    enqueue sha256 to_json 9 "z"
      (some "g")
      (message "u:1")
      (enqueue sha256 to_json 1 "a" (some "g:u") (message "1") start).1
    ≡ (
      ok (record { job_id = "a"; created = false; dedupe_key = "line:g:u:1" }),
      (enqueue sha256 to_json 1 "a" (some "g:u") (message "1") start).1,
    )
enqueue_drops_other_example =
    enqueue_drops_other sha256 to_json 1 9 "a" "z" "g" "u" "1" (message "1") (message "u:1") start
      {r = record { job_id = "a"; created = true; dedupe_key = "line:g:u:1" }}
      (λ p. false≢true ((eq_iff "g" "").1 p)) (λ p. false≢true ((eq_iff "1" "").1 p)) refl refl refl
      (unfold enqueue find dedupe_key_of in refl)
