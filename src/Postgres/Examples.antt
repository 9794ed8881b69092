-- ===== src/Postgres/Examples.antt =====
-- The stores over Postgres on concrete data, and the theorems at inputs that meet their hypotheses.
use omni_desk_ai.Shared.{◌≡◌, refl, String, none, some, List, [], ◌∷◌, arith}
use omni_desk_ai.Shared.Trace.{trace}
use omni_desk_ai.Shared.Table.{find}
use omni_desk_ai.Jobs.{Job, JobQueue, ChannelMessage, running, dead_letter}
use omni_desk_ai.Jobs.Invariant.{IsValid}
use omni_desk_ai.Jobs.History.{
  JobCall, enqueue_call, claim_call, complete_call, fail_call, requeue_call, purge_call, step,
}
use omni_desk_ai.Postgres.Jobs.History.{HasRetries, pg_step, jobs_agree}

abbrev sha256 : String → String
sha256 s = s

abbrev to_json : ChannelMessage → String
to_json m = m.text

abbrev message : ChannelMessage
message = record {
  channel = "line";
  sender_id = "u";
  text = "hello";
  thread_id = none;
  message_id = some "3";
  raw = "{}";
  received_at = 1;
}

abbrev job_a : Job
job_a = record {
  id = "a";
  dedupe_key = "line:u:1";
  channel = "line";
  message_id = some "1";
  source_key = "u";
  payload_json = "hello";
  status = running;
  retry_count = 2;
  max_retries = 3;
  next_retry_at = 0;
  locked_at = some 100;
  created_at = 5;
  updated_at = 100;
  last_error = none;
  result_json = none;
}

abbrev job_b : Job
job_b = record job_a {
  id = "b";
  dedupe_key = "line:u:2";
  status = dead_letter;
  retry_count = 4;
  locked_at = none;
  created_at = 7;
}

abbrev queue : JobQueue
queue = record { max_retries = 3; base_retry_seconds = 30; jobs = job_b ∷ job_a ∷ [] }

queue-IsValid : IsValid queue
unfolding find
queue-IsValid = ground arith

queue-HasRetries : HasRetries queue
queue-HasRetries = ground arith

abbrev calls : List JobCall
calls =
    enqueue_call 110 "c" none message
    ∷ claim_call 111
    ∷ fail_call 112 "a" "boom"
    ∷ requeue_call 113 "b"
    ∷ complete_call 114 "c" "{}"
    ∷ purge_call "b"
    ∷ []

jobs_agree_example :
    trace (pg_step sha256 to_json) calls queue ≡ trace (step sha256 to_json) calls queue
jobs_agree_example =
    jobs_agree sha256 to_json calls queue (refl, (refl, (refl, (refl, (refl, (refl, tt))))))
      queue-IsValid queue-HasRetries
