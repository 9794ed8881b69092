-- ===== src/Postgres/Outbound/Examples.antt =====
-- The outbound queue over Postgres on concrete data, and the theorem at an input that meets its
-- hypotheses.
use omni_desk_ai.Shared.{◌≡◌, false, none, some, List, [], ◌∷◌, arith}
use omni_desk_ai.Shared.Trace.{trace}
use omni_desk_ai.Shared.Table.{find}
use omni_desk_ai.Outbound.{Draft, Message, Outbox, running}
use omni_desk_ai.Outbound.Invariant.{IsValid}
use omni_desk_ai.Outbound.History.{
  OutboundCall, create_call, claim_call, sent_call, failed_call, requeue_call, cancel_call, step,
}
use omni_desk_ai.Postgres.Outbound.History.{AreCommon, HasRetries, pg_step, messages_agree}

abbrev message : Message
message = record {
  id = "a";
  idempotency_key = "k";
  channel = "line";
  recipient = "u";
  payload_json = "{}";
  status = running;
  provider_message_id = none;
  provider_request_id = none;
  retry_count = 1;
  max_retries = 3;
  next_retry_at = 0;
  locked_at = some 5;
  delivery_deadline_at = none;
  last_error = none;
  error_category = none;
  created_at = 1;
  updated_at = 5;
}

abbrev outbox : Outbox
outbox = record { max_retries = 3; base_retry_seconds = 30; messages = message ∷ [] }

abbrev draft : Draft
draft = record {
  channel = "line";
  recipient = "u";
  payload_json = "{}";
  max_retries = none;
  delivery_deadline_at = none;
  idempotency_key = none;
}

abbrev calls : List OutboundCall
calls =
    create_call 10 "b" draft
    ∷ failed_call 11 "a" "boom" false "unknown"
    ∷ claim_call 12
    ∷ sent_call 13 "b" (some "p") none
    ∷ requeue_call 14 "a"
    ∷ cancel_call 15 "a"
    ∷ []

outbox-IsValid : IsValid outbox
unfolding find
outbox-IsValid = ground arith

outbox-HasRetries : HasRetries outbox
outbox-HasRetries = ground arith

calls-AreCommon : AreCommon calls outbox
unfolding find
calls-AreCommon = ground arith

messages_agree_example : trace pg_step calls outbox ≡ trace step calls outbox
messages_agree_example =
    messages_agree calls outbox calls-AreCommon outbox-IsValid outbox-HasRetries
