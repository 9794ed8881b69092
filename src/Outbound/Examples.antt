-- ===== src/Outbound/Examples.antt =====
-- Runs of the outbox and the dispatcher on concrete data, and the theorems at such inputs.
use mathlib.Core.Bool.{false≢true}
use omni_desk_ai.Shared.{
  ◌≡◌, ◌≢◌, refl, String, true, false, none, some, List, [], ◌∷◌, arith, ok, err, All, eq_iff, inl,
}
use omni_desk_ai.Shared.Table.{find, oldest}
use omni_desk_ai.Outbound.{
  Message, Outbox, Draft, pending, running, retry, ambiguous, cancelled, dead_letter, message_id,
  create, claim_next, mark_failed, cancel,
}
use omni_desk_ai.Outbound.Provider.{member, Failure}
use omni_desk_ai.Outbound.Options.{
  OptionValue, object, flag_value, text_value, unknown_options, not_in_enum,
  validate_send_text_options, IsSafe, validate_send_text_options-IsSafe,
}
use omni_desk_ai.Outbound.Dispatch.{Environment, type_text, option_error_text, deliver, run_once}
use omni_desk_ai.Outbound.Invariant.{IsValid}
use omni_desk_ai.Outbound.Readings.{settled_status}
use omni_desk_ai.Outbound.Outcomes.{run_once-settled_status}
use omni_desk_ai.Outbound.History.{
  OutboundCall, create_call, claim_call, sent_call, requeue_call, cancel_call, replay,
  replay-IsValid, handed_out,
}
use omni_desk_ai.Outbound.Parked.{IsParked}
use omni_desk_ai.Outbound.Finality.{status_final, mark_failed_undoes_cancel}
use omni_desk_ai.Outbound.Keys.{create-create}

abbrev draft : Draft
draft = record {
  channel = "line";
  recipient = "r";
  payload_json = "{}";
  max_retries = none;
  delivery_deadline_at = none;
  idempotency_key = some "k";
}

abbrev start : Outbox
start = record { max_retries = 3; base_retry_seconds = 30; messages = [] }

abbrev queued : Message
queued = record {
  id = "a";
  idempotency_key = "k";
  channel = "line";
  recipient = "r";
  payload_json = "{}";
  status = pending;
  provider_message_id = none;
  provider_request_id = none;
  retry_count = 0;
  max_retries = 3;
  next_retry_at = 0;
  locked_at = none;
  delivery_deadline_at = none;
  last_error = none;
  error_category = none;
  created_at = 1;
  updated_at = 1;
}

abbrev outbox : Message → Outbox
outbox m = record { max_retries = 3; base_retry_seconds = 30; messages = m ∷ [] }

creates : (create 1 "a" draft start).1 ≡ outbox queued
unfolding create find
creates = refl

replay-IsValid_example :
    IsValid (replay (create_call 1 "a" draft ∷ claim_call 2 ∷ cancel_call 3 "a" ∷ []) start)
replay-IsValid_example = replay-IsValid _ start (omega arith)

-- the message is sent before the draft comes again
abbrev meanwhile : List OutboundCall
meanwhile = claim_call 2 ∷ sent_call 3 "a" none none ∷ []

create-create_example :
    create 5 "b" draft (replay meanwhile (create 1 "a" draft start).1)
    ≡ (ok "a", replay meanwhile (create 1 "a" draft start).1)
create-create_example =
    create-create 1 5 "a" "b" draft draft meanwhile start {k = "k"} {i = "a"} refl refl
      (unfold create find in refl)

-- a provider that answers 503
abbrev unavailable : Failure
unavailable = record { status_code = some 503; text = "unavailable"; lower = "unavailable" }

abbrev environment : Environment
environment = record {
  adapters = λ c. some (record { has_send_text = true; send_text = λ r t o. err unavailable });
  read_payload = λ j.
      ok (record { type = type_text "text"; options = object []; text = "hi"; text_sha256 = none });
  sha256 = λ s. s;
  to_lower = λ s. s;
}

fails : deliver environment queued ≡ err unavailable
unfolding deliver validate_send_text_options
fails = refl

settles : settled_status queued (err unavailable) ≡ ambiguous
unfolding settled_status
settles = refl

-- a 503 that speaks of a rate limit, and a permanent error that no retry helps
limited : settled_status queued (err (record unavailable { lower = "rate limit" })) ≡ retry
unfolding settled_status
limited = refl

forbids :
    settled_status queued
      (err (record { status_code = none; text = "Forbidden"; lower = "forbidden" }))
    ≡ dead_letter
unfolding settled_status
forbids = refl

queued-IsValid : IsValid (outbox queued)
unfolding find
queued-IsValid = ground arith

run_once-settled_status_example :
    (row' : Message) × (find message_id "a" (run_once environment 2 9 (outbox queued)).1.messages
      ≡ some row')
    × (row'.status ≡ settled_status queued (deliver environment queued))
run_once-settled_status_example =
    run_once-settled_status environment 2 9 (outbox queued) {m = queued} queued-IsValid
      (unfold claim_next oldest in refl)

abbrev waiting : Message
waiting = record queued { status = ambiguous }

waiting-IsValid : IsValid (outbox waiting)
unfolding find
waiting-IsValid = ground arith

waiting-IsParked : IsParked "a" "k" ambiguous (outbox waiting)
unfolding find
waiting-IsParked = record {
  row = waiting;
  found = refl;
  same_key = refl;
  in_status = refl;
  unclaimable = refl;
  unheld = refl;
}

b_is_not_a : ◌≢◌ {A = String} "b" "a"
b_is_not_a p = false≢true ((eq_iff "b" "a").1 p)

abbrev others : List OutboundCall
others = claim_call 5 ∷ requeue_call 6 "b" ∷ []

status_final_example :
    All (λ o. (row : Message) → o ≡ some row → row.id ≢ "a") (handed_out others (outbox waiting))
    × IsParked "a" "k" ambiguous (replay others (outbox waiting))
status_final_example =
    status_final "a" "k" ambiguous others (outbox waiting) (tt, (inl b_is_not_a, tt))
      waiting-IsValid waiting-IsParked

abbrev in_flight : Message
in_flight = record queued { status = running; locked_at = some 2 }

mark_failed_undoes_cancel_example :
    ((cancel 3 "a" (outbox in_flight)).0 ≡ ok cancelled)
    × ((row' : Message) × (find message_id "a"
            (mark_failed 4 "a" "rate limit" false "rate_limit"
              (cancel 3 "a" (outbox in_flight)).1).1.messages
          ≡ some row')
        × (row'.status ≡ retry))
mark_failed_undoes_cancel_example =
    mark_failed_undoes_cancel 3 4 "rate limit" "rate_limit" (outbox in_flight) {m = in_flight}
      (unfold find in refl) refl (omega arith)

abbrev options : List (String × OptionValue)
options = ("silent", flag_value true) ∷ ("thread_ts", text_value "1.2") ∷ []

validate_send_text_options-IsSafe_example :
    (object options ≡ object options) × All (IsSafe (λ s. s)) options
validate_send_text_options-IsSafe_example =
    validate_send_text_options-IsSafe (λ s. s) (object options) {clean = options}
      (unfold validate_send_text_options member in refl)

-- an option that would choose the host, and a surface that there is none of
refuses_url :
    validate_send_text_options
      (λ s. s)
      (object (
        ("webhook_url", text_value "u")
        ∷ ("silent", flag_value true)
        ∷ ("base_url", text_value "v")
        ∷ []))
    ≡ err (unknown_options ("base_url" ∷ "webhook_url" ∷ []))
unfolding validate_send_text_options member
refuses_url = refl

refuses_surface :
    validate_send_text_options (λ s. s) (object (("surface", text_value "x") ∷ []))
    ≡ err (not_in_enum "surface")
unfolding validate_send_text_options member
refuses_surface = refl

explains :
    option_error_text (unknown_options ("base_url" ∷ []))
    ≡ "unsupported channels.send_text option(s): base_url; allowed options: silent, surface, thread_ts"
unfolding option_error_text
explains = refl
