-- ===== src/Outbound/Dispatch.antt =====
-- omnidesk_agent/core/outbound_dispatcher.py: one round of the dispatcher. The adapters, the JSON
-- reader, sha256 and `str.lower` are arguments; the start and stop of the polling task are left out.
use omni_desk_ai.Shared.{
  ℕ, String, Bool, true, false, not, ◌&&◌, ◌||◌, Option, none, some, List, [], ◌∷◌, ◌++◌,
  if◌then◌else◌, Result, ok, err, ◌>>=◌, ◌>>◌, ◌==◌,
}
use omni_desk_ai.Shared.Text.{◌+++◌, truthy, or_text}
use omni_desk_ai.Shared.Sorted.{sorted, joined}
use omni_desk_ai.Outbound.Defs.{Message, Outbox, claim_next, mark_sent}
use omni_desk_ai.Outbound.Marks.{mark_failed, mark_ambiguous}
use omni_desk_ai.Outbound.Provider.{
  Failure, ChannelErrorInfo, classify_channel_error, member, capability_for, is_native,
}
use omni_desk_ai.Outbound.Options.{
  OptionValue, text_value, SendOptions, OptionError, expected_object, unknown_options, not_boolean,
  not_short_text, not_in_enum, option_keys, meta_surfaces, validate_send_text_options,
}

-- the entry "type" of a payload: a text, or another value (None where it is missing) with the text
-- that `str` gives it
pub data PayloadType : Type 0 where
  type_text other_type : String → PayloadType

-- the queued payload, as json.loads reads it
pub record Payload : Type 0 where
  pub type : PayloadType
  pub options : SendOptions
  pub text : String
  pub text_sha256 : Option String

-- what `send_text` returns: a dict with these entries, or anything else
pub data SendReply : Type 0 where
  reply : Option String → Option String → Option String → SendReply
  other_reply : SendReply

pub record Adapter : Type 0 where
  pub has_send_text : Bool
  pub send_text : String → String → List (String × OptionValue) → Result Failure SendReply

pub record Environment : Type 0 where
  pub adapters : String → Option Adapter
  pub read_payload : String → Result Failure Payload
  pub sha256 : String → String
  pub to_lower : String → String

-- the provider's message id and request id that are stored with a sent message
pub record Delivery : Type 0 where
  pub provider_message_id : Option String
  pub provider_request_id : Option String

abbrev pub bad_value : String → String → String
bad_value key what =
    "unsupported channels.send_text option value: " +++ key +++ " must be " +++ what

-- `allowed` is `sorted(SEND_TEXT_OPTION_SCHEMA)`
unfoldable pub option_error_text : OptionError → String
unfolding sorted joined
option_error_text expected_object = "unsupported channels.send_text options: expected an object"
option_error_text (unknown_options keys) =
    "unsupported channels.send_text option(s): "
    +++ joined keys
    +++ "; allowed options: "
    +++ joined (sorted option_keys)
option_error_text (not_boolean key) = bad_value key "a boolean"
option_error_text (not_short_text key) = bad_value key "a string of at most 128 characters"
option_error_text (not_in_enum key) = bad_value key ("one of " +++ joined meta_surfaces)

abbrev pub first_truthy : Option String → Option String → Option String
first_truthy a b = elim (truthy a) [ none ↦ b | some s ↦ some s ]

abbrev pub delivery_of : String → SendReply → Delivery
delivery_of key (reply message_id id request_id) = record {
  provider_message_id = first_truthy message_id id;
  provider_request_id = some (or_text request_id key);
}
delivery_of key other_reply = record { provider_message_id = none; provider_request_id = some key }

-- `message.get("idempotency_key") or message["id"]`
abbrev pub request_key : Message → String
request_key m = or_text (some m.idempotency_key) m.id

module _ (env : Environment) where
  open env use {adapters, read_payload, sha256, to_lower}

  -- an exception that the dispatcher raises itself
  abbrev pub raised : String → Failure
  raised text = record { status_code = none; text = text; lower = to_lower text }

  abbrev pub require : Bool → String → Result Failure (Unit {0})
  require true text = ok tt
  require false text = err (raised text)

  abbrev pub adapter_for : String → Result Failure Adapter
  adapter_for channel = elim (adapters channel) [
    | none ↦ err (raised ("Unknown channel adapter: " +++ channel))
    | some a ↦ ok a
  ]

  abbrev pub is_text : PayloadType → Bool
  is_text (type_text t) = t == "text"
  is_text (other_type t) = false

  -- f"{payload_type}"
  abbrev pub type_name : PayloadType → String
  type_name (type_text t) = t
  type_name (other_type t) = t

  abbrev pub checked_options : SendOptions → Result Failure (List (String × OptionValue))
  checked_options options = elim (validate_send_text_options to_lower options) [
    | ok clean ↦ ok clean
    | err e ↦ err (raised (option_error_text e))
  ]

  -- the approved digest, if the row has one, is that of the text
  abbrev pub digest_matches : Payload → Bool
  digest_matches p = elim p.text_sha256 [ none ↦ true | some d ↦ d == sha256 p.text ]

  -- `_deliver` up to its `mark_sent`
  unfoldable pub deliver : Message → Result Failure Delivery
  unfolding option_error_text
  deliver m = do
    adapter ← adapter_for m.channel
    require adapter.has_send_text ("Channel " +++ m.channel +++ " does not support send_text")
    payload ← read_payload m.payload_json
    require (is_text payload.type)
        ("Unsupported outbound payload type: " +++ type_name payload.type)
    options ← checked_options payload.options
    require (digest_matches payload)
        "unsupported outbound payload: text does not match the approved content digest"
    result ←
        adapter.send_text m.recipient payload.text
          (options ++ ("idempotency_key", text_value (request_key m)) ∷ [])
    ok (delivery_of (request_key m) result)

abbrev pub ambiguous_categories : List String
ambiguous_categories = "timeout" ∷ "network_error" ∷ "provider_5xx" ∷ []

-- a send that may have reached the provider
unfoldable pub is_uncertain : ChannelErrorInfo → Bool
unfolding member
is_uncertain info = member info.category ambiguous_categories

-- the handler of `run_once`
unfoldable pub handle_failure : ℕ → Message → Failure → Outbox → Outbox
handle_failure now m exc s =
    let info = classify_channel_error exc in
    if info.retryable && (not (is_native (capability_for m.channel).mode) && is_uncertain info)
    then (mark_ambiguous now m.id exc.text info.category (some (request_key m)) s).1
    else (mark_failed now m.id exc.text (info.dead_letter_now || not info.retryable) info.category
        s).1

-- what follows the delivery, at the time `now`
unfoldable pub settle : ℕ → Message → Result Failure Delivery → Outbox → Outbox
unfolding handle_failure
settle now m (ok d) s = mark_sent now m.id d.provider_message_id d.provider_request_id s
settle now m (err exc) s = handle_failure now m exc s

-- `run_once`: a claim at `now`, and the delivery's outcome recorded at `later`
unfoldable pub run_once : Environment → ℕ → ℕ → Outbox → Bool × Outbox
run_once env now later s =
    let (claimed, s') = claim_next now s in
    elim claimed [ none ↦ (false, s') | some m ↦ (true, settle later m (deliver env m) s') ]
