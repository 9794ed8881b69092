-- ===== src/Outbound/Marks.antt =====
-- The other methods of `OutboundMessageStore`: what the dispatcher and the operators write, and reads.
use Prim.Native.Nat.{min, max}
use omni_desk_ai.Shared.{
  ℕ, ◌+◌, String, Bool, true, false, ◌||◌, Option, none, some, List, ltb, if◌then◌else◌, Result, ok,
  err,
}
use omni_desk_ai.Shared.Table.{find, update, select, count, newest_first, limit}
use omni_desk_ai.Shared.Text.{cut}
use omni_desk_ai.Shared.Backoff.{retry_at}
use omni_desk_ai.Outbound.Defs.{
  Status, pending, running, retry, sent, dead_letter, cancelled, ambiguous, Message, Outbox,
  OutboundError, key_error, bad_status, message_id, message_key, message_created_at, retry_row,
}

pub record MarkedFailed : Type 0 where
  pub status : Status
  pub retry_count : ℕ
  pub next_retry_at : ℕ

abbrev pub marked_failed : ℕ → ℕ → Bool → Message → MarkedFailed
marked_failed now base dead row =
    let retry_count = row.retry_count + 1 in
    if dead || ltb row.max_retries retry_count
    then record { status = dead_letter; retry_count = retry_count; next_retry_at = 0 }
    else record {
      status = retry;
      retry_count = retry_count;
      next_retry_at = retry_at now base retry_count;
    }

-- `dead` is the argument `dead_letter`
unfoldable pub mark_failed :
    ℕ → String → String → Bool → String → Outbox → Result OutboundError MarkedFailed × Outbox
mark_failed now id error dead category s = elim (find message_id id s.messages) [
  | none ↦ (err (key_error id), s)
  | some row ↦ (
    ok (marked_failed now s.base_retry_seconds dead row),
    record s {
      messages =
          update message_id id
            (retry_row now s.base_retry_seconds dead (cut 4000 error) (cut 4000 error)
              (some category) row)
            s.messages;
    },
  )
]

-- COALESCE(?, provider_request_id)
abbrev pub coalesce : Option String → Option String → Option String
coalesce none b = b
coalesce (some a) b = some a

abbrev pub ambiguous_row : ℕ → String → String → Option String → Message → Message
ambiguous_row now error category provider_request_id m = record m {
  status = ambiguous;
  provider_request_id = coalesce provider_request_id m.provider_request_id;
  locked_at = none;
  next_retry_at = 0;
  last_error = some (cut 4000 error);
  error_category = some category;
  updated_at = now;
}

-- the reply is the retry count
unfoldable pub mark_ambiguous :
    ℕ → String → String → String → Option String → Outbox → Result OutboundError ℕ × Outbox
mark_ambiguous now id error category provider_request_id s = elim (find message_id id s.messages) [
  | none ↦ (err (key_error id), s)
  | some row ↦ (
    ok row.retry_count,
    record s {
      messages =
          update message_id id (ambiguous_row now error category provider_request_id) s.messages;
    },
  )
]

-- {"pending", "retry", "dead_letter", "ambiguous", "cancelled"}
abbrev pub can_requeue : Status → Bool
can_requeue running = false
can_requeue sent = false
can_requeue _ = true

abbrev pub requeue_row : ℕ → Message → Message
requeue_row now m = record m {
  status = pending;
  retry_count = 0;
  next_retry_at = 0;
  locked_at = none;
  last_error = none;
  error_category = none;
  updated_at = now;
}

unfoldable pub requeue : ℕ → String → Outbox → Result OutboundError Status × Outbox
requeue now id s = elim (find message_id id s.messages) [
  | none ↦ (err (key_error id), s)
  | some row ↦
      if can_requeue row.status
      then (ok pending, record s { messages = update message_id id (requeue_row now) s.messages })
      else (err (bad_status row.status id), s)
]

-- not in {"sent", "cancelled"}
abbrev pub can_cancel : Status → Bool
can_cancel sent = false
can_cancel cancelled = false
can_cancel _ = true

abbrev pub cancel_row : ℕ → Message → Message
cancel_row now m = record m {
  status = cancelled;
  locked_at = none;
  updated_at = now;
  last_error = none;
  error_category = none;
}

unfoldable pub cancel : ℕ → String → Outbox → Result OutboundError Status × Outbox
cancel now id s = elim (find message_id id s.messages) [
  | none ↦ (err (key_error id), s)
  | some row ↦
      if can_cancel row.status
      then (ok cancelled, record s { messages = update message_id id (cancel_row now) s.messages })
      else (err (bad_status row.status id), s)
]

unfoldable pub get : String → Outbox → Option Message
get id s = find message_id id s.messages

unfoldable pub find_by_idempotency_key : String → Outbox → Option Message
find_by_idempotency_key key s = find message_key key s.messages

abbrev pub same_status : Status → Status → Bool
same_status pending pending = true
same_status running running = true
same_status retry retry = true
same_status sent sent = true
same_status dead_letter dead_letter = true
same_status cancelled cancelled = true
same_status ambiguous ambiguous = true
same_status _ _ = false

abbrev pub has_status : Option Status → Message → Bool
has_status none m = true
has_status (some s) m = same_status m.status s

-- `list`; a limit below 1 counts as 1
unfoldable pub list_messages : Option Status → ℕ → Outbox → List Message
list_messages status n s =
    limit (max 1 (min n 200))
      (newest_first message_created_at (select (has_status status) s.messages))

unfoldable pub list_ambiguous : ℕ → Outbox → List Message
unfolding list_messages
list_ambiguous = list_messages (some ambiguous)

-- the number that `stats` reports for a status; a status that no row has is left out there
unfoldable pub stats : Outbox → Status → ℕ
stats s status = count (has_status (some status)) s.messages
