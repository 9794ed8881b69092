-- ===== src/Outbound/Defs.antt =====
-- The rows, the state and the methods of `OutboundMessageStore`.
use Prim.Native.Nat.{max}
use omni_desk_ai.Shared.{
  ℕ, ◌+◌, String, Bool, true, false, ◌&&◌, ◌||◌, Option, none, some, List, [], ◌∷◌, ◌++◌, ltb, leb,
  if◌then◌else◌, Result, ok, err, length, is_some,
}
use omni_desk_ai.Shared.Table.{find, update, select, oldest}
use omni_desk_ai.Shared.Text.{◌+++◌, decimal, truthy}
use omni_desk_ai.Shared.Backoff.{retry_at}

pub data Status : Type 0 where
  pending running retry sent dead_letter cancelled ambiguous : Status

-- a row of the table `outbound_messages`
pub record Message : Type 0 where
  pub id : String
  pub idempotency_key : String
  pub channel : String
  pub recipient : String
  pub payload_json : String
  pub status : Status
  pub provider_message_id : Option String
  pub provider_request_id : Option String
  pub retry_count : ℕ
  pub max_retries : ℕ
  pub next_retry_at : ℕ
  pub locked_at : Option ℕ
  pub delivery_deadline_at : Option ℕ
  pub last_error : Option String
  pub error_category : Option String
  pub created_at : ℕ
  pub updated_at : ℕ

-- `__init__` keeps `max_retries` at 0 or more and `base_retry_seconds` at 1 or more.
pub record Outbox : Type 0 where
  pub max_retries : ℕ
  pub base_retry_seconds : ℕ
  pub messages : List Message

unfoldable pub new_outbox : ℕ → ℕ → Outbox
new_outbox max_retries base = record {
  max_retries = max_retries;
  base_retry_seconds = max 1 base;
  messages = [];
}

pub data OutboundError : Type 0 where
  integrity_error : OutboundError  -- RuntimeError: no row under the idempotency key
  key_error : String → OutboundError
  bad_status : Status → String → OutboundError  -- ValueError

abbrev pub message_id : Message → String
message_id m = m.id

abbrev pub message_key : Message → String
message_key m = m.idempotency_key

abbrev pub message_created_at : Message → ℕ
message_created_at m = m.created_at

abbrev pub is_running : Status → Bool
is_running running = true
is_running _ = false

-- status IN ('pending', 'retry')
abbrev pub is_claimable : Status → Bool
is_claimable pending = true
is_claimable retry = true
is_claimable _ = false

abbrev pub or_default : Option ℕ → ℕ → ℕ
or_default none d = d
or_default (some n) d = n

-- the arguments of `create`, with the payload as JSON text
pub record Draft : Type 0 where
  pub channel : String
  pub recipient : String
  pub payload_json : String
  pub max_retries : Option ℕ
  pub delivery_deadline_at : Option ℕ
  pub idempotency_key : Option String

-- `str(idempotency_key or message_id)`
abbrev pub key_of : String → Draft → String
key_of id d = elim (truthy d.idempotency_key) [ none ↦ id | some k ↦ k ]

-- the row that `create` inserts
abbrev pub new_message : ℕ → String → Draft → ℕ → Message
new_message now id d max_retries = record {
  id = id;
  idempotency_key = key_of id d;
  channel = d.channel;
  recipient = d.recipient;
  payload_json = d.payload_json;
  status = pending;
  provider_message_id = none;
  provider_request_id = none;
  retry_count = 0;
  max_retries = or_default d.max_retries max_retries;
  next_retry_at = 0;
  locked_at = none;
  delivery_deadline_at = d.delivery_deadline_at;
  last_error = none;
  error_category = none;
  created_at = now;
  updated_at = now;
}

-- INSERT OR IGNORE: a row that would repeat an id or an idempotency key is not inserted
unfoldable pub insert_or_ignore : Message → List Message → List Message
insert_or_ignore m t =
    if is_some (find message_id m.id t)
    then t
    else if is_some (find message_key m.idempotency_key t)
    then t
    else t ++ m ∷ []

-- The reply is the id under which the message is known.
unfoldable pub create : ℕ → String → Draft → Outbox → Result OutboundError String × Outbox
unfolding insert_or_ignore
create now id d s =
    let t = insert_or_ignore (new_message now id d s.max_retries) s.messages in
    (
      elim (find message_key (key_of id d) t) [ none ↦ err integrity_error | some m ↦ ok m.id ],
      record s { messages = t },
    )

-- delivery_deadline_at IS NULL OR delivery_deadline_at >= now
abbrev pub in_time : ℕ → Option ℕ → Bool
in_time now none = true
in_time now (some deadline) = leb now deadline

-- the WHERE clause of `claim_next`
abbrev pub eligible : ℕ → Message → Bool
eligible now m =
    is_claimable m.status && (leb m.next_retry_at now && in_time now m.delivery_deadline_at)

abbrev pub claim_row : ℕ → Message → Message
claim_row now m = record m { status = running; locked_at = some now; updated_at = now }

-- The row is returned as it was selected, with its old status.
unfoldable pub claim_next : ℕ → Outbox → Option Message × Outbox
claim_next now s = elim (oldest message_created_at (eligible now) s.messages) [
  | none ↦ (none, s)
  | some row ↦
      (some row, record s { messages = update message_id row.id (claim_row now) s.messages })
]

abbrev pub lease_over : ℕ → ℕ → Option ℕ → Bool
lease_over now lease none = false
lease_over now lease (some at) = leb (at + lease) now

-- status='running' AND locked_at IS NOT NULL AND locked_at <= now - lease_seconds
abbrev pub is_stale : ℕ → ℕ → Message → Bool
is_stale now lease m = is_running m.status && lease_over now lease m.locked_at

-- What a failed attempt writes: `row` is the row that was selected, `m` the one that is updated.
abbrev pub retry_row : ℕ → ℕ → Bool → String → String → Option String → Message → Message → Message
retry_row now base dead retry_error dead_error category row m =
    let next_count = row.retry_count + 1 in
    if dead || ltb row.max_retries next_count
    then record m {
      status = dead_letter;
      retry_count = next_count;
      next_retry_at = 0;
      locked_at = none;
      updated_at = now;
      last_error = some dead_error;
      error_category = category;
    }
    else record m {
      status = retry;
      retry_count = next_count;
      next_retry_at = retry_at now base next_count;
      locked_at = none;
      updated_at = now;
      last_error = some retry_error;
      error_category = category;
    }

abbrev pub stale_error : ℕ → String
stale_error lease = "stale running outbound recovered after " +++ decimal lease +++ "s lease"

-- the body of the loop of `recover_stale_running`, which does not write `error_category`
abbrev pub recovered : ℕ → ℕ → ℕ → Message → Message → Message
recovered now base lease row m =
    retry_row now base false (stale_error lease) (stale_error lease +++ " and moved to dead_letter")
      m.error_category row m

unfoldable pub recover_rows : ℕ → ℕ → ℕ → List Message → List Message → List Message
recover_rows now base lease [] t = t
recover_rows now base lease (row ∷ rows) t =
    recover_rows now base lease rows (update message_id row.id (recovered now base lease row) t)

unfoldable pub recover_stale_running : ℕ → ℕ → Outbox → ℕ × Outbox
unfolding recover_rows
recover_stale_running now lease s =
    let rows = select (is_stale now lease) s.messages in
    (
      length rows,
      record s { messages = recover_rows now s.base_retry_seconds lease rows s.messages },
    )

abbrev pub sent_row : ℕ → Option String → Option String → Message → Message
sent_row now provider_message_id provider_request_id m = record m {
  status = sent;
  provider_message_id = provider_message_id;
  provider_request_id = provider_request_id;
  locked_at = none;
  updated_at = now;
  last_error = none;
}

unfoldable pub mark_sent : ℕ → String → Option String → Option String → Outbox → Outbox
mark_sent now id pm pr s = record s {
  messages = update message_id id (sent_row now pm pr) s.messages;
}

unfoldable pub mark_sent_by_idempotency_key :
    ℕ → String → Option String → Option String → Outbox → Outbox
mark_sent_by_idempotency_key now key pm pr s = record s {
  messages = update message_key key (sent_row now pm pr) s.messages;
}
