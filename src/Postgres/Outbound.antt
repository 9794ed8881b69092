-- ===== src/Postgres/Outbound.antt =====
-- omnidesk_agent/repositories/postgres_state.py: `PostgresOutboundMessageStore`, over the rows of
-- `OutboundMessageStore`. The column key of a row is its idempotency key.
pub mod Agree
pub mod History
mod Examples
use omni_desk_ai.Shared.{
  ℕ, ◌+◌, String, Bool, true, false, Option, none, some, List, [], ◌∷◌, if◌then◌else◌, Result, ok,
  err,
}
use omni_desk_ai.Shared.Text.{◌+++◌, cut, decimal, truthy}
use omni_desk_ai.Shared.Table.{find}
use omni_desk_ai.Outbound.{
  Status, pending, cancelled, Message, Outbox, OutboundError, key_error, bad_status, Draft,
  message_id, message_key, message_created_at, is_running, key_of, new_message, eligible, claim_row,
  lease_over, retry_row, sent_row, MarkedFailed, ambiguous_row, can_requeue, requeue_row,
  can_cancel, cancel_row, has_status,
}
use omni_desk_ai.Postgres.State.{
  insert_once, update_locked, claim_ready_by_status, list_rows, or_number,
}

abbrev pub with_messages : List Message → Outbox → Outbox
with_messages t s = record s { messages = t }

-- A key that exists is found first, so the insertion does not conflict in one step.
unfoldable pub pg_create : ℕ → String → Draft → Outbox → String × Outbox
pg_create now id d s = elim (find message_key (key_of id d) s.messages) [
  | some m ↦ (m.id, s)
  | none ↦
      let (_, t) = insert_once message_key (new_message now id d s.max_retries) s.messages in
      (id, with_messages t s)
]

unfoldable pub pg_claim_message : ℕ → Outbox → Option Message × Outbox
pg_claim_message now s =
    let (m, t) =
      claim_ready_by_status message_key message_created_at (eligible now) (claim_row now)
        s.messages in
    (m, with_messages t s)

-- `_update_by_id`
unfoldable pub update_by_id :
    String
    → (Message → Result OutboundError Message)
    → Outbox
    → Result OutboundError Message × Outbox
update_by_id id f s = elim (find message_id id s.messages) [
  | none ↦ (err (key_error id), s)
  | some m ↦
      let (r, t) =
        update_locked message_key (key_error m.idempotency_key) m.idempotency_key f s.messages in
      (r, with_messages t s)
]

abbrev pub replied :
    {A : Type 0} → (Message → A) → Result OutboundError Message → Result OutboundError A
replied f (ok m) = ok (f m)
replied f (err e) = err e

-- a message that does not exist raises here
unfoldable pub pg_mark_sent :
    ℕ → String → Option String → Option String → Outbox → Result OutboundError (Unit {0}) × Outbox
unfolding update_by_id
pg_mark_sent now id pm pr s =
    let (r, s1) = update_by_id id (λ m. ok (sent_row now pm pr m)) s in (replied (λ _. tt) r, s1)

unfoldable pub pg_mark_sent_by_idempotency_key :
    ℕ → String → Option String → Option String → Outbox → Result OutboundError (Unit {0}) × Outbox
pg_mark_sent_by_idempotency_key now key pm pr s =
    let (r, t) =
      update_locked message_key (key_error key) key (λ m. ok (sent_row now pm pr m)) s.messages in
    (replied (λ _. tt) r, with_messages t s)

-- the row that `mark_failed` writes: a retry limit of 0 counts as the store's
unfoldable pub pg_failed_message : ℕ → Outbox → Bool → String → String → Message → Message
pg_failed_message now s dead error category m =
    let e = cut 4000 error in
    retry_row now s.base_retry_seconds dead e e (some category)
      (record m { max_retries = or_number m.max_retries s.max_retries }) m

abbrev pub marked_of : Message → MarkedFailed
marked_of m = record {
  status = m.status;
  retry_count = m.retry_count;
  next_retry_at = m.next_retry_at;
}

unfoldable pub pg_mark_failed :
    ℕ → String → String → Bool → String → Outbox → Result OutboundError MarkedFailed × Outbox
unfolding update_by_id pg_failed_message
pg_mark_failed now id error dead category s =
    let (r, s1) = update_by_id id (λ m. ok (pg_failed_message now s dead error category m)) s in
    (replied marked_of r, s1)

-- an empty request id counts as none
unfoldable pub pg_mark_ambiguous :
    ℕ → String → String → String → Option String → Outbox → Result OutboundError ℕ × Outbox
unfolding update_by_id
pg_mark_ambiguous now id error category request s =
    let (r, s1) =
      update_by_id id (λ m. ok (ambiguous_row now error category (truthy request) m)) s in
    (replied (λ m. m.retry_count) r, s1)

-- the updater of `requeue`
abbrev pub retry_current : ℕ → String → Message → Result OutboundError Message
retry_current now id m =
    if can_requeue m.status then ok (requeue_row now m) else err (bad_status m.status id)

unfoldable pub pg_requeue : ℕ → String → Outbox → Result OutboundError Status × Outbox
unfolding update_by_id
pg_requeue now id s =
    let (r, s1) = update_by_id id (retry_current now id) s in (replied (λ _. pending) r, s1)

-- the updater of `cancel`
abbrev pub cancel_current : ℕ → String → Message → Result OutboundError Message
cancel_current now id m =
    if can_cancel m.status then ok (cancel_row now m) else err (bad_status m.status id)

unfoldable pub pg_cancel : ℕ → String → Outbox → Result OutboundError Status × Outbox
unfolding update_by_id
pg_cancel now id s =
    let (r, s1) = update_by_id id (cancel_current now id) s in (replied (λ _. cancelled) r, s1)

abbrev pub stale_error : ℕ → String
stale_error lease = "stale running outbound recovered after " +++ decimal lease +++ "s lease"

-- the loop of `recover_stale_running` over the rows that were listed
unfoldable pub pg_recover_messages : ℕ → ℕ → List Message → Outbox → ℕ × Outbox
unfolding pg_mark_failed
pg_recover_messages now lease [] s = (0, s)
pg_recover_messages now lease (m ∷ rows) s =
    let over = lease_over now lease m.locked_at in
    let (n, s1) =
      pg_recover_messages now lease rows
        (if over then (pg_mark_failed now m.id (stale_error lease) false "unknown" s).1 else s) in
    (if over then n + 1 else n, s1)

unfoldable pub pg_recover_stale_messages : ℕ → ℕ → Outbox → ℕ × Outbox
unfolding pg_recover_messages
pg_recover_stale_messages now lease s =
    pg_recover_messages now lease
      (list_rows message_created_at (λ m. is_running m.status) 1000 s.messages) s

unfoldable pub pg_list_messages : Option Status → ℕ → Outbox → List Message
pg_list_messages status n s = list_rows message_created_at (has_status status) n s.messages
