-- ===== src/Postgres/Outbound/History.antt =====
-- Sequences of calls on the outbound queue over Postgres, and the same calls on the one over SQLite.
use omni_desk_ai.Shared.{
  ◌<◌, ◌≡◌, refl, ap, String, Option, none, some, List, [], ◌∷◌, arith, All, Option-cases, inl, inr,
}
use omni_desk_ai.Shared.Text.{cut, truthy}
use omni_desk_ai.Shared.Trace.{trace, trace-trace}
use omni_desk_ai.Shared.Table.{find, update, oldest, All-update, All-append}
use omni_desk_ai.Outbound.{
  Message, Outbox, message_id, message_key, message_created_at, or_default, new_message,
  insert_or_ignore, create, eligible, claim_row, claim_next, retry_row, sent_row, mark_sent,
  mark_sent_by_idempotency_key, mark_failed, ambiguous_row, mark_ambiguous, requeue_row, requeue,
  cancel_row, cancel,
}
use omni_desk_ai.Outbound.Invariant.{IsValid}
use omni_desk_ai.Outbound.History.{
  OutboundCall, create_call, claim_call, recover_call, sent_call, sent_by_key_call, failed_call,
  ambiguous_call, requeue_call, cancel_call, step, step-IsValid,
}
use omni_desk_ai.Postgres.Outbound.{
  pg_create, pg_claim_message, pg_mark_sent, pg_mark_sent_by_idempotency_key, pg_mark_failed,
  pg_mark_ambiguous, pg_requeue, pg_cancel, pg_recover_stale_messages,
}
use omni_desk_ai.Postgres.Outbound.Agree.{
  pg_create-create, pg_claim-claim, pg_mark_sent-mark_sent, pg_sent_by_key-sent_by_key,
  pg_failed-failed, pg_ambiguous-ambiguous, pg_requeue-requeue_message, pg_cancel-cancel,
}

-- The calls that both stores take alike: a new id is new, a message asks for retries or leaves their
-- number to the store, a request id is not empty, and no recovery.
abbrev pub IsCommon : OutboundCall → Outbox → Type 0
IsCommon (create_call now id d) s =
    (find message_id id s.messages ≡ none) × (0 < or_default d.max_retries s.max_retries)
IsCommon (recover_call _ _) s = ⊥
IsCommon (ambiguous_call now id error category request) s = truthy request ≡ request
IsCommon _ s = Unit

abbrev pub AreCommon : List OutboundCall → Outbox → Type 0
AreCommon [] s = Unit
AreCommon (c ∷ cs) s = IsCommon c s × AreCommon cs (step c s).1

abbrev pub IsLimited : Message → Type 0
IsLimited m = 0 < m.max_retries

pub record HasRetries (s : Outbox) : Type 0 where
  pub rows : All IsLimited s.messages

unfoldable pub pg_step : OutboundCall → Outbox → Option Message × Outbox
pg_step (create_call now id d) s = (none, (pg_create now id d s).1)
pg_step (claim_call now) s = pg_claim_message now s
pg_step (recover_call now lease) s = (none, (pg_recover_stale_messages now lease s).1)
pg_step (sent_call now id pm pr) s = (none, (pg_mark_sent now id pm pr s).1)
pg_step (sent_by_key_call now key pm pr) s =
    (none, (pg_mark_sent_by_idempotency_key now key pm pr s).1)
pg_step (failed_call now id error dead category) s =
    (none, (pg_mark_failed now id error dead category s).1)
pg_step (ambiguous_call now id error category request) s =
    (none, (pg_mark_ambiguous now id error category request s).1)
pg_step (requeue_call now id) s = (none, (pg_requeue now id s).1)
pg_step (cancel_call now id) s = (none, (pg_cancel now id s).1)

pg_step-step :
    (c : OutboundCall) (s : Outbox)
    → IsCommon c s
    → IsValid s
    → HasRetries s
    → pg_step c s ≡ step c s
unfolding pg_step step
pg_step-step (create_call now id d) s n v h = ap (λ x. (none, x)) (pg_create-create now id d s n.0)
pg_step-step (claim_call now) s n v h = pg_claim-claim now s v
pg_step-step (recover_call now lease) s n v h = absurd n
pg_step-step (sent_call now id pm pr) s n v h =
    ap (λ x. (none, x)) (pg_mark_sent-mark_sent now id pm pr s v)
pg_step-step (sent_by_key_call now key pm pr) s n v h =
    ap (λ x. (none, x)) (pg_sent_by_key-sent_by_key now key pm pr s v)
pg_step-step (failed_call now id error dead category) s n v h =
    ap (λ x. (none, x.1)) (pg_failed-failed now id error dead category s v h.rows)
pg_step-step (ambiguous_call now id error category request) s n v h =
    ap (λ x. (none, x.1)) (pg_ambiguous-ambiguous now id error category request s n v)
pg_step-step (requeue_call now id) s n v h =
    ap (λ x. (none, x.1)) (pg_requeue-requeue_message now id s v)
pg_step-step (cancel_call now id) s n v h = ap (λ x. (none, x.1)) (pg_cancel-cancel now id s v)

-- A call that writes no retry limit keeps them.
update-HasRetries :
    (key : Message → String) (k : String) (f : Message → Message) (s : Outbox)
    → ((m : Message) → (f m).max_retries ≡ m.max_retries)
    → HasRetries s
    → HasRetries (record s { messages = update key k f s.messages })
update-HasRetries key k f s e h = record {
  rows = All-update key IsLimited k f s.messages (λ m _ p. rw (e m) p) h.rows;
}

step-HasRetries :
    (c : OutboundCall) (s : Outbox) → IsCommon c s → HasRetries s → HasRetries (step c s).1
unfolding step create insert_or_ignore claim_next mark_sent mark_sent_by_idempotency_key mark_failed
    mark_ambiguous requeue cancel
step-HasRetries (create_call now id d) s n h =
    let m = new_message now id d s.max_retries in
    ground (arith, All-append IsLimited s.messages m h.rows)
step-HasRetries (claim_call now) s n h =
    elim (Option-cases (oldest message_created_at (eligible now) s.messages)) [
      | inl e ↦ rw (step, claim_next, e) h
      | inr (r, e) ↦
          rw (step, claim_next, e)
            (update-HasRetries message_id r.id (claim_row now) s (λ m. refl) h)
    ]
step-HasRetries (recover_call now lease) s n h = absurd n
step-HasRetries (sent_call now id pm pr) s n h =
    update-HasRetries message_id id (sent_row now pm pr) s (λ m. refl) h
step-HasRetries (sent_by_key_call now key pm pr) s n h =
    update-HasRetries message_key key (sent_row now pm pr) s (λ m. refl) h
step-HasRetries (failed_call now id error dead category) s n h =
    elim (Option-cases (find message_id id s.messages)) [
      | inl e ↦ rw (step, mark_failed, e) h
      | inr (r, e) ↦
          let g =
            retry_row now s.base_retry_seconds dead (cut 4000 error) (cut 4000 error)
              (some category) r in
          rw (step, mark_failed, e) (update-HasRetries message_id id g s (λ m. ground arith) h)
    ]
step-HasRetries (ambiguous_call now id error category request) s n h = ground (
  arith,
  update-HasRetries message_id id (ambiguous_row now error category request) s (λ m. refl) h,
)
step-HasRetries (requeue_call now id) s n h =
    ground (arith, update-HasRetries message_id id (requeue_row now) s (λ m. refl) h)
step-HasRetries (cancel_call now id) s n h =
    ground (arith, update-HasRetries message_id id (cancel_row now) s (λ m. refl) h)

-- what holds of the calls and the outbox on the way
record IsOnWay (cs : List OutboundCall) (s : Outbox) : Type 0 where
  common : AreCommon cs s
  valid : IsValid s
  retries : HasRetries s

-- From a valid outbox whose messages have a retry limit above 0, the outbound queues over Postgres and
-- over SQLite hand out the same messages and hold the same rows at the end, over any calls but
-- recover_stale_running, if each new message has a new id and a retry limit above 0, and no provider
-- request id is the empty text.
pub messages_agree :
    (cs : List OutboundCall) (s : Outbox)
    → AreCommon cs s
    → IsValid s
    → HasRetries s
    → trace pg_step cs s ≡ trace step cs s
messages_agree cs s n v h =
    trace-trace pg_step step IsOnWay
      (λ c rest u w. (
        pg_step-step c u w.common.0 w.valid w.retries,
        record {
          common = w.common.1;
          valid = step-IsValid c u w.valid;
          retries = step-HasRetries c u w.common.0 w.retries;
        },
      ))
      cs s (record { common = n; valid = v; retries = h })
