-- ===== src/Outbound/History.antt =====
-- Sequences of calls on the outbox, by any number of tools, dispatchers and operators.
use omni_desk_ai.Shared.{ℕ, String, Bool, Option, none, List, [], ◌∷◌}
use omni_desk_ai.Outbound.Defs.{
  Message, Outbox, Draft, create, claim_next, recover_stale_running, mark_sent,
  mark_sent_by_idempotency_key,
}
use omni_desk_ai.Outbound.Marks.{mark_failed, mark_ambiguous, requeue, cancel}
use omni_desk_ai.Outbound.Invariant.{
  IsValid, create-IsValid, claim_next-IsValid, recover_stale_running-IsValid, mark_sent-IsValid,
  mark_sent_by_idempotency_key-IsValid, mark_failed-IsValid, mark_ambiguous-IsValid,
  requeue-IsValid, cancel-IsValid,
}

-- One call of a method that can write, with the clock and the uuid that it reads.
pub data OutboundCall : Type 0 where
  create_call : ℕ → String → Draft → OutboundCall
  claim_call : ℕ → OutboundCall
  recover_call : ℕ → ℕ → OutboundCall
  sent_call : ℕ → String → Option String → Option String → OutboundCall
  sent_by_key_call : ℕ → String → Option String → Option String → OutboundCall
  failed_call : ℕ → String → String → Bool → String → OutboundCall
  ambiguous_call : ℕ → String → String → String → Option String → OutboundCall
  requeue_call : ℕ → String → OutboundCall
  cancel_call : ℕ → String → OutboundCall

-- The message that the call hands to a dispatcher, and the outbox after it.
unfoldable pub step : OutboundCall → Outbox → Option Message × Outbox
step (create_call now id d) s = (none, (create now id d s).1)
step (claim_call now) s = claim_next now s
step (recover_call now lease) s = (none, (recover_stale_running now lease s).1)
step (sent_call now id pm pr) s = (none, mark_sent now id pm pr s)
step (sent_by_key_call now key pm pr) s = (none, mark_sent_by_idempotency_key now key pm pr s)
step (failed_call now id error dead category) s =
    (none, (mark_failed now id error dead category s).1)
step (ambiguous_call now id error category request) s =
    (none, (mark_ambiguous now id error category request s).1)
step (requeue_call now id) s = (none, (requeue now id s).1)
step (cancel_call now id) s = (none, (cancel now id s).1)

unfoldable pub replay : List OutboundCall → Outbox → Outbox
replay [] s = s
replay (c ∷ cs) s = replay cs (step c s).1

-- the messages that a sequence of calls hands out
unfoldable pub handed_out : List OutboundCall → Outbox → List (Option Message)
handed_out [] s = []
handed_out (c ∷ cs) s = let (o, s') = step c s in let rest = handed_out cs s' in o ∷ rest

pub step-IsValid : (c : OutboundCall) (s : Outbox) → IsValid s → IsValid (step c s).1
unfolding step
step-IsValid (create_call now id d) s v = create-IsValid now id d s v
step-IsValid (claim_call now) s v = claim_next-IsValid now s v
step-IsValid (recover_call now lease) s v = recover_stale_running-IsValid now lease s v
step-IsValid (sent_call now id pm pr) s v = mark_sent-IsValid now id pm pr s v
step-IsValid (sent_by_key_call now key pm pr) s v =
    mark_sent_by_idempotency_key-IsValid now key pm pr s v
step-IsValid (failed_call now id error dead category) s v =
    mark_failed-IsValid now id error dead category s v
step-IsValid (ambiguous_call now id error category request) s v =
    mark_ambiguous-IsValid now id error category request s v
step-IsValid (requeue_call now id) s v = requeue-IsValid now id s v
step-IsValid (cancel_call now id) s v = cancel-IsValid now id s v

-- After any sequence of calls on a valid outbox the ids and the idempotency keys are unique, and each
-- row's retry count, retry time and lock agree with its status.
pub replay-IsValid : (cs : List OutboundCall) (s : Outbox) → IsValid s → IsValid (replay cs s)
unfolding replay
replay-IsValid [] s v = v
replay-IsValid (c ∷ cs) s v = replay-IsValid cs (step c s).1 (step-IsValid c s v)
