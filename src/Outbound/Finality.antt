-- ===== src/Outbound/Finality.antt =====
-- What sequences of calls do with a message that is settled, and with one that is cancelled in flight.
use omni_desk_ai.Shared.{
  ℕ, ◌<◌, ◌≡◌, ◌≢◌, refl, String, Bool, false, some, List, [], ◌∷◌, arith, All, ok,
}
use omni_desk_ai.Shared.Text.{cut}
use omni_desk_ai.Shared.Table.{find, update, find-update_found}
use omni_desk_ai.Outbound.Defs.{
  Status, Message, Outbox, retry, running, cancelled, message_id, retry_row,
}
use omni_desk_ai.Outbound.Marks.{mark_failed, cancel, cancel_row}
use omni_desk_ai.Outbound.Invariant.{IsValid, claimed_row, id-retry_row}
use omni_desk_ai.Outbound.Outcomes.{claimed-oldest}
use omni_desk_ai.Outbound.History.{
  OutboundCall, create_call, claim_call, recover_call, sent_call, sent_by_key_call, failed_call,
  ambiguous_call, requeue_call, cancel_call, step, replay, handed_out, step-IsValid,
}
use omni_desk_ai.Outbound.Parked.{
  IsParked, Spares, create-IsParked, claim_ne, claim_next-IsParked, mark_failed-IsParked,
  mark_ambiguous-IsParked, requeue-IsParked, cancel-IsParked, recover-IsParked, mark_sent-IsParked,
  mark_sent_by_key-IsParked,
}

module _ (id key : String) (st : Status) where
  step_not_handed :
      (c : OutboundCall) (s : Outbox) {row : Message}
      → IsValid s
      → IsParked id key st s
      → (step c s).0 ≡ some row
      → row.id ≢ id
  unfolding step
  step_not_handed (claim_call now) s {row} v h e =
      let spec = claimed_row now s {row = row} v (claimed-oldest now s e) in
      claim_ne id key st now s h spec.0 spec.1
  step_not_handed _ s v h e = ground arith

  step-IsParked :
      (c : OutboundCall) (s : Outbox)
      → Spares id key st c
      → IsValid s
      → IsParked id key st s
      → IsParked id key st (step c s).1
  unfolding step
  step-IsParked (create_call now i d) s n v h = create-IsParked id key st now i d s h
  step-IsParked (claim_call now) s n v h = claim_next-IsParked id key st now s v h
  step-IsParked (recover_call now lease) s n v h = recover-IsParked id key st now lease s v h
  step-IsParked (sent_call now i pm pr) s n v h = mark_sent-IsParked id key st now i pm pr s n h
  step-IsParked (sent_by_key_call now k pm pr) s n v h =
      mark_sent_by_key-IsParked id key st now k pm pr s n h
  step-IsParked (failed_call now i error dead category) s n v h =
      mark_failed-IsParked id key st now i error dead category s n h
  step-IsParked (ambiguous_call now i error category request) s n v h =
      mark_ambiguous-IsParked id key st now i error category request s n h
  step-IsParked (requeue_call now i) s n v h = requeue-IsParked id key st now i s n h
  step-IsParked (cancel_call now i) s n v h = cancel-IsParked id key st now i s n h

  -- A message that is sent, ambiguous, dead-lettered or cancelled is not handed to a dispatcher by any
  -- sequence of calls on a valid outbox, and keeps its status, if none of them marks it (sent, failed
  -- or ambiguous), requeues it unless it is sent, or cancels it unless it is sent or cancelled. So a
  -- sent message is final even under requeues and cancels, and an ambiguous one waits for an operator.
  pub status_final :
      (cs : List OutboundCall) (s : Outbox)
      → All (Spares id key st) cs
      → IsValid s
      → IsParked id key st s
      → All (λ o. (row : Message) → o ≡ some row → row.id ≢ id) (handed_out cs s)
        × IsParked id key st (replay cs s)
  unfolding handed_out replay
  status_final [] s n v h = (tt, h)
  status_final (c ∷ cs) s n v h =
      let (none_out, still) =
        status_final cs (step c s).1 n.1 (step-IsValid c s v) (step-IsParked c s n.0 v h) in
      (((λ row e. step_not_handed c s v h e), none_out), still)

cancel_running :
    (now : ℕ) (s : Outbox) {m : Message}
    → find message_id m.id s.messages ≡ some m
    → m.status ≡ running
    → cancel now m.id s
      ≡ (ok cancelled, record s { messages = update message_id m.id (cancel_row now) s.messages })
unfolding cancel
cancel_running now s {m} e r = ground arith

find-mark_failed :
    (now : ℕ) (id error category : String) (dead : Bool) (s : Outbox) {row : Message}
    → find message_id id s.messages ≡ some row
    → find message_id id (mark_failed now id error dead category s).1.messages
      ≡ some (
          retry_row now s.base_retry_seconds dead
            (cut 4000 error)
            (cut 4000 error)
            (some category)
            row
            row)
unfolding mark_failed
find-mark_failed now id error category dead s {row} e =
    let t = cut 4000 error in
    let f = retry_row now s.base_retry_seconds dead t t (some category) row in
    rw (e, mark_failed)
      (find-update_found message_id id f s.messages
        (id-retry_row now s.base_retry_seconds dead t t (some category) row) e)

-- `cancel` accepts a message that a dispatcher is sending, and `mark_failed` does not look at the
-- status. If that send then fails with an error that is retried, and the message has retries left,
-- the cancelled message is back in the status retry, from which it is claimed and sent.
pub mark_failed_undoes_cancel :
    (now later : ℕ) (error category : String) (s : Outbox) {m : Message}
    → find message_id m.id s.messages ≡ some m
    → m.status ≡ running
    → m.retry_count < m.max_retries
    → ((cancel now m.id s).0 ≡ ok cancelled)
      × ((row' : Message) × (find message_id m.id
              (mark_failed later m.id error false category (cancel now m.id s).1).1.messages
            ≡ some row')
          × (row'.status ≡ retry))
mark_failed_undoes_cancel now later error category s {m} e r h =
    let e' = cut 4000 error in
    let row = cancel_row now m in
    simp (cancel_running now s e r) (
      refl,
      (
        retry_row later s.base_retry_seconds false e' e' (some category) row row,
        find-mark_failed later m.id error category false
            (record s { messages = update message_id m.id (cancel_row now) s.messages })
            (find-update_found message_id m.id (cancel_row now) s.messages (λ x. refl) e),
        ground arith,
      ),
    )
