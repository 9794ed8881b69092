-- ===== src/Outbound/Parked.antt =====
-- Messages that no dispatcher may take: sent, ambiguous, dead-lettered or cancelled.
use omni_desk_ai.Shared.{
  ℕ, ◌∙◌, ◌≡◌, ◌≢◌, ◌⊎◌, refl, String, Bool, true, false, Option, none, some, List, [], ◌∷◌, arith,
  Option-cases, inl, inr, eq_iff, sym,
}
use omni_desk_ai.Shared.Text.{cut}
use omni_desk_ai.Shared.Table.{
  find, update, select, oldest, find-update, find-append, find-update_ne, find-update_col,
  find-select_skips,
}
use omni_desk_ai.Outbound.Defs.{
  Status, sent, cancelled, Message, Outbox, Draft, message_id, message_key, message_created_at,
  is_running, is_claimable, new_message, create, eligible, claim_row, claim_next, is_stale,
  recovered, recover_rows, recover_stale_running, retry_row, sent_row, mark_sent,
  mark_sent_by_idempotency_key,
}
use omni_desk_ai.Outbound.Marks.{
  mark_failed, mark_ambiguous, ambiguous_row, requeue, requeue_row, cancel, cancel_row,
}
use omni_desk_ai.Outbound.Invariant.{IsValid, claimed_row, id-retry_row}
use omni_desk_ai.Outbound.History.{
  OutboundCall, sent_call, sent_by_key_call, failed_call, ambiguous_call, requeue_call, cancel_call,
}

-- The message `id` with the idempotency key `key` stands in the status `st`, in which nobody may
-- claim it and nobody holds it.
pub record IsParked (id key : String) (st : Status) (s : Outbox) : Type 0 where
  pub row : Message
  pub found : find message_id id s.messages ≡ some row
  pub same_key : row.idempotency_key ≡ key
  pub in_status : row.status ≡ st
  pub unclaimable : is_claimable st ≡ false
  pub unheld : is_running st ≡ false

-- The call does not mark that message; it may requeue it only where it is sent, and cancel it only
-- where it is sent or cancelled.
abbrev pub Spares : String → String → Status → OutboundCall → Type 0
Spares id key st (sent_call now i pm pr) = i ≢ id
Spares id key st (sent_by_key_call now k pm pr) = key ≢ k
Spares id key st (failed_call now i error dead category) = i ≢ id
Spares id key st (ambiguous_call now i error category request) = i ≢ id
Spares id key st (requeue_call now i) = (i ≢ id) ⊎ (st ≡ sent)
Spares id key st (cancel_call now i) = (i ≢ id) ⊎ ((st ≡ sent) ⊎ (st ≡ cancelled))
Spares id key st _ = Unit

module _ (id key : String) (st : Status) where
  found-IsParked :
      (s s' : Outbox)
      → (h : IsParked id key st s) → find message_id id s'.messages ≡ some h.row
      → IsParked id key st s'
  found-IsParked s s' h e = record {
    row = h.row;
    found = e;
    same_key = h.same_key;
    in_status = h.in_status;
    unclaimable = h.unclaimable;
    unheld = h.unheld;
  }

  -- an UPDATE of another message
  pub update-IsParked :
      (i : String) (f : Message → Message) (s : Outbox)
      → ((m : Message) → (f m).id ≡ m.id)
      → i ≢ id
      → IsParked id key st s
      → IsParked id key st (record s { messages = update message_id i f s.messages })
  update-IsParked i f s keep n h =
      found-IsParked s _ h (find-update_ne message_id i id f s.messages keep n ∙ h.found)

  pub create-IsParked :
      (now : ℕ) (i : String) (d : Draft) (s : Outbox)
      → IsParked id key st s
      → IsParked id key st (create now i d s).1
  unfolding create
  create-IsParked now i d s h = found-IsParked s _ h (
      ground
        (arith, h.found, find-append message_id id s.messages (new_message now i d s.max_retries)))

  -- a claim finds its row eligible, so it is another
  pub claim_ne :
      (now : ℕ) (s : Outbox) {row : Message}
      → IsParked id key st s
      → find message_id row.id s.messages ≡ some row
      → eligible now row ≡ true
      → row.id ≢ id
  claim_ne now s {row} h found may e =
      let same : find message_id id s.messages ≡ some row = rw (← e) found in
      ground (arith, h.found, h.in_status, h.unclaimable)

  pub claim_next-IsParked :
      (now : ℕ) (s : Outbox)
      → IsValid s
      → IsParked id key st s
      → IsParked id key st (claim_next now s).1
  unfolding claim_next
  claim_next-IsParked now s v h =
      elim (Option-cases (oldest message_created_at (eligible now) s.messages)) [
        | inl e ↦ rw (e, claim_next) h
        | inr (row, e) ↦
            let (found, may, valid) = claimed_row now s v e in
            rw (e, claim_next)
              (update-IsParked row.id (claim_row now) s (λ m. refl) (claim_ne now s h found may) h)
      ]

  pub mark_failed-IsParked :
      (now : ℕ) (i error : String) (dead : Bool) (category : String) (s : Outbox)
      → i ≢ id
      → IsParked id key st s
      → IsParked id key st (mark_failed now i error dead category s).1
  unfolding mark_failed
  mark_failed-IsParked now i error dead category s n h =
      elim (Option-cases (find message_id i s.messages)) [
        | inl e ↦ rw (e, mark_failed) h
        | inr (row, e) ↦
            let t = cut 4000 error in
            rw (e, mark_failed)
              (update-IsParked i (retry_row now s.base_retry_seconds dead t t (some category) row) s
                (id-retry_row now s.base_retry_seconds dead t t (some category) row) n h)
      ]

  pub mark_ambiguous-IsParked :
      (now : ℕ) (i error category : String) (request : Option String) (s : Outbox)
      → i ≢ id
      → IsParked id key st s
      → IsParked id key st (mark_ambiguous now i error category request s).1
  unfolding mark_ambiguous
  mark_ambiguous-IsParked now i error category request s n h =
      elim (Option-cases (find message_id i s.messages)) [
        | inl e ↦ rw (e, mark_ambiguous) h
        | inr (row, e) ↦
            rw (e, mark_ambiguous)
              (update-IsParked i (ambiguous_row now error category request) s (λ m. refl) n h)
      ]

  pub requeue-IsParked :
      (now : ℕ) (i : String) (s : Outbox)
      → (i ≢ id) ⊎ (st ≡ sent)
      → IsParked id key st s
      → IsParked id key st (requeue now i s).1
  unfolding requeue
  requeue-IsParked now i s n h = found-IsParked s _ h (
      ground (
        arith,
        h.found,
        h.in_status,
        find-update message_id i id (requeue_row now) s.messages (λ m. refl),
        eq_iff i id,
      ))

  pub cancel-IsParked :
      (now : ℕ) (i : String) (s : Outbox)
      → (i ≢ id) ⊎ ((st ≡ sent) ⊎ (st ≡ cancelled))
      → IsParked id key st s
      → IsParked id key st (cancel now i s).1
  unfolding cancel
  cancel-IsParked now i s n h = found-IsParked s _ h (
      ground (
        arith,
        h.found,
        h.in_status,
        find-update message_id i id (cancel_row now) s.messages (λ m. refl),
        eq_iff i id,
      ))

  recover_rows_ne :
      (now base lease : ℕ) (rows t : List Message)
      → find message_id id rows ≡ none
      → find message_id id (recover_rows now base lease rows t) ≡ find message_id id t
  unfolding recover_rows find
  recover_rows_ne now base lease [] t n = refl
  recover_rows_ne now base lease (row ∷ rows) t n =
      let f = recovered now base lease row in
      recover_rows_ne now base lease rows (update message_id row.id f t) (ground arith)
      ∙ find-update_ne message_id row.id id f t (λ m. ground arith)
          (ground (arith, eq_iff row.id id))

  pub recover-IsParked :
      (now lease : ℕ) (s : Outbox)
      → IsValid s
      → IsParked id key st s
      → IsParked id key st (recover_stale_running now lease s).1
  unfolding recover_stale_running
  recover-IsParked now lease s v h = found-IsParked s _ h (
      recover_rows_ne now s.base_retry_seconds lease (select (is_stale now lease) s.messages)
        s.messages
        (find-select_skips message_id (is_stale now lease) id s.messages {r = h.row} v.ids h.found
          (ground (arith, h.in_status, h.unheld)))
      ∙ h.found)

  pub mark_sent-IsParked :
      (now : ℕ) (i : String) (pm pr : Option String) (s : Outbox)
      → i ≢ id
      → IsParked id key st s
      → IsParked id key st (mark_sent now i pm pr s)
  unfolding mark_sent
  mark_sent-IsParked now i pm pr s n h = update-IsParked i (sent_row now pm pr) s (λ m. refl) n h

  pub mark_sent_by_key-IsParked :
      (now : ℕ) (k : String) (pm pr : Option String) (s : Outbox)
      → key ≢ k
      → IsParked id key st s
      → IsParked id key st (mark_sent_by_idempotency_key now k pm pr s)
  unfolding mark_sent_by_idempotency_key
  mark_sent_by_key-IsParked now k pm pr s n h = found-IsParked s _ h (
      find-update_col message_id message_key k id (sent_row now pm pr) s.messages (λ m. refl)
        (λ e. n (sym h.same_key ∙ e)) h.found)
