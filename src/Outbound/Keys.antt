-- ===== src/Outbound/Keys.antt =====
-- `create` and the idempotency key.
use omni_desk_ai.Shared.{
  ℕ, ◌≡◌, ◌∙◌, refl, sym, String, Option, none, some, List, [], ◌∷◌, arith, ok, Option-cases, inl,
  inr,
}
use omni_desk_ai.Shared.Text.{cut, truthy}
use omni_desk_ai.Shared.Table.{find, update, select, oldest, find-append}
use omni_desk_ai.Outbound.Defs.{
  Message, Outbox, Draft, message_id, message_key, message_created_at, key_of, new_message,
  insert_or_ignore, create, eligible, claim_row, claim_next, is_stale, recovered, recover_rows,
  recover_stale_running, retry_row, sent_row, mark_sent, mark_sent_by_idempotency_key,
}
use omni_desk_ai.Outbound.Marks.{
  mark_failed, mark_ambiguous, ambiguous_row, requeue, requeue_row, cancel, cancel_row,
}
use omni_desk_ai.Outbound.History.{
  OutboundCall, create_call, claim_call, recover_call, sent_call, sent_by_key_call, failed_call,
  ambiguous_call, requeue_call, cancel_call, step, replay,
}

-- the id of the first row under the key
unfoldable id_under : String → List Message → Option String
id_under key t = elim (find message_key key t) [ none ↦ none | some row ↦ some row.id ]

-- the UPDATE writes neither key
abbrev Keeps : (Message → Message) → Type 0
Keeps f = (m : Message) → ((f m).idempotency_key ≡ m.idempotency_key) × ((f m).id ≡ m.id)

module _ (key : String) where
  id_under-update :
      (col : Message → String) (k : String) (f : Message → Message) (t : List Message)
      → Keeps f
      → id_under key (update col k f t) ≡ id_under key t
  unfolding id_under find update
  id_under-update col k f [] keep = refl
  id_under-update col k f (m ∷ t) keep =
      ground (arith, (keep m).0, (keep m).1, id_under-update col k f t keep)

  id_under-recover_rows :
      (now base lease : ℕ) (rows t : List Message)
      → id_under key (recover_rows now base lease rows t) ≡ id_under key t
  unfolding recover_rows
  id_under-recover_rows now base lease [] t = refl
  id_under-recover_rows now base lease (row ∷ rows) t =
      let f = recovered now base lease row in
      id_under-recover_rows now base lease rows (update message_id row.id f t)
      ∙ id_under-update message_id row.id f t (λ m. (ground arith, ground arith))

  id_under-insert :
      (m : Message) (t : List Message) {id : String}
      → id_under key t ≡ some id
      → id_under key (insert_or_ignore m t) ≡ some id
  unfolding id_under insert_or_ignore
  id_under-insert m t e = ground (arith, find-append message_key key t m)

  -- Once a message has the key, no call gives the key to another.
  step-id_under :
      (c : OutboundCall) (s : Outbox) {id : String}
      → id_under key s.messages ≡ some id
      → id_under key (step c s).1.messages ≡ some id
  unfolding step create claim_next recover_stale_running mark_sent mark_sent_by_idempotency_key
      mark_failed mark_ambiguous requeue cancel
  step-id_under (create_call now i d) s e =
      id_under-insert (new_message now i d s.max_retries) s.messages e
  step-id_under (claim_call now) s e =
      elim (Option-cases (oldest message_created_at (eligible now) s.messages)) [
        | inl n ↦ rw (n, claim_next) e
        | inr (row, n) ↦
            rw (n, claim_next)
              (id_under-update message_id row.id (claim_row now) s.messages (λ m. (refl, refl)) ∙ e)
      ]
  step-id_under (recover_call now lease) s e =
      id_under-recover_rows now s.base_retry_seconds lease (select (is_stale now lease) s.messages)
        s.messages
      ∙ e
  step-id_under (sent_call now i pm pr) s e =
      id_under-update message_id i (sent_row now pm pr) s.messages (λ m. (refl, refl)) ∙ e
  step-id_under (sent_by_key_call now k pm pr) s e =
      id_under-update message_key k (sent_row now pm pr) s.messages (λ m. (refl, refl)) ∙ e
  step-id_under (failed_call now i error dead category) s e =
      elim (Option-cases (find message_id i s.messages)) [
        | inl n ↦ rw (n, mark_failed) e
        | inr (row, n) ↦
            let t = cut 4000 error in
            rw (n, mark_failed)
              (id_under-update message_id i
                  (retry_row now s.base_retry_seconds dead t t (some category) row) s.messages
                  (λ m. (ground arith, ground arith))
                ∙ e)
      ]
  step-id_under (ambiguous_call now i error category request) s e =
      elim (Option-cases (find message_id i s.messages)) [
        | inl n ↦ rw (n, mark_ambiguous) e
        | inr (row, n) ↦
            rw (n, mark_ambiguous)
              (id_under-update message_id i (ambiguous_row now error category request) s.messages
                  (λ m. (refl, refl))
                ∙ e)
      ]
  step-id_under (requeue_call now i) s e =
      ground
        (arith, e, id_under-update message_id i (requeue_row now) s.messages (λ m. (refl, refl)))
  step-id_under (cancel_call now i) s e =
      ground
        (arith, e, id_under-update message_id i (cancel_row now) s.messages (λ m. (refl, refl)))

  replay-id_under :
      (cs : List OutboundCall) (s : Outbox) {id : String}
      → id_under key s.messages ≡ some id
      → id_under key (replay cs s).messages ≡ some id
  unfolding replay
  replay-id_under [] s e = e
  replay-id_under (c ∷ cs) s e = replay-id_under cs (step c s).1 (step-id_under c s e)

-- After `create` has returned an id, the table has that id under the key.
create-id_under :
    (now : ℕ) (id : String) (d : Draft) (s : Outbox) {i : String}
    → (create now id d s).0 ≡ ok i
    → id_under (key_of id d) (create now id d s).1.messages ≡ some i
unfolding create id_under
create-id_under now id d s {i} e =
    elim (Option-cases (
      find message_key (key_of id d)
        (insert_or_ignore (new_message now id d s.max_retries) s.messages))) [
          | inl n ↦ ground arith
          | inr (row, f) ↦ ground arith
        ]

-- A create under a key that is in use returns the id of its message and inserts nothing.
create_known :
    (now : ℕ) (id : String) (d : Draft) (s : Outbox) {i : String}
    → id_under (key_of id d) s.messages ≡ some i
    → create now id d s ≡ (ok i, s)
unfolding create insert_or_ignore id_under
create_known now id d s e = ground arith

key_of_given :
    (id : String) (d : Draft) {k : String} → truthy d.idempotency_key ≡ some k → key_of id d ≡ k
key_of_given id d e = ground (arith)

-- After `create` has returned an id for a draft with an idempotency key, and any other calls, any
-- later `create` with that key, whatever its recipient and payload, returns the same id and inserts
-- nothing.
pub create-create :
    (now now' : ℕ) (id id' : String) (d d' : Draft) (cs : List OutboundCall) (s : Outbox)
    {k i : String}
    → truthy d.idempotency_key ≡ some k
    → truthy d'.idempotency_key ≡ some k
    → (create now id d s).0 ≡ ok i
    → create now' id' d' (replay cs (create now id d s).1) ≡ (ok i, replay cs (create now id d s).1)
create-create now now' id id' d d' cs s {k} {i} e e' done =
    let one_key = key_of_given id d e ∙ sym (key_of_given id' d' e') in
    let s1 = (create now id d s).1 in
    create_known now' id' d' (replay cs s1)
      (rw (← one_key) (replay-id_under (key_of id d) cs s1 (create-id_under now id d s done)))
