-- ===== src/Postgres/Outbound/Agree.antt =====
-- The outbound queue over Postgres does what the one over SQLite does.
use omni_desk_ai.Shared.{
  ℕ, ◌<◌, ◌≡◌, refl, ap, ◌∙◌, String, Bool, Option, none, some, arith, Option-cases, Bool-cases,
  inl, inr, All, Result, ok, err,
}
use omni_desk_ai.Shared.Text.{cut, truthy}
use omni_desk_ai.Shared.Table.{
  find, update, oldest, update-const, update-none, find-oldest, find-other, update-other, All-find,
}
use omni_desk_ai.Outbound.{
  Message, Outbox, OutboundError, key_error, bad_status, Draft, message_id, message_key,
  message_created_at, insert_or_ignore, create, eligible, claim_row, claim_next, retry_row,
  sent_row, mark_sent, mark_sent_by_idempotency_key, marked_failed, mark_failed, ambiguous_row,
  mark_ambiguous, can_requeue, requeue_row, requeue, can_cancel, cancel_row, cancel,
}
use omni_desk_ai.Outbound.Invariant.{IsValid}
use omni_desk_ai.Postgres.State.{insert_once, claim_ready_by_status}
use omni_desk_ai.Postgres.Locked.{update_locked-none, update_locked_raises, update_locked_writes}
use omni_desk_ai.Postgres.Jobs.Agree.{or_number-keeps}
use omni_desk_ai.Postgres.Outbound.{
  with_messages, pg_create, pg_claim_message, update_by_id, pg_mark_sent,
  pg_mark_sent_by_idempotency_key, pg_failed_message, marked_of, pg_mark_failed, pg_mark_ambiguous,
  retry_current, pg_requeue, cancel_current, pg_cancel,
}

module _ (id : String) (f : Message → Result OutboundError Message) (s : Outbox) where
  update_by_id-none :
      find message_id id s.messages ≡ none → update_by_id id f s ≡ (err (key_error id), s)
  unfolding update_by_id
  update_by_id-none h = rw (update_by_id, h) refl

  module _ {r : Message} (v : IsValid s) (h : find message_id id s.messages ≡ some r) where
    by_key : find message_key r.idempotency_key s.messages ≡ some r
    by_key = find-other message_id message_key id s.messages v.keys h

    update_by_id_raises : {e : OutboundError} → f r ≡ err e → update_by_id id f s ≡ (err e, s)
    unfolding update_by_id
    update_by_id_raises p =
        let w =
          update_locked_raises message_key (key_error r.idempotency_key) r.idempotency_key f
            s.messages by_key p in
        rw (update_by_id, h, w) refl

    -- The row is written by its idempotency key, which is to write it by its id.
    update_by_id_writes :
        (g : Message → Message)
        → f r ≡ ok (g r)
        → update_by_id id f s ≡ (ok (g r), with_messages (update message_id id g s.messages) s)
    unfolding update_by_id
    update_by_id_writes g p =
        let w =
          update_locked_writes message_key (key_error r.idempotency_key) r.idempotency_key f
            s.messages g v.keys by_key p in
        let o = update-other message_id message_key id g s.messages v.ids v.keys h in
        rw (update_by_id, h, w) (ap (λ t. (ok (g r), with_messages t s)) o)

pub pg_create-create :
    (now : ℕ) (id : String) (d : Draft) (s : Outbox)
    → find message_id id s.messages ≡ none
    → (pg_create now id d s).1 ≡ (create now id d s).1
unfolding pg_create insert_once create insert_or_ignore
pg_create-create now id d s n = ground arith

pub pg_claim-claim : (now : ℕ) (s : Outbox) → IsValid s → pg_claim_message now s ≡ claim_next now s
unfolding pg_claim_message claim_ready_by_status claim_next
pg_claim-claim now s v = elim (Option-cases (oldest message_created_at (eligible now) s.messages)) [
  | inl e ↦ rw (e, claim_ready_by_status, claim_next) refl
  | inr (r, e) ↦
      let f = find-oldest message_id message_created_at (eligible now) s.messages v.ids e in
      let o =
        update-other message_id message_key r.id (λ _. claim_row now r) s.messages v.ids v.keys f
        ∙ update-const message_id r.id (claim_row now) s.messages v.ids f in
      rw (e, claim_ready_by_status, claim_next, o) refl
]

pub pg_mark_sent-mark_sent :
    (now : ℕ) (id : String) (pm pr : Option String) (s : Outbox)
    → IsValid s
    → (pg_mark_sent now id pm pr s).1 ≡ mark_sent now id pm pr s
unfolding pg_mark_sent mark_sent
pg_mark_sent-mark_sent now id pm pr s v =
    let f : Message → Result OutboundError Message = λ m. ok (sent_row now pm pr m) in
    elim (Option-cases (find message_id id s.messages)) [
      | inl e ↦
          let w = update_by_id-none id f s e in
          rw
            (
              pg_mark_sent,
              w,
              mark_sent,
              update-none message_id id (sent_row now pm pr) s.messages e,
            )
            refl
      | inr (r, e) ↦
          let w = update_by_id_writes id f s v e (sent_row now pm pr) refl in
          rw (pg_mark_sent, w, mark_sent) refl
    ]

pub pg_sent_by_key-sent_by_key :
    (now : ℕ) (key : String) (pm pr : Option String) (s : Outbox)
    → IsValid s
    → (pg_mark_sent_by_idempotency_key now key pm pr s).1
      ≡ mark_sent_by_idempotency_key now key pm pr s
unfolding pg_mark_sent_by_idempotency_key mark_sent_by_idempotency_key
pg_sent_by_key-sent_by_key now key pm pr s v =
    let f : Message → Result OutboundError Message = λ m. ok (sent_row now pm pr m) in
    elim (Option-cases (find message_key key s.messages)) [
      | inl e ↦
          let w = update_locked-none message_key (key_error key) key f s.messages e in
          rw
            (
              pg_mark_sent_by_idempotency_key,
              w,
              mark_sent_by_idempotency_key,
              update-none message_key key (sent_row now pm pr) s.messages e,
            )
            refl
      | inr (r, e) ↦
          let w =
            update_locked_writes message_key (key_error key) key f s.messages (sent_row now pm pr)
              v.keys e refl in
          rw (pg_mark_sent_by_idempotency_key, w, mark_sent_by_idempotency_key) refl
    ]

pub pg_ambiguous-ambiguous :
    (now : ℕ) (id error category : String) (request : Option String) (s : Outbox)
    → truthy request ≡ request
    → IsValid s
    → pg_mark_ambiguous now id error category request s
      ≡ mark_ambiguous now id error category request s
unfolding pg_mark_ambiguous mark_ambiguous
pg_ambiguous-ambiguous now id error category request s t v =
    let f : Message → Result OutboundError Message =
      λ m. ok (ambiguous_row now error category (truthy request) m) in
    elim (Option-cases (find message_id id s.messages)) [
      | inl e ↦
          let w = update_by_id-none id f s e in rw (pg_mark_ambiguous, w, mark_ambiguous, e) refl
      | inr (r, e) ↦
          let w =
            update_by_id_writes id f s v e (ambiguous_row now error category (truthy request))
              refl in
          rw (pg_mark_ambiguous, w, mark_ambiguous, e, t) refl
    ]

pub pg_requeue-requeue_message :
    (now : ℕ) (id : String) (s : Outbox) → IsValid s → pg_requeue now id s ≡ requeue now id s
unfolding pg_requeue requeue
pg_requeue-requeue_message now id s v = elim (Option-cases (find message_id id s.messages)) [
  | inl e ↦
      let w = update_by_id-none id (retry_current now id) s e in rw (pg_requeue, w, requeue, e) refl
  | inr (r, e) ↦ elim (Bool-cases (can_requeue r.status)) [
    | inl c ↦
        let w = update_by_id_writes id (retry_current now id) s v e (requeue_row now) (rw c refl) in
        rw (pg_requeue, w, requeue, e, c) refl
    | inr c ↦
        let w =
          update_by_id_raises id (retry_current now id) s v e {e = bad_status r.status id}
            (rw c refl) in
        rw (pg_requeue, w, requeue, e, c) refl
  ]
]

pub pg_cancel-cancel :
    (now : ℕ) (id : String) (s : Outbox) → IsValid s → pg_cancel now id s ≡ cancel now id s
unfolding pg_cancel cancel
pg_cancel-cancel now id s v = elim (Option-cases (find message_id id s.messages)) [
  | inl e ↦
      let w = update_by_id-none id (cancel_current now id) s e in rw (pg_cancel, w, cancel, e) refl
  | inr (r, e) ↦ elim (Bool-cases (can_cancel r.status)) [
    | inl c ↦
        let w = update_by_id_writes id (cancel_current now id) s v e (cancel_row now) (rw c refl) in
        rw (pg_cancel, w, cancel, e, c) refl
    | inr c ↦
        let w =
          update_by_id_raises id (cancel_current now id) s v e {e = bad_status r.status id}
            (rw c refl) in
        rw (pg_cancel, w, cancel, e, c) refl
  ]
]

abbrev failure : ℕ → ℕ → Bool → String → String → Message → Message
failure now base dead error category m =
    retry_row now base dead (cut 4000 error) (cut 4000 error) (some category) m m

-- A retry limit above 0 is kept.
pg_failed_message-keeps :
    (now : ℕ) (s : Outbox) (dead : Bool) (error category : String) (m : Message)
    → 0 < m.max_retries
    → pg_failed_message now s dead error category m
      ≡ failure now s.base_retry_seconds dead error category m
unfolding pg_failed_message
pg_failed_message-keeps now s dead error category m h =
    ap
      (λ k.
        retry_row now s.base_retry_seconds dead (cut 4000 error) (cut 4000 error) (some category)
          (record m { max_retries = k }) m)
      (or_number-keeps m.max_retries s.max_retries h)

marked_of-marked :
    (now base : ℕ) (dead : Bool) (error category : String) (m : Message)
    → marked_of (failure now base dead error category m) ≡ marked_failed now base dead m
marked_of-marked now base dead error category m = ground arith

pub pg_failed-failed :
    (now : ℕ) (id error : String) (dead : Bool) (category : String) (s : Outbox)
    → IsValid s
    → All (λ m. 0 < m.max_retries) s.messages
    → pg_mark_failed now id error dead category s ≡ mark_failed now id error dead category s
unfolding pg_mark_failed mark_failed
pg_failed-failed now id error dead category s v a =
    let f : Message → Result OutboundError Message =
      λ m. ok (pg_failed_message now s dead error category m) in
    let base = s.base_retry_seconds in
    elim (Option-cases (find message_id id s.messages)) [
      | inl e ↦ let w = update_by_id-none id f s e in rw (pg_mark_failed, w, mark_failed, e) refl
      | inr (r, e) ↦
          let g = retry_row now base dead (cut 4000 error) (cut 4000 error) (some category) r in
          let k =
            pg_failed_message-keeps now s dead error category r
              (All-find message_id (λ m. 0 < m.max_retries) id s.messages a e) in
          let w = update_by_id_writes id f s v e g (ap ok k) in
          rw (pg_mark_failed, w, mark_failed, e, marked_of-marked now base dead error category r)
            refl
    ]
