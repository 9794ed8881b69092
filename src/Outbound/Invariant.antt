-- ===== src/Outbound/Invariant.antt =====
-- What holds of the outbox between two calls, and that every method keeps it.
use omni_desk_ai.Shared.{
  ℕ, ◌≤◌, ◌≡◌, refl, String, Bool, true, Option, some, List, [], ◌∷◌, arith, Option-cases, inl, inr,
  All, is_some,
}
use omni_desk_ai.Shared.Text.{cut}
use omni_desk_ai.Shared.Table.{
  find, update, select, oldest, IsUnique, IsCurrent, All-find, All-update, All-update_found,
  All-append, IsUnique-update, IsUnique-append, IsUnique-select, IsCurrent-select, IsCurrent-update,
  oldest-IsSelected, find-oldest,
}
use omni_desk_ai.Shared.Backoff.{retry_at}
use omni_desk_ai.Outbound.Defs.{
  pending, running, retry, ambiguous, Message, Outbox, Draft, message_id, message_key,
  message_created_at, is_running, new_message, create, eligible, claim_row, claim_next, is_stale,
  retry_row, recovered, recover_rows, recover_stale_running, sent_row, mark_sent,
  mark_sent_by_idempotency_key,
}
use omni_desk_ai.Outbound.Marks.{
  mark_failed, ambiguous_row, mark_ambiguous, requeue_row, requeue, cancel_row, cancel,
}

-- The columns of a row agree with its status.
pub record IsValidRow (base : ℕ) (m : Message) : Type 0 where
  pub pending_fresh : m.status ≡ pending → (m.retry_count ≡ 0) × (m.next_retry_at ≡ 0)
  pub retry_within : m.status ≡ retry → (1 ≤ m.retry_count) × (m.retry_count ≤ m.max_retries)
  pub retry_backoff : m.status ≡ retry → m.next_retry_at ≡ retry_at m.updated_at base m.retry_count
  pub running_within : m.status ≡ running → m.retry_count ≤ m.max_retries
  pub ambiguous_unscheduled : m.status ≡ ambiguous → m.next_retry_at ≡ 0
  pub locked_running : is_some m.locked_at ≡ is_running m.status

pub record IsValid (s : Outbox) : Type 0 where
  pub rows : All (IsValidRow s.base_retry_seconds) s.messages
  pub ids : IsUnique message_id s.messages
  pub keys : IsUnique message_key s.messages

pub create-IsValid :
    (now : ℕ) (id : String) (d : Draft) (s : Outbox) → IsValid s → IsValid (create now id d s).1
unfolding create
create-IsValid now id d s v =
    let m = new_message now id d s.max_retries in
    ground (
      arith,
      All-append (IsValidRow s.base_retry_seconds) s.messages m v.rows,
      IsUnique-append message_id s.messages m v.ids,
      IsUnique-append message_key s.messages m v.keys,
    )

-- An UPDATE by id that writes neither key keeps the invariant if it does so at the row it finds.
update-IsValid :
    (s : Outbox) (id : String) (f : Message → Message) {row : Message}
    → ((m : Message) → (f m).id ≡ m.id)
    → ((m : Message) → (f m).idempotency_key ≡ m.idempotency_key)
    → IsValid s
    → find message_id id s.messages ≡ some row
    → IsValidRow s.base_retry_seconds (f row)
    → IsValid (record s { messages = update message_id id f s.messages })
update-IsValid s id f keep_id keep_key v e r = record {
  rows =
      All-update_found message_id (IsValidRow s.base_retry_seconds) id f s.messages v.ids e v.rows
        r;
  ids = IsUnique-update message_id message_id id f s.messages keep_id v.ids;
  keys = IsUnique-update message_id message_key id f s.messages keep_key v.keys;
}

-- The row that a claim selects is found by its id, is eligible and is valid.
pub claimed_row :
    (now : ℕ) (s : Outbox) {row : Message}
    → IsValid s
    → oldest message_created_at (eligible now) s.messages ≡ some row
    → (find message_id row.id s.messages ≡ some row)
      × (eligible now row ≡ true)
      × IsValidRow s.base_retry_seconds row
claimed_row now s {row} v e =
    let found = find-oldest message_id message_created_at (eligible now) s.messages v.ids e in
    (
      found,
      (oldest-IsSelected message_created_at (eligible now) s.messages e).passes,
      All-find message_id (IsValidRow s.base_retry_seconds) row.id s.messages v.rows found,
    )

claim_row-IsValidRow :
    (now base : ℕ) (m : Message)
    → eligible now m ≡ true
    → IsValidRow base m
    → IsValidRow base (claim_row now m)
claim_row-IsValidRow now base m e v = ground arith

pub claim_next-IsValid : (now : ℕ) (s : Outbox) → IsValid s → IsValid (claim_next now s).1
unfolding claim_next
claim_next-IsValid now s v =
    elim (Option-cases (oldest message_created_at (eligible now) s.messages)) [
      | inl e ↦ rw (e, claim_next) v
      | inr (row, e) ↦
          let (found, may, valid) = claimed_row now s v e in
          rw (e, claim_next)
            (update-IsValid s row.id (claim_row now) (λ m. refl) (λ m. refl) v found
              (claim_row-IsValidRow now s.base_retry_seconds row may valid))
    ]

module _ (now base : ℕ) (dead : Bool) (e d : String) (c : Option String) (row : Message) where
  retry_row-IsValidRow : IsValidRow base (retry_row now base dead e d c row row)
  retry_row-IsValidRow = ground arith

  pub id-retry_row : (m : Message) → (retry_row now base dead e d c row m).id ≡ m.id
  id-retry_row m = ground arith

  key-retry_row :
      (m : Message) → (retry_row now base dead e d c row m).idempotency_key ≡ m.idempotency_key
  key-retry_row m = ground arith

pub mark_failed-IsValid :
    (now : ℕ) (id error : String) (dead : Bool) (category : String) (s : Outbox)
    → IsValid s
    → IsValid (mark_failed now id error dead category s).1
unfolding mark_failed
mark_failed-IsValid now id error dead category s v =
    elim (Option-cases (find message_id id s.messages)) [
      | inl e ↦ rw (e, mark_failed) v
      | inr (row, e) ↦
          let t = cut 4000 error in
          let b = s.base_retry_seconds in
          let c = some category in
          rw (e, mark_failed)
            (update-IsValid s id (retry_row now b dead t t c row)
              (id-retry_row now b dead t t c row) (key-retry_row now b dead t t c row) v e
              (retry_row-IsValidRow now b dead t t c row))
    ]

pub mark_ambiguous-IsValid :
    (now : ℕ) (id error category : String) (request : Option String) (s : Outbox)
    → IsValid s
    → IsValid (mark_ambiguous now id error category request s).1
unfolding mark_ambiguous
mark_ambiguous-IsValid now id error category request s v =
    elim (Option-cases (find message_id id s.messages)) [
      | inl e ↦ rw (e, mark_ambiguous) v
      | inr (row, e) ↦
          rw (e, mark_ambiguous)
            (update-IsValid s id (ambiguous_row now error category request) (λ m. refl) (λ m. refl)
              v e (ground arith))
    ]

pub requeue-IsValid :
    (now : ℕ) (id : String) (s : Outbox) → IsValid s → IsValid (requeue now id s).1
unfolding requeue
requeue-IsValid now id s v = elim (Option-cases (find message_id id s.messages)) [
  | inl e ↦ rw (e, requeue) v
  | inr (row, e) ↦
      rw (e, requeue)
        (ground
          (arith, update-IsValid s id (requeue_row now) (λ m. refl) (λ m. refl) v e (ground arith)))
]

pub cancel-IsValid : (now : ℕ) (id : String) (s : Outbox) → IsValid s → IsValid (cancel now id s).1
unfolding cancel
cancel-IsValid now id s v = elim (Option-cases (find message_id id s.messages)) [
  | inl e ↦ rw (e, cancel) v
  | inr (row, e) ↦
      rw (e, cancel)
        (ground
          (arith, update-IsValid s id (cancel_row now) (λ m. refl) (λ m. refl) v e (ground arith)))
]

-- An UPDATE to `sent` is valid at any row, found by either column.
sent-IsValid :
    (col : Message → String) (now : ℕ) (k : String) (pm pr : Option String) (s : Outbox)
    → IsValid s
    → IsValid (record s { messages = update col k (sent_row now pm pr) s.messages })
sent-IsValid col now k pm pr s v = record {
  rows =
      All-update col (IsValidRow s.base_retry_seconds) k (sent_row now pm pr) s.messages
        (λ m _ _. ground arith) v.rows;
  ids = IsUnique-update col message_id k (sent_row now pm pr) s.messages (λ m. refl) v.ids;
  keys = IsUnique-update col message_key k (sent_row now pm pr) s.messages (λ m. refl) v.keys;
}

pub mark_sent-IsValid :
    (now : ℕ) (id : String) (pm pr : Option String) (s : Outbox)
    → IsValid s
    → IsValid (mark_sent now id pm pr s)
unfolding mark_sent
mark_sent-IsValid now id pm pr s v = sent-IsValid message_id now id pm pr s v

pub mark_sent_by_idempotency_key-IsValid :
    (now : ℕ) (key : String) (pm pr : Option String) (s : Outbox)
    → IsValid s
    → IsValid (mark_sent_by_idempotency_key now key pm pr s)
unfolding mark_sent_by_idempotency_key
mark_sent_by_idempotency_key-IsValid now key pm pr s v = sent-IsValid message_key now key pm pr s v

-- While the loop of `recover_stale_running` runs, the rows still to come are as they were selected.
recover_rows-IsValid :
    (now lease : ℕ) (rows : List Message) (s : Outbox)
    → IsValid s
    → IsUnique message_id rows
    → IsCurrent message_id s.messages rows
    → IsValid (record s { messages = recover_rows now s.base_retry_seconds lease rows s.messages })
unfolding recover_rows
recover_rows-IsValid now lease [] s v u c = v
recover_rows-IsValid now lease (row ∷ rows) s v u c =
    let f = recovered now s.base_retry_seconds lease row in
    recover_rows-IsValid now lease rows
      (record s { messages = update message_id row.id f s.messages })
      (update-IsValid s row.id f (λ m. ground arith) (λ m. ground arith) v c.0 (ground arith)) u.1
      (IsCurrent-update message_id row.id f s.messages rows (λ m. ground arith) u.0 c.1)

pub recover_stale_running-IsValid :
    (now lease : ℕ) (s : Outbox) → IsValid s → IsValid (recover_stale_running now lease s).1
unfolding recover_stale_running
recover_stale_running-IsValid now lease s v =
    recover_rows-IsValid now lease (select (is_stale now lease) s.messages) s v
      (IsUnique-select message_id (is_stale now lease) s.messages v.ids)
      (IsCurrent-select message_id (is_stale now lease) s.messages v.ids)
