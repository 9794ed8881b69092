-- ===== src/Idempotency/Rows.antt =====
-- What the methods of an idempotency store make of one row.
use omni_desk_ai.Shared.{
  ℕ, ◌≡◌, ◌≢◌, ◌⊎◌, ◌<◌, refl, ◌∙◌, String, none, some, List, arith, eq_iff, Option-cases,
  Result-cases, ok, inl, inr,
}
use omni_desk_ai.Shared.Table.{
  find, delete, IsUnique, find-delete, find-append, find-update, key-find,
}
use omni_desk_ai.Idempotency.Defs.{
  Request, Entry, IdempotencyStore, entry_scope, has_expired, reply_of, new_entry, begin_scope,
  complete_entry, if_running, complete_scope, fail_scope, is_failing,
}

-- A clean-up leaves a row that has not expired.
pub find-expire :
    (now : ℕ) (scope : String) (t : List Entry) {e : Entry}
    → IsUnique entry_scope t
    → find entry_scope scope t ≡ some e
    → now < e.expires_at
    → find entry_scope scope (delete (has_expired now) t) ≡ some e
find-expire now scope t {e} u f l =
    ground (arith, find-delete entry_scope (has_expired now) scope t u, f)

-- `begin` leaves a row that has not expired, whichever scope it is for.
pub find-begin_scope :
    (now : ℕ) (sc : String) (r : Request) (hash scope : String) (s : IdempotencyStore) {e : Entry}
    → IsUnique entry_scope s.entries
    → find entry_scope scope s.entries ≡ some e
    → now < e.expires_at
    → find entry_scope scope (begin_scope now sc r hash s).1.entries ≡ some e
unfolding begin_scope
find-begin_scope now sc r hash scope s {e} u f l =
    let t = delete (has_expired now) s.entries in
    let g = find-expire now scope s.entries u f l in
    elim (Option-cases (find entry_scope sc t)) [
      | inl n ↦
          rw (n, begin_scope)
            (find-append entry_scope scope t (new_entry now sc r hash s.ttl_seconds) ∙ rw g refl)
      | inr (x, n) ↦ elim (Result-cases (reply_of hash x)) [
        | inl (y, k) ↦ rw (n, k, begin_scope) g
        | inr (y, k) ↦ rw (n, k, begin_scope) f
      ]
    ]

-- A row that has not expired keeps its scope from being let go on.
pub begin_scope_refused :
    (now : ℕ) (r : Request) (hash scope : String) (s : IdempotencyStore) {e : Entry}
    → IsUnique entry_scope s.entries
    → find entry_scope scope s.entries ≡ some e
    → now < e.expires_at
    → (begin_scope now scope r hash s).0 ≡ reply_of hash e
unfolding begin_scope
begin_scope_refused now r hash scope s {e} u f l =
    ground (arith, find-expire now scope s.entries u f l)

pub reply_of_refuses : (hash : String) (e : Entry) → reply_of hash e ≢ ok none
unfolding reply_of
reply_of_refuses hash e h = ground arith

-- What `complete` makes of a row: it is as it was, or completed with a new expiry.
pub find-complete_scope :
    (now : ℕ) (sc text scope : String) (s : IdempotencyStore) {e : Entry}
    → find entry_scope scope s.entries ≡ some e
    → (find entry_scope scope (complete_scope now sc text s).entries ≡ some e)
      ⊎ (find entry_scope scope (complete_scope now sc text s).entries
          ≡ some (complete_entry now s.ttl_seconds text e))
unfolding complete_scope
find-complete_scope now sc text scope s {e} f = ground (
  arith,
  f,
  find-update entry_scope sc scope (if_running (complete_entry now s.ttl_seconds text)) s.entries
      (λ e. ground arith),
)

pub find-fail_scope :
    (sc scope : String) (s : IdempotencyStore) {e : Entry}
    → IsUnique entry_scope s.entries
    → find entry_scope scope s.entries ≡ some e
    → sc ≢ scope
    → find entry_scope scope (fail_scope sc s).entries ≡ some e
unfolding fail_scope
find-fail_scope sc scope s {e} u f n = ground (
  arith,
  find-delete entry_scope (is_failing sc) scope s.entries u,
  key-find entry_scope scope s.entries f,
  eq_iff e.scope_key sc,
  f,
)
