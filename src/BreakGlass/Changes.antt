-- ===== src/BreakGlass/Changes.antt =====
-- What one call does to the rows, over either store.
use omni_desk_ai.Shared.{
  ℕ, ◌≤◌, ◌≡◌, ◌≢◌, refl, String, none, some, List, [], ◌∷◌, ◌++◌, ◌⊎◌, inl, inr, eq_iff, arith,
  Option-cases, Result-cases, ok,
}
use omni_desk_ai.Shared.Strip.{strip}
use omni_desk_ai.Shared.Table.{find, update}
use omni_desk_ai.Postgres.State.{insert_once}
use omni_desk_ai.BreakGlass.Rules.{
  active, pending_second_approval, SessionRow, BreakGlassSession, AuditEvent, BreakGlassStore,
  session_id_of, validate, validate_self_session, validate_delegated_request, check_second_approver,
}
use omni_desk_ai.BreakGlass.Sqlite.{insert_session, activate, revoke_row}
use omni_desk_ai.BreakGlass.Stores.{pg_insert_session}
use omni_desk_ai.BreakGlass.History.{BreakGlassCall, approve_call, Opens, Requests}

-- A row that the call may append.
abbrev pub IsNew : BreakGlassCall → SessionRow → Type 0
IsNew c r =
    (r.revoked_at ≡ none)
    × (((r.status ≡ some active) × Opens r c)
        ⊎ ((r.status ≡ some pending_second_approval) × Requests r c))

-- The rows after a call, by the rows before it.
pub data IsChange (c : BreakGlassCall) (t u : List SessionRow) : Type 0 where
  same : u ≡ t → IsChange c t u
  added :
      (r : SessionRow)
      → find session_id_of r.session_id t ≡ none
      → u ≡ t ++ r ∷ []
      → IsNew c r
      → IsChange c t u
  activated :
      (row : SessionRow) (now : ℕ) (id approver meta : String) (ttl : ℕ)
      → c ≡ approve_call now id approver meta
      → strip approver ≢ ""
      → find session_id_of id t ≡ some row
      → check_second_approver row (strip approver) now ≡ ok tt
      → row.ttl_seconds ≡ some ttl
      → u ≡ update session_id_of id (activate now (strip approver) ttl) t
      → IsChange c t u
  revoked_row :
      (now : ℕ) (id : String) → u ≡ update session_id_of id (revoke_row now) t → IsChange c t u

pub validate-ok :
    (actor by reason : String) (ttl : ℕ) {v : String × String × String}
    → validate actor by reason ttl ≡ ok v
    → (strip actor ≡ v.0) × (strip by ≡ v.1) × (1 ≤ ttl) × (ttl ≤ 3600)
unfolding validate
validate-ok actor by reason ttl h = ground arith

pub validate_self-ok :
    (actor by reason : String) (ttl : ℕ) {v : String × String × String}
    → validate_self_session actor by reason ttl ≡ ok v
    → (validate actor by reason ttl ≡ ok v) × (v.0 ≡ v.1)
unfolding validate_self_session
validate_self-ok actor by reason ttl {v} h = elim (Result-cases (validate actor by reason ttl)) [
  | inl (w, e) ↦ ground (arith, eq_iff w.0 w.1)
  | inr (x, e) ↦ ground arith
]

pub validate_delegated-ok :
    (actor by reason : String) (ttl window : ℕ) {v : String × String × String}
    → validate_delegated_request actor by reason ttl window ≡ ok v
    → (validate actor by reason ttl ≡ ok v) × (v.0 ≢ v.1)
unfolding validate_delegated_request
validate_delegated-ok actor by reason ttl window {v} h =
    elim (Result-cases (validate actor by reason ttl)) [
      | inl (w, e) ↦ ground (arith, eq_iff w.0 w.1)
      | inr (x, e) ↦ ground arith
    ]

pub insert_session-IsChange :
    (c : BreakGlassCall) (r : SessionRow) (x : BreakGlassSession) (e : AuditEvent)
    (s : BreakGlassStore)
    → IsNew c r
    → IsChange c s.rows (insert_session r x e s).1.rows
unfolding insert_session
insert_session-IsChange c r x e s n = elim (Option-cases (find session_id_of r.session_id s.rows)) [
  | inl f ↦ added r f (rw (insert_session, f) refl) n
  | inr (o, f) ↦ same (rw (insert_session, f) refl)
]

-- ON CONFLICT DO NOTHING does what the violated PRIMARY KEY does.
pub pg_insert-insert :
    (r : SessionRow) (x : BreakGlassSession) (e : AuditEvent) (s : BreakGlassStore)
    → pg_insert_session r x e s ≡ insert_session r x e s
unfolding pg_insert_session insert_once insert_session
pg_insert-insert r x e s = elim (Option-cases (find session_id_of r.session_id s.rows)) [
  | inl f ↦ rw (pg_insert_session, insert_session, insert_once, f) refl
  | inr (o, f) ↦ rw (pg_insert_session, insert_session, insert_once, f) refl
]
