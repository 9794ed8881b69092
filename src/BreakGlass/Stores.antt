-- ===== src/BreakGlass/Stores.antt =====
-- omnidesk_agent/repositories/postgres_state.py: `PostgresBreakGlassStore`, and the choice of a store.
use omni_desk_ai.Shared.{ℕ, String, true, false, ◌==◌, if◌then◌else◌, Result, ok, err, ◌>>=◌, ◌>>◌}
use omni_desk_ai.Shared.Strip.{strip}
use omni_desk_ai.Postgres.State.{insert_once, update_locked}
use omni_desk_ai.BreakGlass.Rules.{
  active, pending_second_approval, BreakGlassError, value_error, key_error, SessionRow,
  BreakGlassSession, AuditEvent, opened, requested, revoked, BreakGlassStore, session_id_of,
  validate_self_session, validate_delegated_request, check_second_approver,
}
use omni_desk_ai.BreakGlass.Sqlite.{
  logged, with_rows, opened_row, requested_row, new_session, ttl_of, activate, approved_answer,
  revoke_row,
}

unfoldable pub pg_insert_session :
    SessionRow
    → BreakGlassSession
    → AuditEvent
    → BreakGlassStore
    → Result BreakGlassError BreakGlassSession × BreakGlassStore
pg_insert_session r x e s =
    let (inserted, t) = insert_once session_id_of r s.rows in
    if inserted then (ok x, logged e (with_rows t s)) else (err value_error, s)

unfoldable pub pg_open_session :
    ℕ
    → String
    → String
    → String
    → String
    → ℕ
    → String
    → BreakGlassStore
    → Result BreakGlassError BreakGlassSession × BreakGlassStore
unfolding pg_insert_session
pg_open_session now id actor reason approved_by ttl meta s =
    elim (validate_self_session actor approved_by reason ttl) [
      | err e ↦ (err e, s)
      | ok v ↦
          let r = opened_row now id ttl meta v in
          let x = new_session true active r in pg_insert_session r x (opened x meta) s
    ]

unfoldable pub pg_request_delegated :
    ℕ
    → String
    → String
    → String
    → String
    → ℕ
    → ℕ
    → String
    → BreakGlassStore
    → Result BreakGlassError BreakGlassSession × BreakGlassStore
unfolding pg_insert_session
pg_request_delegated now id actor reason requested_by ttl window meta s =
    elim (validate_delegated_request actor requested_by reason ttl window) [
      | err e ↦ (err e, s)
      | ok v ↦
          let r = requested_row now id ttl window meta v in
          let x = new_session false pending_second_approval r in
          pg_insert_session r x (requested x meta) s
    ]

-- the updater of `approve`
unfoldable pub pg_activate : ℕ → String → SessionRow → Result BreakGlassError SessionRow
pg_activate now name row =
    (check_second_approver row name now >> ttl_of row) >>= λ ttl. ok (activate now name ttl row)

unfoldable pub pg_approve_session :
    ℕ
    → String
    → String
    → String
    → BreakGlassStore
    → Result BreakGlassError BreakGlassSession × BreakGlassStore
unfolding pg_activate approved_answer
pg_approve_session now id approver meta s =
    let name = strip approver in
    if name == ""
    then (err value_error, s)
    else (let (r, t) = update_locked session_id_of key_error id (pg_activate now name) s.rows in
        elim r [ err e ↦ (err e, s) | ok _ ↦ approved_answer now id name meta (with_rows t s) ])

unfoldable pub pg_revoke_session :
    ℕ → String → String → BreakGlassStore → Result BreakGlassError (Unit {0}) × BreakGlassStore
pg_revoke_session now id revoked_by s =
    let name = strip revoked_by in
    if name == ""
    then (err value_error, s)
    else (let (r, t) =
          update_locked session_id_of key_error id (λ x. ok (revoke_row now x)) s.rows in
        elim r [ err e ↦ (err e, s) | ok _ ↦ (ok tt, logged (revoked id name) (with_rows t s)) ])
