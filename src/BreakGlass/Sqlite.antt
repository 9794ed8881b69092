-- ===== src/BreakGlass/Sqlite.antt =====
-- `BreakGlassStore`: the methods over SQLite.
use omni_desk_ai.Shared.{
  ℕ, ◌+◌, String, Bool, true, false, not, ◌&&◌, none, some, List, [], ◌∷◌, ◌++◌, ◌==◌,
  if◌then◌else◌, Result, ok, err, ◌>>=◌, ◌>>◌, is_some,
}
use Prim.Native.Nat.{compare, Ordering}
use omni_desk_ai.Shared.Strip.{strip}
use omni_desk_ai.Shared.Table.{find, update, count}
use omni_desk_ai.BreakGlass.Rules.{
  SessionStatus, active, pending_second_approval, BreakGlassError, value_error, permission_error,
  key_error, type_error, SessionRow, BreakGlassSession, AuditEvent, opened, requested, approved,
  revoked, BreakGlassStore, session_id_of, is_pending, validate_self_session,
  validate_delegated_request, check_second_approver, session_from_record, require_usable,
}

abbrev pub logged : AuditEvent → BreakGlassStore → BreakGlassStore
logged e s = record s { audit = s.audit ++ e ∷ [] }

abbrev pub with_rows : List SessionRow → BreakGlassStore → BreakGlassStore
with_rows t s = record s { rows = t }

-- the row and the answer of `open`
abbrev pub opened_row : ℕ → String → ℕ → String → String × String × String → SessionRow
opened_row now id ttl meta (actor, approved_by, reason) = record {
  session_id = id;
  actor = actor;
  reason = reason;
  approved_by = approved_by;
  created_at = now;
  expires_at = now + ttl;
  revoked_at = none;
  metadata = meta;
  status = some active;
  second_approver = none;
  approved_at = some now;
  ttl_seconds = some ttl;
}

-- the row of `request_delegated`
abbrev pub requested_row : ℕ → String → ℕ → ℕ → String → String × String × String → SessionRow
requested_row now id ttl window meta (actor, requested_by, reason) = record {
  session_id = id;
  actor = actor;
  reason = reason;
  approved_by = requested_by;
  created_at = now;
  expires_at = now + window;
  revoked_at = none;
  metadata = meta;
  status = some pending_second_approval;
  second_approver = none;
  approved_at = none;
  ttl_seconds = some ttl;
}

-- the session that `open` and `request_delegated` build from the columns of their row
abbrev pub new_session : Bool → SessionStatus → SessionRow → BreakGlassSession
new_session is_open status r = record {
  session_id = r.session_id;
  actor = r.actor;
  reason = r.reason;
  expires_at = r.expires_at;
  approved_by = r.approved_by;
  active = is_open;
  status = status;
  second_approver = none;
}

-- `_insert`, and the entry in the log after it
unfoldable pub insert_session :
    SessionRow
    → BreakGlassSession
    → AuditEvent
    → BreakGlassStore
    → Result BreakGlassError BreakGlassSession × BreakGlassStore
insert_session r x e s =
    if is_some (find session_id_of r.session_id s.rows)
    then (err value_error, s)
    else (ok x, logged e (with_rows (s.rows ++ r ∷ []) s))

unfoldable pub open_session :
    ℕ
    → String
    → String
    → String
    → String
    → ℕ
    → String
    → BreakGlassStore
    → Result BreakGlassError BreakGlassSession × BreakGlassStore
unfolding insert_session
open_session now id actor reason approved_by ttl meta s =
    elim (validate_self_session actor approved_by reason ttl) [
      | err e ↦ (err e, s)
      | ok v ↦
          let r = opened_row now id ttl meta v in
          let x = new_session true active r in insert_session r x (opened x meta) s
    ]

unfoldable pub request_delegated :
    ℕ
    → String
    → String
    → String
    → String
    → ℕ
    → ℕ
    → String
    → BreakGlassStore
    → Result BreakGlassError BreakGlassSession × BreakGlassStore
unfolding insert_session
request_delegated now id actor reason requested_by ttl window meta s =
    elim (validate_delegated_request actor requested_by reason ttl window) [
      | err e ↦ (err e, s)
      | ok v ↦
          let r = requested_row now id ttl window meta v in
          let x = new_session false pending_second_approval r in
          insert_session r x (requested x meta) s
    ]

unfoldable pub get_session : ℕ → String → BreakGlassStore → Result BreakGlassError BreakGlassSession
get_session now id s = elim (find session_id_of id s.rows) [
  | none ↦ err key_error
  | some r ↦ ok (session_from_record now r)
]

unfoldable pub assert_active :
    ℕ → String → String → BreakGlassStore → Result BreakGlassError BreakGlassSession
unfolding get_session
assert_active now id actor s = get_session now id s >>= λ x. require_usable x actor

-- `int(None)` is a TypeError
abbrev pub ttl_of : SessionRow → Result BreakGlassError ℕ
ttl_of r = elim r.ttl_seconds [ none ↦ err type_error | some n ↦ ok n ]

abbrev pub activate : ℕ → String → ℕ → SessionRow → SessionRow
activate now approver ttl r = record r {
  status = some active;
  second_approver = some approver;
  approved_at = some now;
  expires_at = now + ttl;
}

-- status='pending_second_approval' AND revoked_at IS NULL
abbrev pub is_waiting : SessionRow → Bool
is_waiting r = is_pending r.status && not (is_some r.revoked_at)

-- the answer of `approve`, read again after its transaction, and the entry in the log
unfoldable pub approved_answer :
    ℕ
    → String
    → String
    → String
    → BreakGlassStore
    → Result BreakGlassError BreakGlassSession × BreakGlassStore
unfolding get_session
approved_answer now id approver meta s = elim (get_session now id s) [
  | err e ↦ (err e, s)
  | ok x ↦ (ok x, logged (approved x approver meta) s)
]

-- the transaction of `approve`
unfoldable pub approve_rows :
    ℕ → String → String → List SessionRow → Result BreakGlassError (List SessionRow)
approve_rows now id name t = elim (find session_id_of id t) [
  | none ↦ err key_error
  | some row ↦ (check_second_approver row name now >> ttl_of row) >>= λ ttl.
      elim (compare (count (λ r. r.session_id == id && is_waiting r) t) 1) [
        | Ordering.eq ↦
            ok
              (update session_id_of id (λ r. if is_waiting r then activate now name ttl r else r) t)
        | _ ↦ err permission_error
      ]
]

unfoldable pub approve_session :
    ℕ
    → String
    → String
    → String
    → BreakGlassStore
    → Result BreakGlassError BreakGlassSession × BreakGlassStore
unfolding approve_rows approved_answer
approve_session now id approver meta s =
    let name = strip approver in
    if name == "" then (err value_error, s) else elim (approve_rows now id name s.rows) [
      | err e ↦ (err e, s)
      | ok t ↦ approved_answer now id name meta (with_rows t s)
    ]

abbrev pub revoke_row : ℕ → SessionRow → SessionRow
revoke_row now r = if is_some r.revoked_at then r else record r { revoked_at = some now }

-- A session that does not exist is no error, and is logged.
unfoldable pub revoke_session :
    ℕ → String → String → BreakGlassStore → Result BreakGlassError (Unit {0}) × BreakGlassStore
revoke_session now id revoked_by s =
    let name = strip revoked_by in
    if name == "" then (err value_error, s) else (
      ok tt,
      logged (revoked id name) (with_rows (update session_id_of id (revoke_row now) s.rows) s),
    )
