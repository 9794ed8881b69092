-- ===== src/BreakGlass/Rules.antt =====
-- The rows and the sessions, and the checks that both stores share.
use omni_desk_ai.Shared.{
  ℕ, ◌≡◌, refl, String, Bool, true, false, not, ◌&&◌, ◌||◌, Option, none, some, List, ◌==◌, ltb,
  if◌then◌else◌, Result, ok, err, ◌>>=◌, is_some, map,
}
use omni_desk_ai.Shared.Strip.{strip}
use omni_desk_ai.Shared.Text.{truthy, or_text}

pub data SessionStatus : Type 0 where
  active pending_second_approval legacy_unapproved : SessionStatus

pub data BreakGlassError : Type 0 where
  value_error permission_error key_error type_error : BreakGlassError

-- a row of the table break_glass_sessions; rows of an older schema have no status
pub record SessionRow : Type 0 where
  pub session_id : String
  pub actor : String
  pub reason : String
  pub approved_by : String
  pub created_at : ℕ
  pub expires_at : ℕ
  pub revoked_at : Option ℕ
  pub metadata : String
  pub status : Option SessionStatus
  pub second_approver : Option String
  pub approved_at : Option ℕ
  pub ttl_seconds : Option ℕ

pub record BreakGlassSession : Type 0 where
  pub session_id : String
  pub actor : String
  pub reason : String
  pub expires_at : ℕ
  pub approved_by : String
  pub active : Bool
  pub status : SessionStatus
  pub second_approver : Option String

-- what `_audit` appends to the log
pub data AuditEvent : Type 0 where
  opened requested : BreakGlassSession → String → AuditEvent
  approved : BreakGlassSession → String → String → AuditEvent
  revoked : String → String → AuditEvent

pub record BreakGlassStore : Type 0 where
  pub rows : List SessionRow
  pub audit : List AuditEvent

abbrev pub session_id_of : SessionRow → String
session_id_of r = r.session_id

abbrev pub is_active : SessionStatus → Bool
is_active active = true
is_active _ = false

abbrev pub is_pending : Option SessionStatus → Bool
is_pending (some pending_second_approval) = true
is_pending _ = false

unfoldable pub has_required_approvals : BreakGlassSession → Bool
has_required_approvals s =
    let second = strip (or_text s.second_approver "") in
    if s.actor == s.approved_by
    then true
    else not (second == "") && not (second == s.actor || second == s.approved_by)

-- a number of seconds from 1 to 3600
abbrev pub in_hour : ℕ → Bool
in_hour n = ltb 0 n && ltb n 3601

-- `_validate`
unfoldable pub validate :
    String → String → String → ℕ → Result BreakGlassError (String × String × String)
validate actor approver reason ttl =
    let a = strip actor in
    let b = strip approver in
    let r = strip reason in
    if (a == "" || b == "") || r == ""
    then err value_error
    else if in_hour ttl
    then ok (a, b, r)
    else err value_error

unfoldable pub validate_self_session :
    String → String → String → ℕ → Result BreakGlassError (String × String × String)
unfolding validate
validate_self_session actor approved_by reason ttl =
    validate actor approved_by reason ttl >>= λ v. if v.0 == v.1 then ok v else err permission_error

unfoldable pub validate_delegated_request :
    String → String → String → ℕ → ℕ → Result BreakGlassError (String × String × String)
unfolding validate
validate_delegated_request actor requested_by reason ttl window =
    validate actor requested_by reason ttl >>= λ v.
    if v.0 == v.1 then err value_error else if in_hour window then ok v else err value_error

unfoldable pub check_second_approver : SessionRow → String → ℕ → Result BreakGlassError (Unit {0})
check_second_approver row approver now =
    if not (is_pending row.status)
    then err permission_error
    else if is_some row.revoked_at
    then err permission_error
    else if not (ltb now row.expires_at)
    then err permission_error
    else if approver == row.approved_by
    then err permission_error
    else if approver == row.actor
    then err permission_error
    else ok tt

-- Rows without a status predate the second approval.
abbrev pub status_of : SessionRow → SessionStatus
status_of r = elim r.status [
  | none ↦ if r.actor == r.approved_by then active else legacy_unapproved
  | some s ↦ s
]

unfoldable pub session_from_record : ℕ → SessionRow → BreakGlassSession
session_from_record now r = record {
  session_id = r.session_id;
  actor = r.actor;
  reason = r.reason;
  expires_at = r.expires_at;
  approved_by = r.approved_by;
  active = (is_active (status_of r) && not (is_some r.revoked_at)) && ltb now r.expires_at;
  status = status_of r;
  second_approver = truthy r.second_approver;
}

unfoldable pub require_usable :
    BreakGlassSession → String → Result BreakGlassError BreakGlassSession
unfolding has_required_approvals
require_usable s actor =
    if not s.active
    then err permission_error
    else if not (s.actor == actor)
    then err permission_error
    else if not (has_required_approvals s)
    then err permission_error
    else ok s

-- the UPDATE of `_migrate`
unfoldable pub migrate : List SessionRow → List SessionRow
migrate = map {A = SessionRow} (λ r. record r { status = some (status_of r) })

-- A row reads the same before and after the migration.
session_from_record-migrated :
    (now : ℕ) (r : SessionRow)
    → session_from_record now (record r { status = some (status_of r) }) ≡ session_from_record now r
unfolding session_from_record
session_from_record-migrated now r = refl
