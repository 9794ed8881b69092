-- ===== src/BreakGlass/Examples.antt =====
-- Break-glass sessions on concrete data, and the theorems at inputs that meet their hypotheses.
use omni_desk_ai.Shared.{◌<◌, ◌≡◌, ◌≢◌, refl, true, none, some, List, [], ◌∷◌, ok, err, eq_iff}
use mathlib.Core.Bool.{false≢true}
use omni_desk_ai.Shared.Strip.{strip}
use omni_desk_ai.Postgres.State.{insert_once, update_locked, update_found}
use omni_desk_ai.Shared.Table.{find, update, count, IsUnique}
use omni_desk_ai.BreakGlass.Rules.{
  active, permission_error, SessionRow, BreakGlassSession, BreakGlassStore, session_id_of, validate,
  validate_self_session, validate_delegated_request, check_second_approver, session_from_record,
  require_usable, has_required_approvals,
}
use omni_desk_ai.BreakGlass.Sqlite.{
  open_session, request_delegated, approve_session, revoke_session, insert_session, approve_rows,
  approved_answer, get_session, assert_active,
}
use omni_desk_ai.BreakGlass.Stores.{
  pg_open_session, pg_request_delegated, pg_approve_session, pg_insert_session, pg_activate,
}
use omni_desk_ai.BreakGlass.History.{
  sqlite, postgres, BreakGlassCall, open_call, request_call, approve_call, revoke_call, step, run,
  empty,
}
use omni_desk_ai.BreakGlass.Granted.{IsGranted, assert_active-IsGranted}
use omni_desk_ai.BreakGlass.Revoked.{revoke-assert_active}

-- bo asks for ada, and cy approves
abbrev calls : List BreakGlassCall
calls =
    request_call 10 "s1" "ada" "outage" " bo " 600 900 "{}"
    ∷ approve_call 20 "s1" "ada" "{}"
    ∷ approve_call 30 "s1" "cy " "{}"
    ∷ []

abbrev session : BreakGlassSession
session = record {
  session_id = "s1";
  actor = "ada";
  reason = "outage";
  expires_at = 630;
  approved_by = "bo";
  active = true;
  status = active;
  second_approver = some "cy";
}

usable : assert_active 40 "s1" "ada" (run sqlite calls empty) ≡ ok session
unfolding step run open_session request_delegated approve_session revoke_session insert_session
    approve_rows approved_answer get_session assert_active validate_self_session
    validate_delegated_request validate check_second_approver session_from_record require_usable
    has_required_approvals find update count strip
usable = refl

pg_usable : assert_active 40 "s1" "ada" (run postgres calls empty) ≡ ok session
unfolding step run open_session request_delegated approve_session revoke_session insert_session
    approve_rows approved_answer get_session assert_active validate_self_session
    validate_delegated_request validate check_second_approver session_from_record require_usable
    has_required_approvals find update count strip pg_open_session pg_request_delegated
    pg_approve_session pg_insert_session pg_activate insert_once update_locked update_found
pg_usable = refl

-- the row behind `session`
assert_active-IsGranted_example :
    (r : SessionRow) × (find session_id_of "s1" (run postgres calls empty).rows ≡ some r)
    × (r.actor ≡ "ada")
    × (r.revoked_at ≡ none)
    × (40 < r.expires_at)
    × IsGranted calls r
assert_active-IsGranted_example = assert_active-IsGranted postgres calls 40 "s1" "ada" pg_usable

abbrev row : SessionRow
row = record {
  session_id = "s1";
  actor = "ada";
  reason = "outage";
  approved_by = "ada";
  created_at = 10;
  expires_at = 610;
  revoked_at = none;
  metadata = "{}";
  status = some active;
  second_approver = none;
  approved_at = some 10;
  ttl_seconds = some 600;
}

abbrev store : BreakGlassStore
store = record { rows = row ∷ []; audit = [] }

store-IsUnique : IsUnique session_id_of store.rows
unfolding find
store-IsUnique = (refl, tt)

found : find session_id_of "s1" store.rows ≡ some row
unfolding find
found = refl

named : strip "bo" ≢ ""
unfolding strip
named p = false≢true ((eq_iff "bo" "").1 p)

-- `open` again with the id of the revoked session is refused
revoke-assert_active_example :
    assert_active 40 "s1" "ada" (
      run sqlite
        (revoke_call 20 "s1" "bo" ∷ open_call 30 "s1" "ada" "again" "ada" 600 "{}" ∷ [])
        store)
    ≡ err permission_error
revoke-assert_active_example =
    revoke-assert_active sqlite (open_call 30 "s1" "ada" "again" "ada" 600 "{}" ∷ []) 20 40 "s1"
      "bo" "ada" store store-IsUnique found named
