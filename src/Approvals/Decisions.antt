-- ===== src/Approvals/Decisions.antt =====
-- omnidesk_agent/security/approval_store.py: `decide`, `require_approved` and `consume_approved`.
-- A raise leaves the rows as they were: the transaction is rolled back.
use omni_desk_ai.Shared.{
  ℕ, String, Bool, true, false, not, Option, none, some, ◌==◌, if◌then◌else◌, Result, ok, err, ◌>>◌,
}
use Prim.Native.Nat.{compare, Ordering}
use omni_desk_ai.Shared.Text.{truthy}
use omni_desk_ai.Shared.Table.{find, update}
use omni_desk_ai.Approvals.Requests.{
  Proposal, ApprovalError, value_error, key_error, permission_error,
}
use omni_desk_ai.Approvals.Store.{
  Status, pending, approved, denied, consumed, Approval, ApprovalStore, approval_id, eq_status,
  when, is_expired, require_ready, get, guarded,
}

-- `expected.get(key) is not None and proposal.get(key) != expected.get(key)`
abbrev pub differs : Option String → Option String → Bool
differs none have = false
differs (some e) none = true
differs (some e) (some h) = not (h == e)

abbrev pub differs_step : Option ℕ → Option ℕ → Bool
differs_step none have = false
differs_step (some e) none = true
differs_step (some e) (some h) = elim (compare h e) [ Ordering.eq ↦ false | _ ↦ true ]

-- the loop over the eight fields of the execution scope
unfoldable pub mismatch : Proposal → Proposal → Bool
mismatch e p =
    if differs e.tool p.tool
    then true
    else if differs e.action p.action
    then true
    else if differs e.source p.source
    then true
    else if differs e.actor p.actor
    then true
    else if differs e.run_id p.run_id
    then true
    else if differs e.plan_id p.plan_id
    then true
    else if differs_step e.step_index p.step_index
    then true
    else differs e.scope_hash p.scope_hash

-- `none` is no proposal or an empty one.
unfoldable pub validate_expected : Proposal → Option Proposal → Result ApprovalError (Unit {0})
unfolding mismatch
validate_expected p none = ok tt
validate_expected p (some e) = when (mismatch e p) permission_error

-- the checks that `require_approved` and `consume_approved` share
unfoldable pub usable :
    ℕ → String → Option Proposal → Approval → ApprovalStore → Result ApprovalError (Unit {0})
unfolding validate_expected require_ready
usable now id expected a s =
    when (is_expired now a.expires_at) permission_error
    >> (when (not (eq_status a.status approved)) permission_error
        >> (require_ready id a.proposal s >> validate_expected a.proposal expected))

unfoldable pub require_approved :
    ℕ → String → Option Proposal → ApprovalStore → Result ApprovalError Approval
unfolding get usable
require_approved now id expected s = elim (get id s) [
  | none ↦ err permission_error
  | some a ↦ usable now id expected a s >> ok a
]

-- The row is read again after a write.
abbrev pub reread : String → ApprovalStore → Result ApprovalError Approval
reread id s = elim (find approval_id id s.rows) [ none ↦ err key_error | some a ↦ ok a ]

abbrev pub can_decide : Status → Bool
can_decide approved = true
can_decide denied = true
can_decide _ = false

unfoldable pub decide_checks :
    ℕ → String → Status → Approval → ApprovalStore → Result ApprovalError (Unit {0})
unfolding require_ready
decide_checks now id st a s =
    when (is_expired now a.expires_at) permission_error
    >> (when (not (eq_status a.status pending)) permission_error
        >> (if eq_status st approved then require_ready id a.proposal s else ok tt))

abbrev pub decided_row : ℕ → Status → String → Approval → Approval
decided_row now st result a = record a { status = st; result = some result; decided_at = some now }

-- The result is the JSON text of `result or {}`.
unfoldable pub decide :
    ℕ → String → Status → String → ApprovalStore → Result ApprovalError Approval × ApprovalStore
unfolding decide_checks
decide now id st result s =
    if can_decide st
    then elim (find approval_id id s.rows) [
      | none ↦ (err key_error, s)
      | some a ↦ elim (decide_checks now id st a s) [
        | err e ↦ (err e, s)
        | ok _ ↦
            let s' = record s {
              rows = update approval_id id (guarded pending (decided_row now st result)) s.rows;
            } in
            (reread id s', s')
      ]
    ]
    else (err value_error, s)

-- `str((expected_proposal or approval.get("proposal") or {}).get("scope_hash") or "") or None`
abbrev pub scope_of : Option Proposal → Proposal → Option String
scope_of none p = truthy p.scope_hash
scope_of (some e) p = truthy e.scope_hash

abbrev pub consumed_row : ℕ → Option String → Option String → Approval → Approval
consumed_row now run scope a = record a {
  status = consumed;
  consumed_at = some now;
  consumed_by_run_id = run;
  consumed_scope_hash = scope;
}

-- The UPDATE meets one row: the same transaction has read it as approved.
unfoldable pub consume_approved :
    ℕ
    → String
    → Option Proposal
    → Option String
    → ApprovalStore
    → Result ApprovalError Approval × ApprovalStore
unfolding usable
consume_approved now id expected run s = elim (find approval_id id s.rows) [
  | none ↦ (err permission_error, s)
  | some a ↦ elim (usable now id expected a s) [
    | err e ↦ (err e, s)
    | ok _ ↦
        let f = consumed_row now run (scope_of expected a.proposal) in
        let s' = record s { rows = update approval_id id (guarded approved f) s.rows } in
        (reread id s', s')
  ]
]
