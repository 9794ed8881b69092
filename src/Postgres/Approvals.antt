-- ===== src/Postgres/Approvals.antt =====
-- omnidesk_agent/repositories/postgres_state.py: `PostgresDualApprovalStore` and
-- `PostgresApprovalStore`, over the rows of the two stores over SQLite.
pub mod Agree
pub mod History
mod Examples
use omni_desk_ai.Shared.{
  ℕ, String, Bool, true, false, not, Option, none, some, List, [], ◌∷◌, ◌==◌, if◌then◌else◌, Result,
  ok, err, ◌>>◌,
}
use omni_desk_ai.Shared.Strip.{strip}
use omni_desk_ai.Shared.Table.{find}
use omni_desk_ai.Approvals.{
  Proposal, ApprovalError, value_error, key_error, permission_error, DualRow, DualApprovalDecision,
  dual_id, no_requester, new_dual, dual_status, seat, approver_error, Status, Approval,
  ApprovalStore, approval_id, new_approval, decide_checks, can_decide, decided_row, usable,
  scope_of, consumed_row,
}
use omni_desk_ai.Postgres.State.{insert_once, put, update_locked}

unfoldable pub pg_open_dual :
    ℕ → String → Proposal → List DualRow → Result ApprovalError (Unit {0}) × List DualRow
pg_open_dual now id p t =
    if no_requester p
    then (err permission_error, t)
    else (ok tt, (insert_once dual_id (new_dual now id p) t).1)

-- the updater of `approve`
unfoldable pub pg_seat : ℕ → String → DualRow → Result ApprovalError DualRow
unfolding approver_error
pg_seat now name d = elim (approver_error name d) [ some e ↦ err e | none ↦ ok (seat now name d) ]

unfoldable pub pg_approve :
    ℕ → String → String → List DualRow → Result ApprovalError DualApprovalDecision × List DualRow
unfolding pg_seat dual_status
pg_approve now id approver t =
    let name = strip approver in
    if name == ""
    then (err value_error, t)
    else (let (r, u) = update_locked dual_id key_error id (pg_seat now name) t in
        elim r [ err e ↦ (err e, u) | ok _ ↦ (dual_status id u, u) ])

-- The row is written before the gate is asked for, and stays when the gate refuses.
unfoldable pub pg_create_approval :
    ℕ → String → Proposal → Option ℕ → ApprovalStore → Result ApprovalError String × ApprovalStore
unfolding pg_open_dual
pg_create_approval now id p ttl s =
    let s1 = record s { rows = put approval_id (new_approval now id p ttl s) s.rows } in
    if p.requires_dual_approval
    then elim s.dual [
      | none ↦ (err permission_error, s1)
      | some t ↦ let (r, u) = pg_open_dual now id p t in (r >> ok id, record s1 { dual = some u })
    ]
    else (ok id, s1)

abbrev pub with_approvals : List Approval → ApprovalStore → ApprovalStore
with_approvals t s = record s { rows = t }

unfoldable pub pg_decide :
    ℕ → String → Status → String → ApprovalStore → Result ApprovalError Approval × ApprovalStore
pg_decide now id st result s =
    if can_decide st
    then (let (r, t) =
          update_locked approval_id key_error id
            (λ a. decide_checks now id st a s >> ok (decided_row now st result a)) s.rows in
        (r, with_approvals t s))
    else (err value_error, s)

-- an approval that does not exist is a KeyError here
unfoldable pub pg_consume_approved :
    ℕ
    → String
    → Option Proposal
    → Option String
    → ApprovalStore
    → Result ApprovalError Approval × ApprovalStore
pg_consume_approved now id expected run s =
    let (r, t) =
      update_locked approval_id key_error id
        (λ a.
          usable now id expected a s >> ok (consumed_row now run (scope_of expected a.proposal) a))
        s.rows in
    (r, with_approvals t s)
