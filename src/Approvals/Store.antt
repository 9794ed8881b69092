-- ===== src/Approvals/Store.antt =====
-- omnidesk_agent/security/approval_store.py: the rows, the checks and the methods of `ApprovalStore`.
use omni_desk_ai.Shared.{
  ℕ, ◌+◌, String, Bool, true, false, Option, none, some, List, [], ◌∷◌, ◌++◌, ltb, if◌then◌else◌,
  Result, ok, err, ◌>>=◌, ◌>>◌, is_some,
}
use omni_desk_ai.Shared.Table.{find, select, newest_first}
use omni_desk_ai.Approvals.Requests.{Proposal, ApprovalError, permission_error, integrity_error}
use omni_desk_ai.Approvals.Dual.{DualRow, no_requester, open_dual, dual_status}

pub data Status : Type 0 where
  pending approved denied consumed : Status

-- a row of the table `approvals`; the result is JSON text
pub record Approval : Type 0 where
  pub id : String
  pub status : Status
  pub proposal : Proposal
  pub result : Option String
  pub created_at : ℕ
  pub expires_at : Option ℕ
  pub decided_at : Option ℕ
  pub consumed_at : Option ℕ
  pub consumed_by_run_id : Option String
  pub consumed_scope_hash : Option String

-- `dual` holds the rows of the attached `DualApprovalStore`.
pub record ApprovalStore : Type 0 where
  pub ttl_seconds : ℕ
  pub rows : List Approval
  pub dual : Option (List DualRow)

unfoldable pub new_store : ℕ → Option (List DualRow) → ApprovalStore
new_store ttl dual = record { ttl_seconds = ttl; rows = []; dual = dual }

unfoldable pub attach_dual_approval_store : Option (List DualRow) → ApprovalStore → ApprovalStore
attach_dual_approval_store dual s = record s { dual = dual }

abbrev pub approval_id : Approval → String
approval_id a = a.id

abbrev pub approval_created_at : Approval → ℕ
approval_created_at a = a.created_at

abbrev pub eq_status : Status → Status → Bool
eq_status pending pending = true
eq_status approved approved = true
eq_status denied denied = true
eq_status consumed consumed = true
eq_status _ _ = false

abbrev pub when : Bool → ApprovalError → Result ApprovalError (Unit {0})
when b e = if b then err e else ok tt

-- `expires_at and now > expires_at`
abbrev pub is_expired : ℕ → Option ℕ → Bool
is_expired now none = false
is_expired now (some e) = if ltb 0 e then ltb e now else false

unfoldable pub check_prerequisites : Proposal → ApprovalStore → Result ApprovalError (Unit {0})
check_prerequisites p s =
    if p.requires_dual_approval
    then elim s.dual [
      | none ↦ err permission_error
      | some _ ↦ when (no_requester p) permission_error
    ]
    else ok tt

unfoldable pub open_if_required :
    ℕ → String → Proposal → ApprovalStore → Result ApprovalError (Unit {0}) × ApprovalStore
open_if_required now id p s =
    if p.requires_dual_approval
    then elim s.dual [
      | none ↦ (err permission_error, s)
      | some t ↦ let (r, t') = open_dual now id p t in (r, record s { dual = some t' })
    ]
    else (ok tt, s)

unfoldable pub require_ready : String → Proposal → ApprovalStore → Result ApprovalError (Unit {0})
require_ready id p s =
    if p.requires_dual_approval
    then elim s.dual [
      | none ↦ err permission_error
      | some t ↦ dual_status id t >>= λ d. if d.ready then ok tt else err permission_error
    ]
    else ok tt

abbrev pub ttl_or : Option ℕ → ℕ → ℕ
ttl_or none d = d
ttl_or (some n) d = n

unfoldable pub new_approval : ℕ → String → Proposal → Option ℕ → ApprovalStore → Approval
new_approval now id p ttl s =
    let ttl' = ttl_or ttl s.ttl_seconds in
    record {
      id = id;
      status = pending;
      proposal = p;
      result = none;
      created_at = now;
      expires_at = if ltb 0 ttl' then some (now + ttl') else none;
      decided_at = none;
      consumed_at = none;
      consumed_by_run_id = none;
      consumed_scope_hash = none;
    }

-- The INSERT commits before the dual approval is opened; `id` is the uuid.
unfoldable pub create :
    ℕ → String → Proposal → Option ℕ → ApprovalStore → Result ApprovalError String × ApprovalStore
unfolding check_prerequisites new_approval open_if_required
create now id p ttl s = elim (check_prerequisites p s) [
  | err e ↦ (err e, s)
  | ok _ ↦
      if is_some (find approval_id id s.rows)
      then (err integrity_error, s)
      else let (r, s') =
          open_if_required now id p
            (record s { rows = s.rows ++ new_approval now id p ttl s ∷ [] }) in
        (r >> ok id, s')
]

unfoldable pub get : String → ApprovalStore → Option Approval
get id s = find approval_id id s.rows

unfoldable pub list_approvals : Option Status → ApprovalStore → List Approval
list_approvals none s = newest_first approval_created_at s.rows
list_approvals (some st) s =
    newest_first approval_created_at (select (λ a. eq_status a.status st) s.rows)

-- a row that a guarded UPDATE changes only under the status that its WHERE clause names
abbrev pub guarded : Status → (Approval → Approval) → Approval → Approval
guarded st f a = if eq_status a.status st then f a else a
