-- ===== src/Approvals/Dual.antt =====
-- omnidesk_agent/security/dual_approval.py: the two-person gate, one function per method.
use omni_desk_ai.Shared.{
  ℕ, String, Bool, true, false, ◌&&◌, Option, none, some, List, [], ◌∷◌, ◌++◌, ◌==◌, if◌then◌else◌,
  Result, ok, err, is_some,
}
use omni_desk_ai.Shared.Text.{truthy}
use omni_desk_ai.Shared.Strip.{strip}
use omni_desk_ai.Shared.Member.{mem}
use omni_desk_ai.Shared.Table.{find, update}
use omni_desk_ai.Approvals.Requests.{
  Proposal, ApprovalError, value_error, key_error, permission_error, proposal_requesters,
}

-- a row of the table `dual_approvals`
pub record DualRow : Type 0 where
  pub approval_id : String
  pub proposal : Proposal
  pub first_approver : Option String
  pub second_approver : Option String
  pub created_at : ℕ
  pub updated_at : ℕ

-- `reason` is "ready" or "waiting_for_second_approver", as `ready` says.
pub record DualApprovalDecision : Type 0 where
  pub ready : Bool
  pub approval_id : String
  pub first_approver : Option String
  pub second_approver : Option String

abbrev pub dual_id : DualRow → String
dual_id d = d.approval_id

abbrev pub no_requester : Proposal → Bool
no_requester p = elim (proposal_requesters p) [ [] ↦ true | _ ∷ _ ↦ false ]

unfoldable pub new_dual : ℕ → String → Proposal → DualRow
new_dual now id p = record {
  approval_id = id;
  proposal = p;
  first_approver = none;
  second_approver = none;
  created_at = now;
  updated_at = now;
}

-- INSERT OR IGNORE
unfoldable pub open_dual :
    ℕ → String → Proposal → List DualRow → Result ApprovalError (Unit {0}) × List DualRow
unfolding proposal_requesters new_dual
open_dual now id p t =
    if no_requester p
    then (err permission_error, t)
    else (ok tt, if is_some (find dual_id id t) then t else t ++ new_dual now id p ∷ [])

unfoldable pub decision : DualRow → DualApprovalDecision
decision d = record {
  ready = is_some (truthy d.first_approver) && is_some (truthy d.second_approver);
  approval_id = d.approval_id;
  first_approver = d.first_approver;
  second_approver = d.second_approver;
}

-- `status`
unfoldable pub dual_status : String → List DualRow → Result ApprovalError DualApprovalDecision
unfolding decision
dual_status id t = elim (find dual_id id t) [ none ↦ err key_error | some d ↦ ok (decision d) ]

-- `first and first == approver`
abbrev pub is_first : String → DualRow → Bool
is_first approver d = elim (truthy d.first_approver) [ none ↦ false | some a ↦ a == approver ]

-- the UPDATE of `approve`: the first free place, if there is one
abbrev pub seat : ℕ → String → DualRow → DualRow
seat now approver d = elim (truthy d.first_approver) [
  | none ↦ record d { first_approver = some approver; updated_at = now }
  | some _ ↦ elim (truthy d.second_approver) [
    | none ↦ record d { second_approver = some approver; updated_at = now }
    | some _ ↦ record d { updated_at = now }
  ]
]

-- what `approve` checks before it writes
unfoldable pub approver_error : String → DualRow → Option ApprovalError
unfolding proposal_requesters
approver_error approver d =
    if mem approver (proposal_requesters d.proposal)
    then some permission_error
    else if is_first approver d
    then some permission_error
    else none

unfoldable pub approve :
    ℕ → String → String → List DualRow → Result ApprovalError DualApprovalDecision × List DualRow
unfolding approver_error dual_status
approve now id approver t =
    let name = strip approver in
    if name == "" then (err value_error, t) else elim (find dual_id id t) [
      | none ↦ (err key_error, t)
      | some d ↦ elim (approver_error name d) [
        | some e ↦ (err e, t)
        | none ↦ let t' = update dual_id id (seat now name) t in (dual_status id t', t')
      ]
    ]
