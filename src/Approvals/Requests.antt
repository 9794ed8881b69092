-- ===== src/Approvals/Requests.antt =====
-- omnidesk_agent/security/dual_approval.py: the proposals, and who counts as their requester.
-- A proposal is a JSON object; the record has the keys that the stores read, `none` for a missing one.
use omni_desk_ai.Shared.{
  ℕ, String, Bool, Option, none, some, List, [], ◌∷◌, ◌==◌, if◌then◌else◌, Result, ok, err,
}
use omni_desk_ai.Shared.Text.{truthy}
use omni_desk_ai.Shared.Strip.{strip}

pub record Proposal : Type 0 where
  pub tool : Option String
  pub action : Option String
  pub source : Option String
  pub actor : Option String
  pub run_id : Option String
  pub plan_id : Option String
  pub step_index : Option ℕ
  pub scope_hash : Option String
  pub created_by : Option String
  pub proposer : Option String
  pub requires_dual_approval : Bool

-- the exceptions of both stores
pub data ApprovalError : Type 0 where
  value_error key_error permission_error integrity_error : ApprovalError

-- `{str(value or "").strip()} - {""}`
abbrev pub named : Option String → List String → List String
named v rest = elim (truthy v) [
  | none ↦ rest
  | some s ↦ if strip s == "" then rest else strip s ∷ rest
]

unfoldable pub proposal_requesters : Proposal → List String
proposal_requesters p = named p.created_by (named p.proposer (named p.actor []))

unfoldable pub stamp_requester : Proposal → String → Result ApprovalError Proposal
stamp_requester p requester =
    let name = strip requester in
    if name == ""
    then err permission_error
    else ok (record p { created_by = some name; proposer = some name })
