-- ===== src/Resume/Defs.antt =====
-- omnidesk_agent/core/orchestrator.py: `resume`, up to the execution of the rest of the plan.
-- The orchestrator and its permission manager share one approval store. Each call of a store is
-- atomic; here nothing comes between them.
use omni_desk_ai.Shared.{
  ℕ, String, Bool, false, Option, none, some, List, [], ◌∷◌, ◌==◌, if◌then◌else◌, Result, ok, err,
  ◌>>=◌,
}
use omni_desk_ai.Shared.Text.{truthy}
use omni_desk_ai.Shared.Table.{or_else}
use omni_desk_ai.Approvals.{
  Proposal, ApprovalError, permission_error, DualRow, dual_status, Approval, ApprovalStore,
  consume_approved,
}
use omni_desk_ai.Runs.{
  Run, RunStore, RunError, status_field, waiting_field, get, require_resume_token,
  consume_resume_token, mark_resume_failed, update_run,
}
use omni_desk_ai.Permissions.{Action, PermissionManager, allow_approved_proposal}

-- `own_dual` is the orchestrator's own dual approval store, used if the approval store has none.
pub record Orchestrator : Type 0 where
  pub run_store : Option RunStore
  pub own_dual : Option (List DualRow)
  pub permissions : PermissionManager

-- json.loads of an approval proposal, `none` for the empty object; the JSON text of an error, and
-- whether a plan is the empty object
pub record Json : Type 0 where
  pub parse_proposal : String → Option Action
  pub error_text : ApprovalError → String
  pub is_empty_plan : String → Bool

-- the statuses of the replies that end a resume, a raise that is not caught, and the way on
pub data ResumeReply : Type 0 where
  resume_unavailable not_found resume_denied missing_approval_id : ResumeReply
  approval_store_unavailable approval_not_satisfied missing_plan raised : ResumeReply
  not_waiting : String → ResumeReply
  execute_plan : String → ℕ → List String → ResumeReply

-- `run.get("approval_proposal") or {}`
unfoldable pub proposal_of : Json → Run → Option Action
proposal_of json r = elim r.approval_proposal_json [
  | none ↦ none
  | some text ↦ if text == "" then none else json.parse_proposal text
]

abbrev pub expected_of : Option Action → Option Proposal
expected_of none = none
expected_of (some a) = some a.proposal

abbrev pub needs_dual : Option Action → Bool
needs_dual none = false
needs_dual (some a) = a.proposal.requires_dual_approval

-- the empty proposal
abbrev pub no_action : Action
no_action = record {
  risk = none;
  proposal = record {
    tool = none;
    action = none;
    source = none;
    actor = none;
    run_id = none;
    plan_id = none;
    step_index = none;
    scope_hash = none;
    created_by = none;
    proposer = none;
    requires_dual_approval = false;
  };
}

abbrev pub action_of : Option Action → Action
action_of none = no_action
action_of (some a) = a

-- the two-person gate that `resume` looks at itself
unfoldable pub dual_ready :
    String → Option Action → ApprovalStore → Option (List DualRow) → Result ApprovalError (Unit {0})
dual_ready aid p store own =
    if needs_dual p
    then elim (or_else store.dual own) [
      | none ↦ err permission_error
      | some t ↦ dual_status aid t >>= λ d. if d.ready then ok tt else err permission_error
    ]
    else ok tt

abbrev pub with_runs : RunStore → Orchestrator → Orchestrator
with_runs rs o = record o { run_store = some rs }

-- `except PermissionError`, once the token is consumed; a KeyError is not caught
unfoldable pub caught :
    Json → ℕ → String → ApprovalError → RunStore → Orchestrator → ResumeReply × Orchestrator
caught json now id omni_desk_ai.Approvals.key_error rs o = (raised, with_runs rs o)
caught json now id e rs o =
    (approval_not_satisfied, with_runs (mark_resume_failed now id (json.error_text e) rs) o)

abbrev pub plan_reply : Json → Run → ResumeReply
plan_reply json r = elim r.plan_json [
  | none ↦ missing_plan
  | some plan ↦
      if json.is_empty_plan plan
      then missing_plan
      else execute_plan plan r.current_step_index r.results
]

-- the approval is consumed, its proposal is allowed and the run goes on
unfoldable pub go_on :
    Json
    → ℕ
    → String
    → Run
    → Option Action
    → ApprovalStore
    → RunStore
    → Orchestrator
    → ResumeReply × Orchestrator
go_on json now id r p store rs o =
    let permissions = record o.permissions { approval_store = some store } in
    (
      plan_reply json r,
      record o {
        run_store =
            some (update_run now id (status_field "running" ∷ waiting_field none ∷ []) rs).1;
        permissions = (allow_approved_proposal (action_of p) permissions).1;
      },
    )

-- after the token
unfoldable pub settle :
    Json
    → ℕ
    → String
    → Run
    → String
    → ApprovalStore
    → RunStore
    → Orchestrator
    → ResumeReply × Orchestrator
unfolding proposal_of dual_ready caught go_on
settle json now id r aid store rs o =
    let p = proposal_of json r in
    elim (dual_ready aid p store o.own_dual) [
      | err e ↦ caught json now id e rs o
      | ok _ ↦
          let (reply, store') = consume_approved now aid (expected_of p) (some id) store in
          elim reply [
            | err e ↦ caught json now id e rs o
            | ok _ ↦ go_on json now id r p store' rs o
          ]
    ]

abbrev pub token_reply : RunError → ResumeReply
token_reply omni_desk_ai.Runs.key_error = raised
token_reply _ = approval_not_satisfied

-- after the first look at the run
unfoldable pub take_token :
    Json → ℕ → String → Option String → Run → RunStore → Orchestrator → ResumeReply × Orchestrator
unfolding settle
take_token json now id token r rs o = elim (truthy r.waiting_approval_id) [
  | none ↦ (missing_approval_id, o)
  | some aid ↦ elim o.permissions.approval_store [
    | none ↦ (approval_store_unavailable, o)
    | some store ↦
        let (reply, rs') = consume_resume_token now id token rs in
        elim reply [
          | err e ↦ (token_reply e, with_runs rs' o)
          | ok _ ↦ settle json now id r aid store rs' o
        ]
  ]
]

unfoldable pub resume :
    Json → ℕ → String → Option String → Orchestrator → ResumeReply × Orchestrator
unfolding take_token
resume json now id token o = elim o.run_store [
  | none ↦ (resume_unavailable, o)
  | some rs ↦ elim (get id rs) [
    | none ↦ (not_found, o)
    | some r ↦ elim (require_resume_token id token rs) [
      | err _ ↦ (resume_denied, o)
      | ok _ ↦
          if r.status == "waiting_approval"
          then take_token json now id token r rs o
          else (not_waiting r.status, o)
    ]
  ]
]
