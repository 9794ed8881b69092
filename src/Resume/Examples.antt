-- ===== src/Resume/Examples.antt =====
-- The resume of a run on concrete stores.
use omni_desk_ai.Shared.{◌≡◌, refl, false, none, some, [], ◌∷◌}
use omni_desk_ai.Shared.Table.{find, update}
use omni_desk_ai.Approvals.{Proposal, Approval, approved, consume_approved}
use omni_desk_ai.Runs.{Run, consume_resume_token, require_resume_token, update_run}
use omni_desk_ai.Permissions.{PermissionManager, remote_approval, ask, deny}
use omni_desk_ai.Resume.{Json, Orchestrator, execute_plan, resume, resume_denied}
use omni_desk_ai.Resume.Granted.{IsGranted, resume-IsGranted}

abbrev send : Proposal
send = record {
  tool = some "channels";
  action = some "send";
  source = some "telegram";
  actor = some "ada";
  run_id = some "r1";
  plan_id = some "p1";
  step_index = some 1;
  scope_hash = some "h";
  created_by = some "ada";
  proposer = some "ada";
  requires_dual_approval = false;
}

abbrev json : Json
json = record {
  parse_proposal = λ _. some (record { risk = some "high"; proposal = send });
  error_text = λ _. "\"refused\"";
  is_empty_plan = λ _. false;
}

abbrev run : Run
run = record {
  id = "r1";
  status = "waiting_approval";
  original_message = "{}";
  plan_json = some "[1]";
  current_step_index = 1;
  results = [];
  waiting_approval_id = some "a1";
  approval_proposal_json = some "[2]";
  resume_token = some "t";
  created_at = 1;
  updated_at = 5;
}

abbrev approval : Approval
approval = record {
  id = "a1";
  status = approved;
  proposal = send;
  result = some "{}";
  created_at = 4;
  expires_at = some 600;
  decided_at = some 6;
  consumed_at = none;
  consumed_by_run_id = none;
  consumed_scope_hash = none;
}

abbrev permissions : PermissionManager
permissions = record {
  cfg = record {
    approval_mode = remote_approval;
    default_mode = ask;
    no_tty_mode = deny;
    allow_low_risk_from = [];
    always_ask_tools = [];
    require_dual_approval_for_risks = [];
  };
  approval_store = some (record { ttl_seconds = 600; rows = approval ∷ []; dual = none });
  session_allows = [];
  audit_log = [];
}

abbrev orchestrator : Orchestrator
orchestrator = record {
  run_store = some (record { runs = run ∷ [] });
  own_dual = none;
  permissions = permissions;
}

resumes : (resume json 9 "r1" (some "t") orchestrator).0 ≡ execute_plan "[1]" 1 []
unfolding resume require_resume_token consume_resume_token consume_approved find update
resumes = refl

-- the token was consumed, and the run does not wait any more
again :
    (resume json 9 "r1" (some "t") (resume json 9 "r1" (some "t") orchestrator).1).0 ≡ resume_denied
unfolding resume require_resume_token consume_resume_token consume_approved update_run find update
again = refl

resume-IsGranted_example :
    IsGranted json 9 "r1" (some "t") orchestrator (resume json 9 "r1" (some "t") orchestrator).1
resume-IsGranted_example = resume-IsGranted json 9 "r1" (some "t") orchestrator "[1]" 1 [] resumes
