-- ===== src/Permissions/Examples.antt =====
-- Decisions of the permission manager on concrete actions.
use omni_desk_ai.Shared.{◌≡◌, refl, String, true, none, some, List, [], ◌∷◌}
use omni_desk_ai.Shared.Member.{mem}
use omni_desk_ai.Shared.Strip.{strip}
use omni_desk_ai.Shared.Text.{or_text}
use omni_desk_ai.Shared.Table.{find}
use omni_desk_ai.Approvals.{Proposal, new_store, create, open_dual, proposal_requesters}
use omni_desk_ai.Permissions.{
  Action, PermissionConfig, PermissionManager, Console, allowed, approval_required, remote_approval,
  interactive_cli, ask, deny, verify, remote_or_deny, classified, stamped, allow_approved_proposal,
}
use omni_desk_ai.Permissions.Grounds.{IsGrounded, verify-IsGrounded}
use omni_desk_ai.Permissions.Sessions.{
  PermissionCall, verify_call, replay, allow_approved_proposal-verify,
}
use omni_desk_ai.Permissions.Requests.{IsRequested, IsSame, has_name, remote_or_deny-IsRequested}

abbrev step : Proposal
step = record {
  tool = some "files";
  action = some "delete";
  source = some "telegram";
  actor = some "ada";
  run_id = some "r1";
  plan_id = some "p1";
  step_index = some 2;
  scope_hash = some "h";
  created_by = none;
  proposer = none;
  requires_dual_approval = true;
}

abbrev action : Action
action = record { risk = some "critical"; proposal = step }

abbrev config : PermissionConfig
config = record {
  approval_mode = remote_approval;
  default_mode = ask;
  no_tty_mode = deny;
  allow_low_risk_from = "local-cli" ∷ [];
  always_ask_tools = "files" ∷ [];
  require_dual_approval_for_risks = "critical" ∷ [];
}

abbrev manager : PermissionManager
manager = record {
  cfg = config;
  approval_store = some (new_store 600 (some []));
  session_allows = [];
  audit_log = [];
}

abbrev console : Console
console = record { answer = some "y" }

asks : (verify 5 "a1" console action manager).0 ≡ approval_required "a1" (stamped action)
unfolding verify new_store create stamped find strip open_dual
asks = refl

sends : (remote_or_deny 5 "a1" action manager).0 ≡ approval_required "a1" (stamped action)
unfolding remote_or_deny new_store create stamped find strip open_dual
sends = refl

remote_or_deny-IsRequested_example :
    IsRequested "a1" (stamped action) (remote_or_deny 5 "a1" action manager).1
    × IsSame action (stamped action)
    × ((stamped action).proposal.requires_dual_approval ≡ true)
    × (has_name action ≡ true
        → mem (strip (or_text (some "ada") "")) (proposal_requesters (stamped action).proposal)
          ≡ true)
    × (true ≡ true → has_name action ≡ true)
remote_or_deny-IsRequested_example =
    remote_or_deny-IsRequested 5 "a1" action (stamped action) manager {aid = "a1"} sends

abbrev local_manager : PermissionManager
local_manager = record manager { cfg = record config { approval_mode = interactive_cli } }

agrees : (verify 5 "a1" console action local_manager).0 ≡ allowed "interactive"
unfolding verify
agrees = refl

verify-IsGrounded_example : IsGrounded console (classified config action) local_manager
unfolding classified
verify-IsGrounded_example =
    verify-IsGrounded 5 "a1" console action local_manager "interactive" agrees

abbrev calls : List PermissionCall
calls = verify_call 6 "a2" console action ∷ []

allow_approved_proposal-verify_example :
    (reason : String) × ((verify 7 "a3" console action
        (replay calls (allow_approved_proposal action manager).1)).0
      ≡ allowed reason)
allow_approved_proposal-verify_example =
    allow_approved_proposal-verify calls 7 "a3" console action action manager refl
