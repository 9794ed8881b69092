-- ===== src/Postgres/Approvals/Examples.antt =====
-- The approvals over Postgres on concrete data, and the theorem at an input that meets its hypotheses.
use omni_desk_ai.Shared.{◌≡◌, refl, true, none, some, List, [], ◌∷◌, err, arith}
use omni_desk_ai.Shared.Trace.{trace}
use omni_desk_ai.Shared.Strip.{strip}
use omni_desk_ai.Shared.Table.{find}
use omni_desk_ai.Approvals.{
  Proposal, ApprovalStore, permission_error, approved, proposal_requesters, check_prerequisites,
  new_approval,
}
use omni_desk_ai.Approvals.Invariant.{IsValid}
use omni_desk_ai.Approvals.History.{
  ApprovalCall, create_call, approver_call, decide_call, consume_call, step,
}
use omni_desk_ai.Postgres.State.{put}
use omni_desk_ai.Postgres.Approvals.{pg_create_approval, pg_open_dual}
use omni_desk_ai.Postgres.Approvals.History.{AreCommon, pg_step, approvals_agree}

abbrev proposal : Proposal
proposal = record {
  tool = some "shell";
  action = some "run";
  source = none;
  actor = some "ada";
  run_id = none;
  plan_id = none;
  step_index = none;
  scope_hash = none;
  created_by = none;
  proposer = none;
  requires_dual_approval = true;
}

abbrev store : ApprovalStore
store = record { ttl_seconds = 600; rows = []; dual = some [] }

abbrev calls : List ApprovalCall
calls =
    create_call 10 "1" proposal none
    ∷ approver_call 11 "1" "bo"
    ∷ approver_call 12 "1" "cy"
    ∷ decide_call 13 "1" approved "{}"
    ∷ consume_call 14 "1" none none
    ∷ []

store-IsValid : IsValid store
store-IsValid = ground arith

calls-AreCommon : AreCommon calls store
unfolding find check_prerequisites proposal_requesters strip
calls-AreCommon = ((refl, refl), (tt, (tt, (tt, (tt, tt)))))

approvals_agree_example : trace pg_step calls store ≡ trace step calls store
approvals_agree_example = approvals_agree calls store calls-AreCommon store-IsValid

-- a critical proposal without a requester: it is refused, and its pending row stays
refused_leaves_row : pg_create_approval 10 "1" (record proposal { actor = none }) none store ≡ (
  err permission_error,
  record store { rows = new_approval 10 "1" (record proposal { actor = none }) none store ∷ [] },
)
unfolding pg_create_approval pg_open_dual put find new_approval proposal_requesters
refused_leaves_row = refl
