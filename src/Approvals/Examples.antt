-- ===== src/Approvals/Examples.antt =====
-- Runs of the approvals on concrete calls.
use omni_desk_ai.Shared.{◌≡◌, refl, true, none, some, List, [], ◌∷◌, ok, err, All}
use omni_desk_ai.Shared.Table.{find, update}
use omni_desk_ai.Shared.Strip.{strip}
use omni_desk_ai.Approvals.{
  Proposal, permission_error, integrity_error, approved, denied, consumed, Approval, ApprovalStore,
  approval_id, new_store, create, decide, approve, open_dual, consume_approved,
}
use omni_desk_ai.Approvals.Invariant.{IsValid}
use omni_desk_ai.Approvals.Creation.{approve_dual}
use omni_desk_ai.Approvals.History.{
  ApprovalCall, create_call, approver_call, decide_call, consume_call, step, replay, uses,
  approvals-IsValid,
}
use omni_desk_ai.Approvals.Gate.{IsUsed, consume_approved-IsUsed}
use omni_desk_ai.Approvals.Critical.{HasTwoPersons, empty-IsValid, consume_approved-HasTwoPersons}
use omni_desk_ai.Approvals.Uses.{Reaches, replay-Reaches, IsNotUse, consume_approved-uses}
use omni_desk_ai.Approvals.Refusals.{create_refused}

-- a critical step that ada asked for
abbrev delete_step : Proposal
delete_step = record {
  tool = some "files";
  action = some "delete";
  source = some "orchestrator";
  actor = some "ada";
  run_id = some "r1";
  plan_id = some "p1";
  step_index = some 2;
  scope_hash = some "h";
  created_by = some " ada ";
  proposer = none;
  requires_dual_approval = true;
}

abbrev empty : ApprovalStore
empty = new_store 600 (some [])

-- bob and eve approve; ada's attempt is refused
abbrev calls : List ApprovalCall
calls =
    create_call 100 "a1" delete_step none
    ∷ approver_call 110 "a1" "ada"
    ∷ approver_call 120 "a1" "bob"
    ∷ approver_call 130 "a1" "bob"
    ∷ decide_call 135 "a1" approved "{}"
    ∷ approver_call 140 "a1" " eve"
    ∷ decide_call 150 "a1" approved "{}"
    ∷ []

abbrev used_approval : Approval
used_approval = record {
  id = "a1";
  status = consumed;
  proposal = delete_step;
  result = some "{}";
  created_at = 100;
  expires_at = some 700;
  decided_at = some 150;
  consumed_at = some 200;
  consumed_by_run_id = some "r1";
  consumed_scope_hash = some "h";
}

abbrev ready : ApprovalStore
ready = replay calls empty

used_once : (consume_approved 200 "a1" (some delete_step) (some "r1") ready).0 ≡ ok used_approval
unfolding replay step create decide consume_approved approve_dual approve new_store find update
    strip open_dual
used_once = refl

expired : (consume_approved 701 "a1" none none ready).0 ≡ err permission_error
unfolding replay step create decide consume_approved approve_dual approve new_store find update
    strip open_dual
expired = refl

other_scope :
    (consume_approved 200 "a1" (some (record delete_step { scope_hash = some "g" })) none ready).0
    ≡ err permission_error
unfolding replay step create decide consume_approved approve_dual approve new_store find update
    strip open_dual
other_scope = refl

unrequested :
    create 1 "a2" (record delete_step { actor = some "  "; created_by = none }) none empty
    ≡ (err permission_error, empty)
unfolding replay step create decide consume_approved approve_dual approve new_store find update
    strip open_dual
unrequested = refl

consume_approved-HasTwoPersons_example : HasTwoPersons ready "a1" delete_step
consume_approved-HasTwoPersons_example =
    consume_approved-HasTwoPersons calls 600 200 "a1" (some delete_step) (some "r1") used_once refl

consume_approved-IsUsed_example :
    (a : Approval) × IsUsed 200 "a1"
      (some delete_step)
      (some "r1")
      ready
      (consume_approved 200 "a1" (some delete_step) (some "r1") ready).1
      a
      used_approval
consume_approved-IsUsed_example =
    consume_approved-IsUsed 200 "a1" (some delete_step) (some "r1") ready used_once

abbrev retries : List ApprovalCall
retries = consume_call 201 "a1" none none ∷ consume_call 202 "a1" none (some "r2") ∷ []

consume_approved-uses_example :
    All
      (IsNotUse "a1")
      (uses retries (consume_approved 200 "a1" (some delete_step) (some "r1") ready).1)
consume_approved-uses_example =
    consume_approved-uses retries 200 "a1" (some delete_step) (some "r1") ready used_once

abbrev denied_approval : Approval
denied_approval = record used_approval {
  status = denied;
  consumed_at = none;
  consumed_by_run_id = none;
  consumed_scope_hash = none;
}

replay-Reaches_example :
    (b : Approval) × (find approval_id "a1"
        (replay retries (record empty { rows = denied_approval ∷ [] })).rows
      ≡ some b)
    × Reaches denied b.status
    × (b.proposal ≡ delete_step)
    × (b.expires_at ≡ some 700)
replay-Reaches_example =
    replay-Reaches retries "a1" (record empty { rows = denied_approval ∷ [] }) denied_approval
      (unfold find in refl)

approvals-IsValid_example : IsValid ready
approvals-IsValid_example = approvals-IsValid calls empty (empty-IsValid 600)

-- the id of an approval that exists, no requester, and no gate
exists : (create 300 "a1" delete_step none ready).0 ≡ err integrity_error
unfolding replay step create decide consume_approved approve_dual approve new_store find update
    strip open_dual
exists = refl

no_gate : (create 300 "a2" delete_step none (new_store 600 none)).0 ≡ err permission_error
unfolding create new_store
no_gate = refl

create_refused_example : (create 300 "a1" delete_step none ready).1 ≡ ready
create_refused_example = create_refused 300 "a1" delete_step none ready exists
