-- ===== src/Approvals/History.antt =====
-- Sequences of calls on the approvals and their two-person gate, by requesters, approvers and runs.
use omni_desk_ai.Shared.{ℕ, String, Option, none, some, List, [], ◌∷◌, ok, err}
use omni_desk_ai.Approvals.Requests.{Proposal}
use omni_desk_ai.Approvals.Store.{Status, Approval, ApprovalStore, create}
use omni_desk_ai.Approvals.Decisions.{decide, consume_approved}
use omni_desk_ai.Approvals.Invariant.{IsValid, decide-IsValid, consume_approved-IsValid}
use omni_desk_ai.Approvals.Creation.{approve_dual, create-IsValid, approve_dual-IsValid}

-- One call of a method that can write, with the clock and the uuid that it reads. A dual approval
-- is opened by `create` alone.
pub data ApprovalCall : Type 0 where
  create_call : ℕ → String → Proposal → Option ℕ → ApprovalCall
  approver_call : ℕ → String → String → ApprovalCall
  decide_call : ℕ → String → Status → String → ApprovalCall
  consume_call : ℕ → String → Option Proposal → Option String → ApprovalCall

-- the approval that the call lets a run use, and the store after it
unfoldable pub step : ApprovalCall → ApprovalStore → Option Approval × ApprovalStore
step (create_call now id p ttl) s = (none, (create now id p ttl s).1)
step (approver_call now id approver) s = (none, approve_dual now id approver s)
step (decide_call now id st result) s = (none, (decide now id st result s).1)
step (consume_call now id expected run) s =
    let (r, s') = consume_approved now id expected run s in
    (elim r [ ok a ↦ some a | err _ ↦ none ], s')

unfoldable pub replay : List ApprovalCall → ApprovalStore → ApprovalStore
replay [] s = s
replay (c ∷ cs) s = replay cs (step c s).1

-- the approvals that a sequence of calls lets runs use
unfoldable pub uses : List ApprovalCall → ApprovalStore → List (Option Approval)
uses [] s = []
uses (c ∷ cs) s = let (o, s') = step c s in let rest = uses cs s' in o ∷ rest

pub step-IsValid : (c : ApprovalCall) (s : ApprovalStore) → IsValid s → IsValid (step c s).1
unfolding step
step-IsValid (create_call now id p ttl) s v = create-IsValid now id p ttl s v
step-IsValid (approver_call now id approver) s v = approve_dual-IsValid now id approver s v
step-IsValid (decide_call now id st result) s v = decide-IsValid now id st result s v
step-IsValid (consume_call now id expected run) s v =
    consume_approved-IsValid now id expected run s v

-- After any sequence of calls on a valid store the approval ids are unique, each row's times agree
-- with its status, each row of the two-person gate stands for an approval with the same proposal,
-- and its approvers are distinct, named and no requesters.
pub approvals-IsValid :
    (cs : List ApprovalCall) (s : ApprovalStore) → IsValid s → IsValid (replay cs s)
unfolding replay
approvals-IsValid [] s v = v
approvals-IsValid (c ∷ cs) s v = approvals-IsValid cs (step c s).1 (step-IsValid c s v)
