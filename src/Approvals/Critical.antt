-- ===== src/Approvals/Critical.antt =====
-- Critical approvals: what their use says about the people who approved it.
use omni_desk_ai.Shared.{
  ℕ, ◌≡◌, ◌≢◌, refl, ap, String, true, Option, none, some, List, [], arith, Option-cases, ok, inl,
  inr, ◌&&◌, is_some,
}
use omni_desk_ai.Shared.Text.{truthy}
use omni_desk_ai.Shared.Table.{find, key-find, All-find}
use omni_desk_ai.Approvals.Requests.{Proposal}
use omni_desk_ai.Approvals.Dual.{DualRow, dual_id, dual_status, decision}
use omni_desk_ai.Approvals.Store.{Approval, ApprovalStore, approval_id, require_ready, new_store}
use omni_desk_ai.Approvals.Decisions.{consume_approved}
use omni_desk_ai.Approvals.Separation.{IsApprover, IsSeparated, AreSeparated}
use omni_desk_ai.Approvals.Invariant.{IsLinked, dual_rows, IsValid}
use omni_desk_ai.Approvals.History.{ApprovalCall, replay, approvals-IsValid}
use omni_desk_ai.Approvals.Gate.{consume_approved-IsUsed}

-- The gate holds two different people for `id`, neither of whom asked for `p`.
pub record HasTwoPersons (s : ApprovalStore) (id : String) (p : Proposal) : Type 0 where
  pub row : DualRow
  pub recorded : find dual_id id (dual_rows s) ≡ some row
  pub first : String
  pub second : String
  pub is_first : row.first_approver ≡ some first
  pub is_second : row.second_approver ≡ some second
  pub first_ok : IsApprover p first
  pub second_ok : IsApprover p second
  pub distinct : first ≢ second

-- two places that count as filled
filled :
    (p : Proposal) (first second : Option String)
    → is_some (truthy first) && is_some (truthy second) ≡ true
    → AreSeparated p first second
    → (a b : String) × (first ≡ some a)
      × (second ≡ some b)
      × IsApprover p a
      × IsApprover p b
      × (a ≢ b)
filled p none second f v = ground arith
filled p (some a) none f v = ground arith
filled p (some a) (some b) f v = (a, b, refl, refl, v.0, v.1, v.2)

ready_row :
    (id : String) (p : Proposal) (s : ApprovalStore)
    → require_ready id p s ≡ ok tt
    → p.requires_dual_approval ≡ true
    → (row : DualRow) × (find dual_id id (dual_rows s) ≡ some row) × ((decision row).ready ≡ true)
unfolding require_ready dual_status
ready_row id p s h c = elim (Option-cases s.dual) [
  | inl d ↦ ground arith
  | inr (t, d) ↦ elim (Option-cases (find dual_id id t)) [
    | inl e ↦ ground arith
    | inr (row, e) ↦ (row, ground arith, ground arith)
  ]
]

linked_proposal :
    (s : ApprovalStore) (id : String) (a : Approval) (row : DualRow)
    → find approval_id id s.rows ≡ some a
    → find dual_id id (dual_rows s) ≡ some row
    → IsValid s
    → row.proposal ≡ a.proposal
linked_proposal s id a row e r v =
    let (b, f, p) = All-find dual_id (IsLinked s.rows) id (dual_rows s) v.linked r in
    let k = key-find dual_id id (dual_rows s) r in ground (arith, k, e, f, p)

ready-HasTwoPersons :
    (s : ApprovalStore) (id : String) (a : Approval)
    → IsValid s
    → find approval_id id s.rows ≡ some a
    → require_ready id a.proposal s ≡ ok tt
    → a.proposal.requires_dual_approval ≡ true
    → HasTwoPersons s id a.proposal
unfolding decision
ready-HasTwoPersons s id a v e r c =
    let (row, f, d) = ready_row id a.proposal s r c in
    let sep = All-find dual_id IsSeparated id (dual_rows s) v.gate.separated f in
    let (x, y, fx, fy, ox, oy, n) =
      filled row.proposal row.first_approver row.second_approver d sep in
    let p = linked_proposal s id a row e f v in
    record {
      row = row;
      recorded = f;
      first = x;
      second = y;
      is_first = fx;
      is_second = fy;
      first_ok = rw⁻¹ p ox;
      second_ok = rw⁻¹ p oy;
      distinct = n;
    }

pub empty-IsValid : (ttl : ℕ) → IsValid (new_store ttl (some []))
unfolding new_store
empty-IsValid ttl = record {
  rows_valid = tt;
  ids = tt;
  gate = record { separated = tt; ids = tt };
  linked = tt;
}

-- Whatever calls have gone before on a store that began empty: a run can use an approval that
-- requires dual approval only if the gate has recorded two different approvers for it, both with a
-- name and neither of them one of the requesters that the approval's proposal names.
pub consume_approved-HasTwoPersons :
    (cs : List ApprovalCall) (ttl now : ℕ) (id : String) (expected : Option Proposal)
    (run : Option String) {b : Approval}
    → (consume_approved now id expected run (replay cs (new_store ttl (some [])))).0 ≡ ok b
    → b.proposal.requires_dual_approval ≡ true
    → HasTwoPersons (replay cs (new_store ttl (some []))) id b.proposal
consume_approved-HasTwoPersons cs ttl now id expected run {b} h c =
    let s = replay cs (new_store ttl (some [])) in
    let v = approvals-IsValid cs (new_store ttl (some [])) (empty-IsValid ttl) in
    let (a, u) = consume_approved-IsUsed now id expected run s h in
    let p = ap (λ x. x.proposal) u.used in
    rw p (ready-HasTwoPersons s id a v u.found u.usable.is_ready (rw⁻¹ p c))
