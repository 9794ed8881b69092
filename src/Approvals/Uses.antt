-- ===== src/Approvals/Uses.antt =====
-- The uses that runs can make of an approval, over any sequence of calls.
use omni_desk_ai.Shared.{
  ℕ, ◌≡◌, ◌≢◌, refl, ap, ◌∙◌, String, Bool, true, false, Option, none, some, List, [], ◌∷◌, arith,
  Result-cases, ok, inl, inr, All,
}
use omni_desk_ai.Shared.Table.{find, key-find}
use omni_desk_ai.Approvals.Requests.{Proposal}
use omni_desk_ai.Approvals.Store.{
  Status, approved, denied, consumed, Approval, ApprovalStore, approval_id,
}
use omni_desk_ai.Approvals.Decisions.{consume_approved}
use omni_desk_ai.Approvals.History.{
  ApprovalCall, create_call, approver_call, decide_call, consume_call, step, replay, uses,
}
use omni_desk_ai.Approvals.Gate.{consume_approved-IsUsed}
use omni_desk_ai.Approvals.Transitions.{Moves, stays, approves, denies, consumes, step-Kept}

-- moves of a status, one after the other
pub data Reaches : Status → Status → Type 0 where
  here : (st : Status) → Reaches st st
  onward : (x y z : Status) → Moves x y → Reaches y z → Reaches x z

-- After any sequence of calls an approval is still there, for the same proposal and with the same
-- expiry, and its status has moved only from pending to approved or denied and from approved to
-- consumed.
pub replay-Reaches :
    (cs : List ApprovalCall) (j : String) (s : ApprovalStore) (a : Approval)
    → find approval_id j s.rows ≡ some a
    → (b : Approval) × (find approval_id j (replay cs s).rows ≡ some b)
      × Reaches a.status b.status
      × (b.proposal ≡ a.proposal)
      × (b.expires_at ≡ a.expires_at)
unfolding replay
replay-Reaches [] j s a f = (a, f, here a.status, refl, refl)
replay-Reaches (c ∷ cs) j s a f =
    let (b, fb, k) = step-Kept c j s a f in
    let (d, fd, r, p, e) = replay-Reaches cs j (step c s).1 b fb in
    (d, fd, onward a.status b.status d.status k.moves r, p ∙ k.same_proposal, e ∙ k.same_expiry)

-- `denied` and `consumed` are final.
abbrev pub is_final : Status → Bool
is_final denied = true
is_final consumed = true
is_final _ = false

final_stays : (x y : Status) → Moves x y → is_final x ≡ true → is_final y ≡ true
final_stays _ _ (stays x) f = f
final_stays _ _ approves f = ground arith
final_stays _ _ denies f = ground arith
final_stays _ _ consumes f = ground arith

abbrev pub IsNotUse : String → Option Approval → Type 0
IsNotUse id none = Unit
IsNotUse id (some b) = b.id ≢ id

-- A use is of an approval that was approved.
used_row :
    (now : ℕ) (i : String) (expected : Option Proposal) (run : Option String) (s : ApprovalStore)
    {b : Approval}
    → (consume_approved now i expected run s).0 ≡ ok b
    → (a : Approval) × (find approval_id b.id s.rows ≡ some a) × (a.status ≡ approved)
used_row now i expected run s {b} h =
    let (a, u) = consume_approved-IsUsed now i expected run s h in
    let k = key-find approval_id i s.rows u.found in
    (a, ground (arith, ap (λ x. x.id) u.used, k, u.found), u.usable.is_approved)

step-IsNotUse :
    (c : ApprovalCall) (id : String) (s : ApprovalStore) (a : Approval)
    → find approval_id id s.rows ≡ some a
    → is_final a.status ≡ true
    → IsNotUse id (step c s).0
unfolding step
step-IsNotUse (create_call now i p ttl) id s a f t = tt
step-IsNotUse (approver_call now i approver) id s a f t = tt
step-IsNotUse (decide_call now i st result) id s a f t = tt
step-IsNotUse (consume_call now i expected run) id s a f t =
    elim (Result-cases (consume_approved now i expected run s).0) [
      | inr (e, h) ↦ rw (h, IsNotUse) tt
      | inl (b, h) ↦
          let (x, fx, ax) = used_row now i expected run s h in
          rw (h, IsNotUse) (λ (same : b.id ≡ id). ground (arith, same, fx, ax, f, t))
    ]

-- A denied or a consumed approval is never used again, whatever calls follow.
pub final-IsNotUse :
    (cs : List ApprovalCall) (id : String) (s : ApprovalStore) (a : Approval)
    → find approval_id id s.rows ≡ some a
    → is_final a.status ≡ true
    → All (IsNotUse id) (uses cs s)
unfolding uses
final-IsNotUse [] id s a f t = tt
final-IsNotUse (c ∷ cs) id s a f t =
    let (b, fb, k) = step-Kept c id s a f in
    (
      step-IsNotUse c id s a f t,
      final-IsNotUse cs id (step c s).1 b fb (final_stays a.status b.status k.moves t),
    )

-- Once a run has used an approval, no later call lets any run use it: an approval is single-use.
pub consume_approved-uses :
    (cs : List ApprovalCall) (now : ℕ) (id : String) (expected : Option Proposal)
    (run : Option String) (s : ApprovalStore) {b : Approval}
    → (consume_approved now id expected run s).0 ≡ ok b
    → All (IsNotUse id) (uses cs (consume_approved now id expected run s).1)
consume_approved-uses cs now id expected run s {b} h =
    let (a, u) = consume_approved-IsUsed now id expected run s h in
    final-IsNotUse cs id (consume_approved now id expected run s).1 b u.written
      (ground (arith, ap (λ x. x.status) u.used))
