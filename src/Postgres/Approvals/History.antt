-- ===== src/Postgres/Approvals/History.antt =====
-- Sequences of calls on the approvals over Postgres, and the same calls on those over SQLite.
use omni_desk_ai.Shared.{
  ℕ, ◌≡◌, refl, sym, ap, ◌∙◌, String, Option, none, some, List, [], ◌∷◌, Option-cases, inl, inr,
  Result, ok, err,
}
use mathlib.Core.Path.{subst}
use omni_desk_ai.Shared.Trace.{trace, trace-trace}
use omni_desk_ai.Approvals.{ApprovalError, Approval, ApprovalStore}
use omni_desk_ai.Approvals.Invariant.{IsValid}
use omni_desk_ai.Approvals.Separation.{IsGate}
use omni_desk_ai.Approvals.Creation.{approve_dual}
use omni_desk_ai.Approvals.History.{
  ApprovalCall, create_call, approver_call, decide_call, consume_call, step, step-IsValid,
}
use omni_desk_ai.Postgres.Approvals.Agree.{
  IsCommon, pg_approve-approve, pg_decide-decide, pg_consume-consume, pg_create-create_approval,
}
use omni_desk_ai.Postgres.Approvals.{pg_approve, pg_create_approval, pg_decide, pg_consume_approved}

pg_approve_dual : ℕ → String → String → ApprovalStore → ApprovalStore
unfolding pg_approve
pg_approve_dual now id approver s = elim s.dual [
  | none ↦ s
  | some t ↦ record s { dual = some (pg_approve now id approver t).1 }
]

pg_approve_dual-approve_dual :
    (now : ℕ) (id approver : String) (s : ApprovalStore)
    → IsValid s
    → pg_approve_dual now id approver s ≡ approve_dual now id approver s
unfolding pg_approve_dual approve_dual
pg_approve_dual-approve_dual now id approver s v = elim (Option-cases s.dual) [
  | inl d ↦ rw (pg_approve_dual, approve_dual, d) refl
  | inr (t, d) ↦
      let g : IsGate t = subst (λ o. IsGate (elim o [ none ↦ [] | some u ↦ u ])) d v.gate in
      rw (pg_approve_dual, approve_dual, d)
        (ap (λ u. record s { dual = some u.1 }) (pg_approve-approve now id approver t g.ids))
]

abbrev pub granted : Result ApprovalError Approval → Option Approval
granted (ok a) = some a
granted (err _) = none

unfoldable pub pg_step : ApprovalCall → ApprovalStore → Option Approval × ApprovalStore
unfolding pg_approve_dual
pg_step (create_call now id p ttl) s = (none, (pg_create_approval now id p ttl s).1)
pg_step (approver_call now id approver) s = (none, pg_approve_dual now id approver s)
pg_step (decide_call now id st result) s = (none, (pg_decide now id st result s).1)
pg_step (consume_call now id expected run) s =
    let (r, s1) = pg_consume_approved now id expected run s in (granted r, s1)

pg_step-step :
    (c : ApprovalCall) (s : ApprovalStore) → IsCommon c s → IsValid s → pg_step c s ≡ step c s
unfolding pg_step step
pg_step-step (create_call now id p ttl) s n v =
    ap (λ x. (none, x.1)) (pg_create-create_approval now id p ttl s n)
pg_step-step (approver_call now id approver) s n v =
    ap (λ x. (none, x)) (pg_approve_dual-approve_dual now id approver s v)
pg_step-step (decide_call now id st result) s n v =
    ap (λ x. (none, x.1)) (pg_decide-decide now id st result s v.ids)
pg_step-step (consume_call now id expected run) s n v =
    let f : Result ApprovalError Approval × ApprovalStore → Option Approval × ApprovalStore =
      λ x. (granted x.0, x.1) in
    elim (pg_consume-consume now id expected run s v.ids) [
      | inl e ↦ ap f e
      | inr (p, q) ↦ ap f p ∙ sym (ap f q)
    ]

abbrev pub AreCommon : List ApprovalCall → ApprovalStore → Type 0
AreCommon [] s = Unit
AreCommon (c ∷ cs) s = IsCommon c s × AreCommon cs (step c s).1

-- what holds of the calls and the store on the way
record IsOnWay (cs : List ApprovalCall) (s : ApprovalStore) : Type 0 where
  common : AreCommon cs s
  valid : IsValid s

-- From a valid store, the approvals over Postgres and over SQLite let runs use the same approvals and
-- hold the same rows and the same gate at the end, over any calls in which each new approval has a new
-- id and, if it is critical, a gate and a requester.
pub approvals_agree :
    (cs : List ApprovalCall) (s : ApprovalStore)
    → AreCommon cs s
    → IsValid s
    → trace pg_step cs s ≡ trace step cs s
approvals_agree cs s n v =
    trace-trace pg_step step IsOnWay
      (λ c rest u w. (
        pg_step-step c u w.common.0 w.valid,
        record { common = w.common.1; valid = step-IsValid c u w.valid },
      ))
      cs s (record { common = n; valid = v })
