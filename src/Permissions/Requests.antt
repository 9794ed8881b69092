-- ===== src/Permissions/Requests.antt =====
-- An action that needs an approval: what its request leaves in the approval store.
use omni_desk_ai.Shared.{
  ℕ, ◌≡◌, ◌≢◌, refl, sym, ◌∙◌, String, Bool, true, not, Option, none, some, List, [], ◌∷◌, ◌==◌,
  arith, eq_iff, eq_refl, Option-cases, Bool-cases, Result-cases, inl, inr, if◌then◌else◌,
}
use omni_desk_ai.Shared.Text.{or_text, truthy}
use omni_desk_ai.Shared.Strip.{strip}
use omni_desk_ai.Shared.Member.{mem}
use omni_desk_ai.Shared.Table.{find}
use omni_desk_ai.Approvals.{
  named, proposal_requesters, pending, Approval, ApprovalStore, approval_id, new_approval, create,
}
use omni_desk_ai.Approvals.Refusals.{create-found}
use omni_desk_ai.Permissions.Defs.{
  Action, PermissionManager, approval_required, stamped, lacks_requester, remote_or_deny,
}

-- the approval `aid` is pending for the action, and the action's actor counts as its requester
pub record IsRequested (aid : String) (a : Action) (m : PermissionManager) : Type 0 where
  pub store : ApprovalStore
  pub attached : m.approval_store ≡ some store
  pub row : Approval
  pub found : find approval_id aid store.rows ≡ some row
  pub undecided : row.status ≡ pending
  pub same : row.proposal ≡ a.proposal

named-keeps :
    (v : Option String) (k : String) (rest : List String)
    → mem k rest ≡ true
    → mem k (named v rest) ≡ true
named-keeps none k rest h = h
named-keeps (some s) k rest h = ground (arith, h)

strip_empty : strip "" ≡ ""
unfolding strip
strip_empty = refl

named_adds_text :
    (o : Option String) (rest : List String)
    → strip (elim o as (λ _. String) [ none ↦ "" | some s ↦ s ]) ≢ ""
    → mem
        (strip (elim o as (λ _. String) [ none ↦ "" | some s ↦ s ]))
        (elim o as (λ _. List String) [
          | none ↦ rest
          | some s ↦ if strip s == "" then rest else strip s ∷ rest
        ])
      ≡ true
named_adds_text none rest n = absurd (n strip_empty)
named_adds_text (some s) rest n = ground (arith, n, eq_iff (strip s) "", eq_refl (strip s))

named-adds :
    (v : Option String) (rest : List String)
    → strip (or_text v "") ≢ ""
    → mem (strip (or_text v "")) (named v rest) ≡ true
named-adds v rest n = named_adds_text (truthy v) rest n

actor-stamped : (a : Action) → (stamped a).proposal.actor ≡ a.proposal.actor
unfolding stamped
actor-stamped a = ground arith

-- The actor of a stamped proposal is among its requesters.
stamped-requester :
    (a : Action)
    → strip (or_text a.proposal.actor "") ≢ ""
    → mem (strip (or_text a.proposal.actor "")) (proposal_requesters (stamped a).proposal) ≡ true
unfolding proposal_requesters
stamped-requester a n =
    let p = (stamped a).proposal in
    let k = strip (or_text a.proposal.actor "") in
    named-keeps p.created_by k (named p.proposer (named p.actor [])) (
      named-keeps p.proposer k (named p.actor [])
        (rw (actor-stamped a) (named-adds a.proposal.actor [] n)))

-- the actions differ in created_by and proposer at most
abbrev pub IsSame : Action → Action → Type 0
IsSame a b =
    (b.risk ≡ a.risk)
    × (b.proposal.tool ≡ a.proposal.tool)
    × (b.proposal.action ≡ a.proposal.action)
    × (b.proposal.source ≡ a.proposal.source)
    × (b.proposal.actor ≡ a.proposal.actor)
    × (b.proposal.run_id ≡ a.proposal.run_id)
    × (b.proposal.plan_id ≡ a.proposal.plan_id)
    × (b.proposal.step_index ≡ a.proposal.step_index)
    × (b.proposal.scope_hash ≡ a.proposal.scope_hash)

stamped-IsSame : (a : Action) → IsSame a (stamped a)
unfolding stamped
stamped-IsSame a = ground arith

dual-stamped :
    (a : Action) → (stamped a).proposal.requires_dual_approval ≡ a.proposal.requires_dual_approval
unfolding stamped
dual-stamped a = ground arith

told :
    (x y : String) (a b : Action)
    → approval_required x a ≡ approval_required y b
    → (x ≡ y) × (a ≡ b)
told x y a b h = ground arith

-- the actor has a name
abbrev pub has_name : Action → Bool
has_name a = not (strip (or_text a.proposal.actor "") == "")

-- An action that is sent to a human leaves a pending approval under the id that the caller is told,
-- for the proposal that the caller is told; that action is the given one, its risk and every field of
-- its proposal, but for created_by and proposer; its dual-approval mark is kept, and its actor is
-- among its requesters, if the actor has a name; a critical action whose actor has none is never
-- sent.
pub remote_or_deny-IsRequested :
    (now : ℕ) (id : String) (a b : Action) (m : PermissionManager) {aid : String}
    → (remote_or_deny now id a m).0 ≡ approval_required aid b
    → IsRequested aid b (remote_or_deny now id a m).1
      × IsSame a b
      × (b.proposal.requires_dual_approval ≡ a.proposal.requires_dual_approval)
      × (has_name a ≡ true
          → mem (strip (or_text a.proposal.actor "")) (proposal_requesters b.proposal) ≡ true)
      × (a.proposal.requires_dual_approval ≡ true → has_name a ≡ true)
unfolding remote_or_deny new_approval
remote_or_deny-IsRequested now id a b m {aid} h = elim (Option-cases m.approval_store) [
  | inl e ↦ ground arith
  | inr (store, e) ↦ elim (Bool-cases (lacks_requester a)) [
    | inl l ↦ ground arith
    | inr l ↦ elim (Result-cases (create now id (stamped a).proposal none store).0) [
      | inr (x, r) ↦ ground arith
      | inl (x, r) ↦
          let t = stamped a in
          let (same_id, same) = told x aid t b (sym (rw (e, l, r, remote_or_deny) refl) ∙ h) in
          rw⁻¹ (same_id, same)
            (
              rw (e, l, r, remote_or_deny)
                  (record {
                    store = (create now id t.proposal none store).1;
                    attached = refl;
                    row = new_approval now id t.proposal none store;
                    found = create-found now id t.proposal none store r;
                    undecided = refl;
                    same = refl;
                  }),
              stamped-IsSame a,
              dual-stamped a,
              (λ n.
                  stamped-requester a
                    (ground (arith, n, eq_iff (strip (or_text a.proposal.actor "")) ""))),
              (λ d. ground (arith, d, l)),
            )
    ]
  ]
]
