-- ===== src/Approvals/Refusals.antt =====
-- Refused calls: a raise of any method leaves the approvals and the gate as they were.
use omni_desk_ai.Shared.{
  ℕ, ◌≡◌, refl, ap, ◌∙◌, eq_refl, String, Option, none, some, List, [], ◌∷◌, ◌++◌, arith,
  Result-cases, Option-cases, Result, ok, err, inl, inr,
}
use omni_desk_ai.Shared.Table.{find, find-append}
use omni_desk_ai.Approvals.Requests.{Proposal, ApprovalError}
use omni_desk_ai.Approvals.Dual.{open_dual}
use omni_desk_ai.Approvals.Store.{
  Approval, ApprovalStore, approval_id, check_prerequisites, open_if_required, new_approval, create,
}
use omni_desk_ai.Approvals.Transitions.{rows-open_if_required}

-- what a raise leaves, of a method that replies and writes
abbrev IsAtomic : {A : Type 0} → ApprovalStore → Result ApprovalError A × ApprovalStore → Type 0
IsAtomic s (ok a, s') = Unit
IsAtomic s (err e, s') = s' ≡ s

-- What `create` checks before the INSERT is enough for the gate.
open_if_required-ok :
    (now : ℕ) (id : String) (p : Proposal) (s : ApprovalStore) (rows : List Approval) {x : Unit {0}}
    → check_prerequisites p s ≡ ok x
    → (open_if_required now id p (record s { rows = rows })).0 ≡ ok tt
unfolding check_prerequisites open_if_required open_dual
open_if_required-ok now id p s rows h = ground arith

create-IsAtomic :
    (now : ℕ) (id : String) (p : Proposal) (ttl : Option ℕ) (s : ApprovalStore)
    → IsAtomic s (create now id p ttl s)
unfolding create
create-IsAtomic now id p ttl s = elim (Result-cases (check_prerequisites p s)) [
  | inr (x, k) ↦ rw (k, create) refl
  | inl (x, k) ↦ elim (Option-cases (find approval_id id s.rows)) [
    | inr (b, e) ↦ rw (k, e, create) refl
    | inl e ↦
        rw
          (
            k,
            e,
            create,
            open_if_required-ok now id p s (s.rows ++ new_approval now id p ttl s ∷ []) k,
          )
          tt
  ]
]

of_refused :
    {A : Type 0} (s : ApprovalStore) (r : Result ApprovalError A × ApprovalStore)
    {e : ApprovalError}
    → IsAtomic s r
    → r.0 ≡ err e
    → r.1 ≡ s
of_refused s (ok a, u) i h = ground arith
of_refused s (err x, u) i h = i

-- A creation that is refused, because a critical proposal names no requester or has no gate or
-- because the id exists, leaves nothing behind, although the INSERT commits before the gate opens.
pub create_refused :
    (now : ℕ) (id : String) (p : Proposal) (ttl : Option ℕ) (s : ApprovalStore) {e : ApprovalError}
    → (create now id p ttl s).0 ≡ err e
    → (create now id p ttl s).1 ≡ s
create_refused now id p ttl s h =
    of_refused s (create now id p ttl s) (create-IsAtomic now id p ttl s) h

created_id :
    (now : ℕ) (id : String) (p : Proposal) (ttl : Option ℕ) (s : ApprovalStore) {x : Unit {0}}
    {aid : String}
    → check_prerequisites p s ≡ ok x
    → find approval_id id s.rows ≡ none
    → (create now id p ttl s).0 ≡ ok aid
    → aid ≡ id
unfolding create
created_id now id p ttl s k e h =
    ground (
      arith,
      k,
      e,
      h,
      open_if_required-ok now id p s (s.rows ++ new_approval now id p ttl s ∷ []) k,
    )

-- what a creation that succeeds leaves
pub create-found :
    (now : ℕ) (id : String) (p : Proposal) (ttl : Option ℕ) (s : ApprovalStore) {aid : String}
    → (create now id p ttl s).0 ≡ ok aid
    → find approval_id aid (create now id p ttl s).1.rows ≡ some (new_approval now id p ttl s)
unfolding create
create-found now id p ttl s {aid} h = elim (Result-cases (check_prerequisites p s)) [
  | inr (x, k) ↦ ground arith
  | inl (x, k) ↦ elim (Option-cases (find approval_id id s.rows)) [
    | inr (b, e) ↦ ground arith
    | inl e ↦
        let n = new_approval now id p ttl s in
        let rows = s.rows ++ n ∷ [] in
        let same = created_id now id p ttl s k e h in
        rw (k, e, create)
          (ap (find approval_id aid) (rows-open_if_required now id p (record s { rows = rows }))
            ∙ (ap (λ x. find approval_id x rows) same
                ∙ (find-append approval_id id s.rows n ∙ rw (e, eq_refl id) refl)))
  ]
]
