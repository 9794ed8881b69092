-- ===== src/Approvals/Creation.antt =====
-- `create` and the approvers of the two-person gate keep the invariant of the approvals.
use omni_desk_ai.Shared.{
  ℕ, ◌≡◌, refl, sym, ap, ◌∙◌, String, Option, none, some, List, [], ◌∷◌, ◌++◌, arith, eq_refl,
  Option-cases, Bool-cases, Result-cases, inl, inr, All, All-imp,
}
use omni_desk_ai.Shared.Strip.{strip}
use omni_desk_ai.Shared.Table.{find, All-update, All-append, IsUnique-append, find-append}
use omni_desk_ai.Approvals.Requests.{Proposal}
use omni_desk_ai.Approvals.Dual.{DualRow, dual_id, new_dual, open_dual, seat, approve}
use omni_desk_ai.Approvals.Store.{
  Approval, ApprovalStore, approval_id, check_prerequisites, open_if_required, new_approval, create,
}
use omni_desk_ai.Approvals.Separation.{
  IsGate, open_dual-IsGate, id-seat, proposal-seat, approve-cases, approve-IsGate,
}
use omni_desk_ai.Approvals.Invariant.{IsValidRow, IsLinked, dual_rows, IsValid}

IsLinked-append :
    (rows : List Approval) (x : Approval) (d : DualRow)
    → IsLinked rows d
    → IsLinked (rows ++ x ∷ []) d
IsLinked-append rows x d (a, e, p) =
    (a, find-append approval_id d.approval_id rows x ∙ rw e refl, p)

appended-IsValid :
    (s : ApprovalStore) (x : Approval)
    → find approval_id x.id s.rows ≡ none
    → IsValidRow x
    → IsValid s
    → IsValid (record s { rows = s.rows ++ x ∷ [] })
appended-IsValid s x n r v = record {
  rows_valid = All-append IsValidRow s.rows x v.rows_valid r;
  ids = IsUnique-append approval_id s.rows x v.ids n;
  gate = v.gate;
  linked = All-imp (dual_rows s) (λ d l. IsLinked-append s.rows x d l) v.linked;
}

gated-IsValid :
    (s : ApprovalStore) (t : List DualRow)
    → IsValid s
    → IsGate t
    → All (IsLinked s.rows) t
    → IsValid (record s { dual = some t })
gated-IsValid s t v g l = record { rows_valid = v.rows_valid; ids = v.ids; gate = g; linked = l }

table_ok : (s : ApprovalStore) (t : List DualRow) → s.dual ≡ some t → IsValid s → IsGate t
table_ok s t e v = ground (arith, v.gate)

links_of :
    (s : ApprovalStore) (t : List DualRow) → s.dual ≡ some t → IsValid s → All (IsLinked s.rows) t
links_of s t e v = ground (arith, v.linked)

open_dual-IsLinked :
    (now : ℕ) (id : String) (p : Proposal) (rows : List Approval) (t : List DualRow)
    → IsLinked rows (new_dual now id p)
    → All (IsLinked rows) t
    → All (IsLinked rows) (open_dual now id p t).1
unfolding open_dual
open_dual-IsLinked now id p rows t n l =
    ground (arith, All-append (IsLinked rows) t (new_dual now id p) l n)

open_if_required-IsValid :
    (now : ℕ) (id : String) (p : Proposal) (s : ApprovalStore)
    → IsLinked s.rows (new_dual now id p)
    → IsValid s
    → IsValid (open_if_required now id p s).1
unfolding open_if_required
open_if_required-IsValid now id p s n v = elim (Bool-cases p.requires_dual_approval) [
  | inr e ↦ rw (e, open_if_required) v
  | inl e ↦ elim (Option-cases s.dual) [
    | inl d ↦ rw (e, d, open_if_required) v
    | inr (t, d) ↦
        let r = (open_dual now id p t).1 in
        rw (e, d, open_if_required)
          (gated-IsValid s r v (open_dual-IsGate now id p t (table_ok s t d v))
            (open_dual-IsLinked now id p s.rows t n (links_of s t d v)))
  ]
]

pub create-IsValid :
    (now : ℕ) (id : String) (p : Proposal) (ttl : Option ℕ) (s : ApprovalStore)
    → IsValid s
    → IsValid (create now id p ttl s).1
unfolding create new_approval new_dual
create-IsValid now id p ttl s v = elim (Result-cases (check_prerequisites p s)) [
  | inr (x, k) ↦ rw (k, create) v
  | inl (x, k) ↦ elim (Option-cases (find approval_id id s.rows)) [
    | inr (a, e) ↦ rw (k, e, create) v
    | inl e ↦
        let a = new_approval now id p ttl s in
        rw (k, e, create)
          (open_if_required-IsValid now id p (record s { rows = s.rows ++ a ∷ [] })
            (a, find-append approval_id id s.rows a ∙ rw (e, eq_refl id) refl, refl)
            (appended-IsValid s a e (record { decided = refl; consumed = refl }) v))
  ]
]

-- `approve` of the attached `DualApprovalStore`
unfoldable pub approve_dual : ℕ → String → String → ApprovalStore → ApprovalStore
approve_dual now id approver s = elim s.dual [
  | none ↦ s
  | some t ↦ record s { dual = some (approve now id approver t).1 }
]

IsLinked-seat :
    (now : ℕ) (name : String) (rows : List Approval) (d : DualRow)
    → IsLinked rows d
    → IsLinked rows (seat now name d)
IsLinked-seat now name rows d (a, e, p) = (
  a,
  ap (λ k. find approval_id k rows) (id-seat now name d) ∙ e,
  p ∙ sym (proposal-seat now name d),
)

approve-IsLinked :
    (now : ℕ) (id approver : String) (rows : List Approval) (t : List DualRow)
    → All (IsLinked rows) t
    → All (IsLinked rows) (approve now id approver t).1
approve-IsLinked now id approver rows t l = elim (approve-cases now id approver t) [
  | inl e ↦ rw e l
  | inr (d, n, f, a, e) ↦ rw e (
      All-update dual_id (IsLinked rows) id (seat now (strip approver)) t
        (λ d _ k. IsLinked-seat now (strip approver) rows d k) l)
]

pub approve_dual-IsValid :
    (now : ℕ) (id approver : String) (s : ApprovalStore)
    → IsValid s
    → IsValid (approve_dual now id approver s)
unfolding approve_dual
approve_dual-IsValid now id approver s v = elim (Option-cases s.dual) [
  | inl d ↦ rw (d, approve_dual) v
  | inr (t, d) ↦
      rw (d, approve_dual)
        (gated-IsValid s (approve now id approver t).1 v
          (approve-IsGate now id approver t (table_ok s t d v))
          (approve-IsLinked now id approver s.rows t (links_of s t d v)))
]
