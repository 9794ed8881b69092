-- ===== src/Approvals/Invariant.antt =====
-- What holds of the approvals and of their two-person gate between two calls.
use omni_desk_ai.Shared.{
  ℕ, ◌==◌, ◌≡◌, refl, ◌∙◌, String, true, not, Option, none, some, List, [], arith, Option-cases,
  Bool-cases, Result-cases, inl, inr, All, All-imp, is_some,
}
use omni_desk_ai.Shared.Table.{find, update, IsUnique, All-update, IsUnique-update, find-update}
use omni_desk_ai.Approvals.Requests.{Proposal}
use omni_desk_ai.Approvals.Dual.{DualRow}
use omni_desk_ai.Approvals.Store.{
  Status, pending, approved, consumed, Approval, ApprovalStore, approval_id, eq_status, guarded,
}
use omni_desk_ai.Approvals.Decisions.{
  decide_checks, can_decide, decided_row, decide, usable, scope_of, consumed_row, consume_approved,
}
use omni_desk_ai.Approvals.Separation.{IsGate}

-- The times of a row agree with its status.
pub record IsValidRow (a : Approval) : Type 0 where
  pub decided : is_some a.decided_at ≡ not (eq_status a.status pending)
  pub consumed : is_some a.consumed_at ≡ eq_status a.status consumed

-- A row of the gate stands for an approval with the same proposal.
abbrev pub IsLinked : List Approval → DualRow → Type 0
IsLinked rows d =
    (a : Approval) × (find approval_id d.approval_id rows ≡ some a) × (a.proposal ≡ d.proposal)

abbrev pub dual_rows : ApprovalStore → List DualRow
dual_rows s = elim s.dual [ none ↦ [] | some t ↦ t ]

pub record IsValid (s : ApprovalStore) : Type 0 where
  pub rows_valid : All IsValidRow s.rows
  pub ids : IsUnique approval_id s.rows
  pub gate : IsGate (dual_rows s)
  pub linked : All (IsLinked s.rows) (dual_rows s)

IsLinked-update :
    (id : String) (f : Approval → Approval) (rows : List Approval) (d : DualRow)
    → ((a : Approval) → (f a).id ≡ a.id)
    → ((a : Approval) → (f a).proposal ≡ a.proposal)
    → IsLinked rows d
    → IsLinked (update approval_id id f rows) d
IsLinked-update id f rows d keep keep_p (a, e, p) = elim (Bool-cases (id == d.approval_id)) [
  | inl h ↦ (f a, find-update approval_id id d.approval_id f rows keep ∙ rw (h, e), keep_p a ∙ p)
  | inr h ↦ (a, find-update approval_id id d.approval_id f rows keep ∙ rw (h, e), p)
]

-- A write that keeps ids and proposals and gives valid rows keeps the invariant.
update-IsValid :
    (id : String) (f : Approval → Approval) (s : ApprovalStore)
    → ((a : Approval) → (f a).id ≡ a.id)
    → ((a : Approval) → (f a).proposal ≡ a.proposal)
    → ((a : Approval) → IsValidRow a → IsValidRow (f a))
    → IsValid s
    → IsValid (record s { rows = update approval_id id f s.rows })
update-IsValid id f s keep keep_p valid v = record {
  rows_valid = All-update approval_id IsValidRow id f s.rows (λ a _ r. valid a r) v.rows_valid;
  ids = IsUnique-update approval_id approval_id id f s.rows keep v.ids;
  gate = v.gate;
  linked = All-imp (dual_rows s) (λ d l. IsLinked-update id f s.rows d keep keep_p l) v.linked;
}

id-guarded :
    (st : Status) (f : Approval → Approval)
    → ((a : Approval) → (f a).id ≡ a.id)
    → (a : Approval) → (guarded st f a).id ≡ a.id
id-guarded st f keep a = ground (arith, keep a)

proposal-guarded :
    (st : Status) (f : Approval → Approval)
    → ((a : Approval) → (f a).proposal ≡ a.proposal)
    → (a : Approval) → (guarded st f a).proposal ≡ a.proposal
proposal-guarded st f keep a = ground (arith, keep a)

decided-IsValidRow :
    (now : ℕ) (st : Status) (result : String) (a : Approval)
    → can_decide st ≡ true
    → IsValidRow a
    → IsValidRow (guarded pending (decided_row now st result) a)
decided-IsValidRow now st result a c v = ground arith

consumed-IsValidRow :
    (now : ℕ) (run scope : Option String) (a : Approval)
    → IsValidRow a
    → IsValidRow (guarded approved (consumed_row now run scope) a)
consumed-IsValidRow now run scope a v = ground arith

pub decide-IsValid :
    (now : ℕ) (id : String) (st : Status) (result : String) (s : ApprovalStore)
    → IsValid s
    → IsValid (decide now id st result s).1
unfolding decide
decide-IsValid now id st result s v = elim (Bool-cases (can_decide st)) [
  | inr c ↦ rw (c, decide) v
  | inl c ↦ elim (Option-cases (find approval_id id s.rows)) [
    | inl e ↦ rw (c, e, decide) v
    | inr (a, e) ↦ elim (Result-cases (decide_checks now id st a s)) [
      | inr (x, k) ↦ rw (c, e, k, decide) v
      | inl (x, k) ↦
          let f = decided_row now st result in
          rw (c, e, k, decide)
            (update-IsValid id (guarded pending f) s (id-guarded pending f (λ a. refl))
              (proposal-guarded pending f (λ a. refl))
              (λ a r. decided-IsValidRow now st result a c r) v)
    ]
  ]
]

pub consume_approved-IsValid :
    (now : ℕ) (id : String) (expected : Option Proposal) (run : Option String) (s : ApprovalStore)
    → IsValid s
    → IsValid (consume_approved now id expected run s).1
unfolding consume_approved
consume_approved-IsValid now id expected run s v =
    elim (Option-cases (find approval_id id s.rows)) [
      | inl e ↦ rw (e, consume_approved) v
      | inr (a, e) ↦ elim (Result-cases (usable now id expected a s)) [
        | inr (x, k) ↦ rw (e, k, consume_approved) v
        | inl (x, k) ↦
            let scope = scope_of expected a.proposal in
            let f = consumed_row now run scope in
            rw (e, k, consume_approved)
              (update-IsValid id (guarded approved f) s (id-guarded approved f (λ a. refl))
                (proposal-guarded approved f (λ a. refl))
                (λ a r. consumed-IsValidRow now run scope a r) v)
      ]
    ]
