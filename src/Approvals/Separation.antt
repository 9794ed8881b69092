-- ===== src/Approvals/Separation.antt =====
-- The rows of the two-person gate: who may stand in them, through `open` and `approve`.
use omni_desk_ai.Shared.{
  ℕ, ◌≡◌, ◌≢◌, refl, String, false, Option, none, some, List, arith, eq_iff, Option-cases,
  Bool-cases, inl, inr, ◌⊎◌, All, ◌==◌,
}
use omni_desk_ai.Shared.Strip.{strip}
use omni_desk_ai.Shared.Text.{truthy}
use omni_desk_ai.Shared.Member.{mem}
use omni_desk_ai.Shared.Table.{
  find, update, IsUnique, All-update_found, All-append, All-find, IsUnique-update, IsUnique-append,
}
use omni_desk_ai.Approvals.Requests.{Proposal, proposal_requesters}
use omni_desk_ai.Approvals.Dual.{
  DualRow, dual_id, is_first, new_dual, open_dual, seat, approver_error, approve,
}

-- someone with a name who did not ask for the action
pub record IsApprover (p : Proposal) (a : String) : Type 0 where
  pub named : a ≢ ""
  pub no_requester : mem a (proposal_requesters p) ≡ false

-- two places, filled in order by different people
abbrev pub AreSeparated : Proposal → Option String → Option String → Type 0
AreSeparated p none none = Unit
AreSeparated p none (some b) = ⊥
AreSeparated p (some a) none = IsApprover p a
AreSeparated p (some a) (some b) = IsApprover p a × IsApprover p b × (a ≢ b)

abbrev pub IsSeparated : DualRow → Type 0
IsSeparated d = AreSeparated d.proposal d.first_approver d.second_approver

-- what `approve` checks, of the two places
checked :
    (name : String) (d : DualRow)
    → approver_error name d ≡ none
    → (mem name (proposal_requesters d.proposal) ≡ false) × (is_first name d ≡ false)
unfolding approver_error
checked name d e = ground arith

-- the new places, by the old ones
AreSeparated-seat :
    (p : Proposal) (name : String) (first second : Option String)
    → IsApprover p name
    → (elim (truthy first) [ none ↦ false | some a ↦ a == name ]) ≡ false
    → AreSeparated p first second
    → AreSeparated p
        (elim (truthy first) [ none ↦ some name | some _ ↦ first ])
        (elim (truthy first) [
          | none ↦ second
          | some _ ↦ elim (truthy second) [ none ↦ some name | some _ ↦ second ]
        ])
AreSeparated-seat p name none none n f v = n
AreSeparated-seat p name none (some b) n f v = absurd v
AreSeparated-seat p name (some a) none n f v = ground (arith, eq_iff a "", eq_iff a name, v.named)
AreSeparated-seat p name (some a) (some b) n f v =
    ground (arith, eq_iff a "", eq_iff b "", v.0.named, v.1.named)

seat-IsSeparated :
    (now : ℕ) (name : String) (d : DualRow)
    → name ≢ ""
    → approver_error name d ≡ none
    → IsSeparated d
    → IsSeparated (seat now name d)
seat-IsSeparated now name d n e v =
    let (m, f) = checked name d e in
    ground (
      arith,
      AreSeparated-seat d.proposal name d.first_approver d.second_approver
          (record { named = n; no_requester = m }) f v,
    )

-- what holds of the table between two calls
pub record IsGate (t : List DualRow) : Type 0 where
  pub separated : All IsSeparated t
  pub ids : IsUnique dual_id t

pub open_dual-IsGate :
    (now : ℕ) (id : String) (p : Proposal) (t : List DualRow)
    → IsGate t
    → IsGate (open_dual now id p t).1
unfolding open_dual new_dual
open_dual-IsGate now id p t g = ground (
  arith,
  All-append IsSeparated t (new_dual now id p) g.separated,
  IsUnique-append dual_id t (new_dual now id p) g.ids,
)

pub id-seat :
    (now : ℕ) (name : String) (d : DualRow) → (seat now name d).approval_id ≡ d.approval_id
id-seat now name d = ground arith

pub proposal-seat :
    (now : ℕ) (name : String) (d : DualRow) → (seat now name d).proposal ≡ d.proposal
proposal-seat now name d = ground arith

seat-IsGate :
    (now : ℕ) (id name : String) (t : List DualRow) {d : DualRow}
    → name ≢ ""
    → find dual_id id t ≡ some d
    → approver_error name d ≡ none
    → IsGate t
    → IsGate (update dual_id id (seat now name) t)
seat-IsGate now id name t {d} n e a g = record {
  separated =
      All-update_found dual_id IsSeparated id (seat now name) t g.ids e g.separated
        (seat-IsSeparated now name d n a (All-find dual_id IsSeparated id t g.separated e));
  ids = IsUnique-update dual_id dual_id id (seat now name) t (id-seat now name) g.ids;
}

-- `approve` leaves the table alone, or seats a named approver in the row that it finds.
pub approve-cases :
    (now : ℕ) (id approver : String) (t : List DualRow)
    → ((approve now id approver t).1 ≡ t)
      ⊎ ((d : DualRow) × (strip approver ≢ "")
          × (find dual_id id t ≡ some d)
          × (approver_error (strip approver) d ≡ none)
          × ((approve now id approver t).1 ≡ update dual_id id (seat now (strip approver)) t))
unfolding approve
approve-cases now id approver t = elim (Bool-cases (strip approver == "")) [
  | inl e ↦ inl (rw (e, approve) refl)
  | inr n ↦ elim (Option-cases (find dual_id id t)) [
    | inl e ↦ inl (rw (n, e, approve) refl)
    | inr (d, f) ↦ elim (Option-cases (approver_error (strip approver) d)) [
      | inl a ↦
          inr (d, ground (arith, eq_iff (strip approver) ""), f, a, rw (n, f, a, approve) refl)
      | inr (e, a) ↦ inl (rw (n, f, a, approve) refl)
    ]
  ]
]

pub approve-IsGate :
    (now : ℕ) (id approver : String) (t : List DualRow)
    → IsGate t
    → IsGate (approve now id approver t).1
approve-IsGate now id approver t g = elim (approve-cases now id approver t) [
  | inl e ↦ rw e g
  | inr (d, n, f, a, e) ↦ rw e (seat-IsGate now id (strip approver) t n f a g)
]
