-- ===== src/Approvals/Transitions.antt =====
-- The life of an approval under any calls: its status moves one way, its proposal never changes.
use omni_desk_ai.Shared.{
  ℕ, ◌≡◌, refl, ap, ◌∙◌, String, true, Option, some, [], ◌∷◌, ◌++◌, arith, ◌==◌, Option-cases,
  Bool-cases, Result-cases, inl, inr,
}
use omni_desk_ai.Shared.Table.{find, update, find-update, find-append}
use omni_desk_ai.Approvals.Requests.{Proposal}
use omni_desk_ai.Approvals.Store.{
  Status, pending, approved, denied, consumed, Approval, ApprovalStore, approval_id, eq_status,
  guarded, check_prerequisites, open_if_required, new_approval, create,
}
use omni_desk_ai.Approvals.Decisions.{
  usable, scope_of, consumed_row, consume_approved, can_decide, decide_checks, decided_row, decide,
}
use omni_desk_ai.Approvals.Creation.{approve_dual}
use omni_desk_ai.Approvals.History.{
  ApprovalCall, create_call, approver_call, decide_call, consume_call, step,
}

-- one move of a status
pub data Moves : Status → Status → Type 0 where
  stays : (st : Status) → Moves st st
  approves : Moves pending approved
  denies : Moves pending denied
  consumes : Moves approved consumed

-- `b` is what became of the approval `a` in one call
pub record Follows (a b : Approval) : Type 0 where
  pub moves : Moves a.status b.status
  pub same_id : b.id ≡ a.id
  pub same_proposal : b.proposal ≡ a.proposal
  pub same_expiry : b.expires_at ≡ a.expires_at

same-Follows : (a : Approval) → Follows a a
same-Follows a = record {
  moves = stays a.status;
  same_id = refl;
  same_proposal = refl;
  same_expiry = refl;
}

abbrev pub Kept : String → Approval → ApprovalStore → Type 0
Kept id a s = (b : Approval) × (find approval_id id s.rows ≡ some b) × Follows a b

updated-Kept :
    (id j : String) (f : Approval → Approval) (s : ApprovalStore) (a : Approval)
    → ((x : Approval) → Follows x (f x))
    → find approval_id j s.rows ≡ some a
    → Kept j a (record s { rows = update approval_id id f s.rows })
updated-Kept id j f s a fol e =
    let keep = λ (x : Approval). (fol x).same_id in
    elim (Bool-cases (id == j)) [
      | inl h ↦ (f a, find-update approval_id id j f s.rows keep ∙ rw (h, e) refl, fol a)
      | inr h ↦ (a, find-update approval_id id j f s.rows keep ∙ rw (h, e) refl, same-Follows a)
    ]

can_decide-Moves : (st : Status) → can_decide st ≡ true → Moves pending st
can_decide-Moves approved c = approves
can_decide-Moves denied c = denies
can_decide-Moves pending c = ground arith
can_decide-Moves consumed c = ground arith

eq_status-eq : (x y : Status) → eq_status x y ≡ true → x ≡ y
eq_status-eq x y h = ground arith

guarded-Follows :
    (st : Status) (f : Approval → Approval) (a : Approval)
    → (a.status ≡ st → Follows a (f a))
    → Follows a (guarded st f a)
guarded-Follows st f a fol = elim (Bool-cases (eq_status a.status st)) [
  | inl h ↦ rw h (fol (eq_status-eq a.status st h))
  | inr h ↦ rw h (same-Follows a)
]

decided-Follows :
    (now : ℕ) (st : Status) (result : String)
    → can_decide st ≡ true
    → (a : Approval) → Follows a (guarded pending (decided_row now st result) a)
decided-Follows now st result c a = guarded-Follows pending (decided_row now st result) a (λ e.
    record {
      moves = rw e (can_decide-Moves st c);
      same_id = refl;
      same_proposal = refl;
      same_expiry = refl;
    })

consumed-Follows :
    (now : ℕ) (run scope : Option String) (a : Approval)
    → Follows a (guarded approved (consumed_row now run scope) a)
consumed-Follows now run scope a = guarded-Follows approved (consumed_row now run scope) a (λ e.
    record { moves = rw e consumes; same_id = refl; same_proposal = refl; same_expiry = refl })

decide-Kept :
    (now : ℕ) (id : String) (st : Status) (result j : String) (s : ApprovalStore) (a : Approval)
    → find approval_id j s.rows ≡ some a
    → Kept j a (decide now id st result s).1
unfolding decide
decide-Kept now id st result j s a f = elim (Bool-cases (can_decide st)) [
  | inr c ↦ rw (c, decide) (a, f, same-Follows a)
  | inl c ↦ elim (Option-cases (find approval_id id s.rows)) [
    | inl e ↦ rw (c, e, decide) (a, f, same-Follows a)
    | inr (x, e) ↦ elim (Result-cases (decide_checks now id st x s)) [
      | inr (y, k) ↦ rw (c, e, k, decide) (a, f, same-Follows a)
      | inl (y, k) ↦
          rw (c, e, k, decide)
            (updated-Kept id j (guarded pending (decided_row now st result)) s a
              (decided-Follows now st result c) f)
    ]
  ]
]

consume_approved-Kept :
    (now : ℕ) (id : String) (expected : Option Proposal) (run : Option String) (j : String)
    (s : ApprovalStore) (a : Approval)
    → find approval_id j s.rows ≡ some a
    → Kept j a (consume_approved now id expected run s).1
unfolding consume_approved
consume_approved-Kept now id expected run j s a f =
    elim (Option-cases (find approval_id id s.rows)) [
      | inl e ↦ rw (e, consume_approved) (a, f, same-Follows a)
      | inr (x, e) ↦ elim (Result-cases (usable now id expected x s)) [
        | inr (y, k) ↦ rw (e, k, consume_approved) (a, f, same-Follows a)
        | inl (y, k) ↦
            let scope = scope_of expected x.proposal in
            rw (e, k, consume_approved)
              (updated-Kept id j (guarded approved (consumed_row now run scope)) s a
                (consumed-Follows now run scope) f)
      ]
    ]

-- A dual approval writes no approval row.
pub rows-open_if_required :
    (now : ℕ) (id : String) (p : Proposal) (s : ApprovalStore)
    → (open_if_required now id p s).1.rows ≡ s.rows
unfolding open_if_required
rows-open_if_required now id p s = ground arith

rows-approve_dual :
    (now : ℕ) (id approver : String) (s : ApprovalStore)
    → (approve_dual now id approver s).rows ≡ s.rows
unfolding approve_dual
rows-approve_dual now id approver s = ground arith

create-Kept :
    (now : ℕ) (id : String) (p : Proposal) (ttl : Option ℕ) (j : String) (s : ApprovalStore)
    (a : Approval)
    → find approval_id j s.rows ≡ some a
    → Kept j a (create now id p ttl s).1
unfolding create
create-Kept now id p ttl j s a f = elim (Result-cases (check_prerequisites p s)) [
  | inr (x, k) ↦ rw (k, create) (a, f, same-Follows a)
  | inl (x, k) ↦ elim (Option-cases (find approval_id id s.rows)) [
    | inr (b, e) ↦ rw (k, e, create) (a, f, same-Follows a)
    | inl e ↦
        let n = new_approval now id p ttl s in
        let s' = record s { rows = s.rows ++ n ∷ [] } in
        rw (k, e, create)
          (
            a,
            ap (find approval_id j) (rows-open_if_required now id p s')
                ∙ (find-append approval_id j s.rows n ∙ rw f refl),
            same-Follows a,
          )
  ]
]

pub step-Kept :
    (c : ApprovalCall) (j : String) (s : ApprovalStore) (a : Approval)
    → find approval_id j s.rows ≡ some a
    → Kept j a (step c s).1
unfolding step
step-Kept (create_call now id p ttl) j s a f = create-Kept now id p ttl j s a f
step-Kept (approver_call now id approver) j s a f =
    (a, ap (find approval_id j) (rows-approve_dual now id approver s) ∙ f, same-Follows a)
step-Kept (decide_call now id st result) j s a f = decide-Kept now id st result j s a f
step-Kept (consume_call now id expected run) j s a f =
    consume_approved-Kept now id expected run j s a f
