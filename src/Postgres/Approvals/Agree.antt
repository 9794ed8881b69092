-- ===== src/Postgres/Approvals/Agree.antt =====
-- The approvals over Postgres and those over SQLite agree, but on what a refused creation leaves.
use omni_desk_ai.Shared.{
  ℕ, ◌≡◌, ◌≢◌, refl, sym, ap, ◌∙◌, String, true, Option, none, some, List, [], ◌∷◌, ◌++◌, ◌==◌,
  arith, Option-cases, Bool-cases, Result-cases, inl, inr, ◌⊎◌, Result, ok, err, ◌>>◌,
}
use omni_desk_ai.Shared.Strip.{strip}
use omni_desk_ai.Shared.Table.{find, update, IsUnique, update-const, find-update_found}
use omni_desk_ai.Approvals.{
  Proposal, ApprovalError, key_error, permission_error, DualRow, dual_id, new_dual, open_dual, seat,
  approver_error, approve, Status, pending, approved, Approval, ApprovalStore, approval_id,
  eq_status, guarded, check_prerequisites, open_if_required, new_approval, create, decide_checks,
  can_decide, decided_row, decide, usable, scope_of, consumed_row, consume_approved, reread,
}
use omni_desk_ai.Approvals.History.{ApprovalCall, create_call}
use omni_desk_ai.Postgres.State.{insert_once, put}
use omni_desk_ai.Postgres.Locked.{update_locked-none, update_locked_raises, update_locked_writes}
use omni_desk_ai.Postgres.Approvals.{
  pg_open_dual, pg_seat, pg_approve, pg_create_approval, with_approvals, pg_decide,
  pg_consume_approved,
}

pg_open-open_dual :
    (now : ℕ) (id : String) (p : Proposal) (t : List DualRow)
    → pg_open_dual now id p t ≡ open_dual now id p t
unfolding pg_open_dual insert_once open_dual new_dual
pg_open-open_dual now id p t = ground arith

pub pg_approve-approve :
    (now : ℕ) (id approver : String) (t : List DualRow)
    → IsUnique dual_id t
    → pg_approve now id approver t ≡ approve now id approver t
unfolding pg_approve pg_seat approve
pg_approve-approve now id approver t u =
    let name = strip approver in
    let f = pg_seat now name in
    elim (Bool-cases (name == "")) [
      | inl e ↦ rw (pg_approve, e, approve) refl
      | inr n ↦ elim (Option-cases (find dual_id id t)) [
        | inl e ↦
            let w = update_locked-none dual_id key_error id f t e in
            rw (pg_approve, n, w, w, approve, e) refl
        | inr (d, e) ↦ elim (Option-cases (approver_error name d)) [
          | inl a ↦
              let w =
                update_locked_writes dual_id key_error id f t (seat now name) u e
                  (rw (pg_seat, a) refl) in
              rw (pg_approve, n, w, w, approve, e, a) refl
          | inr (x, a) ↦
              let w =
                update_locked_raises dual_id key_error id f t {e = x} e (rw (pg_seat, a) refl) in
              rw (pg_approve, n, w, w, approve, e, a) refl
        ]
      ]
    ]

-- A guarded UPDATE of a row that passes the guard.
guarded_written :
    (st : Status) (f : Approval → Approval) (id : String) (t : List Approval) {a : Approval}
    → IsUnique approval_id t
    → find approval_id id t ≡ some a
    → eq_status a.status st ≡ true
    → update approval_id id (guarded st f) t ≡ update approval_id id f t
guarded_written st f id t {a} u e g =
    let at : guarded st f a ≡ f a = rw g refl in
    sym (update-const approval_id id (guarded st f) t u e)
    ∙ ap (λ x. update approval_id id (λ _. x) t) at
    ∙ update-const approval_id id f t u e

reread_updated :
    (f : Approval → Approval) (id : String) (s : ApprovalStore) {a : Approval}
    → ((x : Approval) → (f x).id ≡ x.id)
    → find approval_id id s.rows ≡ some a
    → reread id (with_approvals (update approval_id id f s.rows) s) ≡ ok (f a)
reread_updated f id s k e = rw (reread, find-update_found approval_id id f s.rows k e) refl

decided-pending :
    (now : ℕ) (id : String) (st : Status) (a : Approval) (s : ApprovalStore) {x : Unit {0}}
    → decide_checks now id st a s ≡ ok x
    → eq_status a.status pending ≡ true
unfolding decide_checks
decided-pending now id st a s h = ground arith

usable-approved :
    (now : ℕ) (id : String) (expected : Option Proposal) (a : Approval) (s : ApprovalStore)
    {x : Unit {0}}
    → usable now id expected a s ≡ ok x
    → eq_status a.status approved ≡ true
unfolding usable
usable-approved now id expected a s h = ground arith

pub pg_decide-decide :
    (now : ℕ) (id : String) (st : Status) (result : String) (s : ApprovalStore)
    → IsUnique approval_id s.rows
    → pg_decide now id st result s ≡ decide now id st result s
unfolding pg_decide decide
pg_decide-decide now id st result s u =
    let g = decided_row now st result in
    let f : Approval → Result ApprovalError Approval =
      λ a. decide_checks now id st a s >> ok (g a) in
    elim (Bool-cases (can_decide st)) [
      | inr c ↦ rw (pg_decide, c, decide) refl
      | inl c ↦ elim (Option-cases (find approval_id id s.rows)) [
        | inl e ↦
            let w = update_locked-none approval_id key_error id f s.rows e in
            rw (pg_decide, c, w, decide, e) refl
        | inr (a, e) ↦ elim (Result-cases (decide_checks now id st a s)) [
          | inr (x, k) ↦
              let w =
                update_locked_raises approval_id key_error id f s.rows {e = x} e (rw k refl) in
              rw (pg_decide, c, w, decide, e, k) refl
          | inl (x, k) ↦
              let w = update_locked_writes approval_id key_error id f s.rows g u e (rw k refl) in
              let q = guarded_written pending g id s.rows u e (decided-pending now id st a s k) in
              rw (pg_decide, c, w, decide, e, k, q)
                (ap (λ r. (r, with_approvals (update approval_id id g s.rows) s))
                  (sym (reread_updated g id s (λ _. refl) e)))
        ]
      ]
    ]

-- A missing approval is a KeyError over Postgres and a PermissionError over SQLite.
pub pg_consume-consume :
    (now : ℕ) (id : String) (expected : Option Proposal) (run : Option String) (s : ApprovalStore)
    → IsUnique approval_id s.rows
    → (pg_consume_approved now id expected run s ≡ consume_approved now id expected run s)
      ⊎ ((pg_consume_approved now id expected run s ≡ (err key_error, s))
          × (consume_approved now id expected run s ≡ (err permission_error, s)))
unfolding pg_consume_approved consume_approved
pg_consume-consume now id expected run s u =
    let g : Approval → Approval → Approval =
      λ a. consumed_row now run (scope_of expected a.proposal) in
    let f : Approval → Result ApprovalError Approval =
      λ a. usable now id expected a s >> ok (g a a) in
    elim (Option-cases (find approval_id id s.rows)) [
      | inl e ↦
          let w = update_locked-none approval_id key_error id f s.rows e in
          inr (rw (pg_consume_approved, w) refl, rw (consume_approved, e) refl)
      | inr (a, e) ↦ elim (Result-cases (usable now id expected a s)) [
        | inr (x, k) ↦
            let w = update_locked_raises approval_id key_error id f s.rows {e = x} e (rw k refl) in
            inl (rw (pg_consume_approved, w, consume_approved, e, k) refl)
        | inl (x, k) ↦
            let w = update_locked_writes approval_id key_error id f s.rows (g a) u e (rw k refl) in
            let q =
              guarded_written approved (g a) id s.rows u e
                (usable-approved now id expected a s k) in
            inl (
              rw (pg_consume_approved, w, consume_approved, e, k, q)
                (ap (λ r. (r, with_approvals (update approval_id id (g a) s.rows) s))
                  (sym (reread_updated (g a) id s (λ _. refl) e))))
      ]
    ]

-- The calls that both stores take alike: a new approval has a new id and meets what its gate asks for.
abbrev pub IsCommon : ApprovalCall → ApprovalStore → Type 0
IsCommon (create_call now id p ttl) s =
    (find approval_id id s.rows ≡ none) × (check_prerequisites p s ≡ ok tt)
IsCommon _ s = Unit

put_new :
    (a : Approval) (t : List Approval)
    → find approval_id a.id t ≡ none
    → put approval_id a t ≡ t ++ a ∷ []
unfolding put
put_new a t e = rw (put, e) refl

no_gate :
    (p : Proposal) (s : ApprovalStore)
    → p.requires_dual_approval ≡ true
    → s.dual ≡ none
    → check_prerequisites p s ≢ ok tt
unfolding check_prerequisites
no_gate p s b d h = ground arith

pub pg_create-create_approval :
    (now : ℕ) (id : String) (p : Proposal) (ttl : Option ℕ) (s : ApprovalStore)
    → IsCommon (create_call now id p ttl) s
    → pg_create_approval now id p ttl s ≡ create now id p ttl s
unfolding pg_create_approval create open_if_required
pg_create-create_approval now id p ttl s n =
    let a = new_approval now id p ttl s in
    let w = put_new a s.rows n.0 in
    elim (Bool-cases p.requires_dual_approval) [
      | inr b ↦ rw (pg_create_approval, create, n.1, n.0, w, open_if_required, b) refl
      | inl b ↦ elim (Option-cases s.dual) [
        | inl d ↦ absurd (no_gate p s b d n.1)
        | inr (t, d) ↦
            rw
              (
                pg_create_approval,
                create,
                n.1,
                n.0,
                w,
                open_if_required,
                b,
                d,
                pg_open-open_dual now id p t,
                w,
              )
              refl
      ]
    ]
