-- ===== src/Approvals/Gate.antt =====
-- What must have happened before `consume_approved` lets a run use an approval.
use omni_desk_ai.Shared.{
  ℕ, ◌≡◌, ◌≢◌, ◌∙◌, String, Bool, false, not, Option, none, some, arith, Option-cases, Result-cases,
  ok, ◌>>◌, then-ok, inl, inr,
}
use omni_desk_ai.Shared.Table.{find, update, find-update_found, find-update_ne}
use omni_desk_ai.Approvals.Requests.{Proposal, permission_error}
use omni_desk_ai.Approvals.Store.{
  approved, Approval, ApprovalStore, approval_id, eq_status, when, is_expired, require_ready,
  guarded,
}
use omni_desk_ai.Approvals.Decisions.{
  mismatch, usable, scope_of, consumed_row, reread, consume_approved, validate_expected,
}

-- the expected fields are those of the proposal
abbrev pub IsExpected : Option Proposal → Proposal → Type 0
IsExpected none p = Unit
IsExpected (some e) p = mismatch e p ≡ false

-- `a` may be used now
pub record IsUsable (now : ℕ) (id : String) (expected : Option Proposal) (a : Approval)
    (s : ApprovalStore) : Type 0 where
  pub is_approved : a.status ≡ approved
  pub in_time : is_expired now a.expires_at ≡ false
  pub is_ready : require_ready id a.proposal s ≡ ok tt
  pub is_expected : IsExpected expected a.proposal

when-ok : (b : Bool) → when b permission_error ≡ ok tt → b ≡ false
when-ok b h = ground arith

validate_expected-IsExpected :
    (p : Proposal) (expected : Option Proposal)
    → validate_expected p expected ≡ ok tt
    → IsExpected expected p
unfolding validate_expected
validate_expected-IsExpected p none h = tt
validate_expected-IsExpected p (some e) h = when-ok (mismatch e p) h

usable-IsUsable :
    (now : ℕ) (id : String) (expected : Option Proposal) (a : Approval) (s : ApprovalStore)
    → usable now id expected a s ≡ ok tt
    → IsUsable now id expected a s
unfolding usable
usable-IsUsable now id expected a s e =
    let check4 = validate_expected a.proposal expected in
    let check3 = require_ready id a.proposal s in
    let check2 = when (not (eq_status a.status approved)) permission_error in
    let check1 = when (is_expired now a.expires_at) permission_error in
    let (expiry, e1) = then-ok check1 (check2 >> (check3 >> check4)) e in
    let (status, e2) = then-ok check2 (check3 >> check4) e1 in
    let (ready, e3) = then-ok check3 check4 e2 in
    record {
      is_approved = ground (arith, when-ok (not (eq_status a.status approved)) status);
      in_time = when-ok (is_expired now a.expires_at) expiry;
      is_ready = ready;
      is_expected = validate_expected-IsExpected a.proposal expected e3;
    }

-- `s'` is `s` after the use of `a` by `run`
pub record IsUsed (now : ℕ) (id : String) (expected : Option Proposal) (run : Option String)
    (s s' : ApprovalStore) (a b : Approval) : Type 0 where
  pub found : find approval_id id s.rows ≡ some a
  pub usable : IsUsable now id expected a s
  pub used : b ≡ consumed_row now run (scope_of expected a.proposal) a
  pub written : find approval_id id s'.rows ≡ some b
  pub others : (j : String) → id ≢ j → find approval_id j s'.rows ≡ find approval_id j s.rows

-- the store that the UPDATE of a use leaves
abbrev pub after_use : ℕ → String → Option String → Option String → ApprovalStore → ApprovalStore
after_use now id run scope s = record s {
  rows = update approval_id id (guarded approved (consumed_row now run scope)) s.rows;
}

module _ (now : ℕ) (id : String) (run scope : Option String) (s : ApprovalStore) where
  use_written :
      (a : Approval)
      → find approval_id id s.rows ≡ some a
      → a.status ≡ approved
      → find approval_id id (after_use now id run scope s).rows
        ≡ some (consumed_row now run scope a)
  use_written a e st =
      find-update_found approval_id id (guarded approved (consumed_row now run scope)) s.rows
        (λ x. ground arith) e
      ∙ ground arith

  use_others :
      (j : String)
      → id ≢ j
      → find approval_id j (after_use now id run scope s).rows ≡ find approval_id j s.rows
  use_others j n =
      find-update_ne approval_id id j (guarded approved (consumed_row now run scope)) s.rows
        (λ x. ground arith) n

after_use-IsUsed :
    (now : ℕ) (id : String) (expected : Option Proposal) (run : Option String) (s : ApprovalStore)
    (a : Approval) {b : Approval}
    → find approval_id id s.rows ≡ some a
    → IsUsable now id expected a s
    → reread id (after_use now id run (scope_of expected a.proposal) s) ≡ ok b
    → IsUsed now id expected run s (after_use now id run (scope_of expected a.proposal) s) a b
after_use-IsUsed now id expected run s a {b} e u h =
    let scope = scope_of expected a.proposal in
    let w = use_written now id run scope s a e u.is_approved in
    record {
      found = e;
      usable = u;
      used = ground (arith, w, h);
      written = ground (arith, w, h);
      others = use_others now id run scope s;
    }

-- A use that succeeds finds an approval that is approved, not expired, cleared by two people if it is
-- critical, and for the expected proposal; it marks that approval consumed by the run, at that time
-- and for that scope, replies it, and changes no other approval.
pub consume_approved-IsUsed :
    (now : ℕ) (id : String) (expected : Option Proposal) (run : Option String) (s : ApprovalStore)
    {b : Approval}
    → (consume_approved now id expected run s).0 ≡ ok b
    → (a : Approval) × IsUsed now id expected run s (consume_approved now id expected run s).1 a b
unfolding consume_approved
consume_approved-IsUsed now id expected run s {b} h =
    elim (Option-cases (find approval_id id s.rows)) [
      | inl e ↦ ground arith
      | inr (a, e) ↦ elim (Result-cases (usable now id expected a s)) [
        | inr (x, k) ↦ ground arith
        | inl (x, k) ↦ (
          a,
          rw (e, k, consume_approved)
              (after_use-IsUsed now id expected run s a e (usable-IsUsable now id expected a s k)
                (ground arith)),
        )
      ]
    ]
