-- ===== src/BreakGlass/Steps.antt =====
-- `approve` activates the row of its session and `revoke` revokes it, over either store.
use omni_desk_ai.Shared.{
  ℕ, ◌≡◌, refl, sym, ap, ◌∙◌, String, true, some, List, ◌⊎◌, inl, inr, ◌==◌, eq_iff, arith,
  Option-cases, Bool-cases, Result, Result-cases, ok, err, if◌then◌else◌,
}
use omni_desk_ai.Shared.Strip.{strip}
use omni_desk_ai.Shared.Table.{find, update, IsUnique, update-const, count-key}
use omni_desk_ai.Postgres.Locked.{update_locked-none, update_locked_raises, update_locked_writes}
use omni_desk_ai.BreakGlass.Rules.{
  BreakGlassError, SessionRow, BreakGlassStore, session_id_of, check_second_approver, key_error,
}
use omni_desk_ai.BreakGlass.Sqlite.{
  with_rows, ttl_of, activate, is_waiting, approved_answer, approve_rows, approve_session,
  revoke_row, revoke_session, get_session,
}
use omni_desk_ai.BreakGlass.Stores.{pg_activate, pg_approve_session, pg_revoke_session}
use omni_desk_ai.BreakGlass.History.{
  Backend, sqlite, postgres, BreakGlassCall, open_call, request_call, approve_call, revoke_call,
  step,
}
use omni_desk_ai.BreakGlass.Openings.{
  open_session-IsChange, request_delegated-IsChange, pg_open-open, pg_request-request,
}
use omni_desk_ai.BreakGlass.Changes.{IsChange, same, activated, revoked_row}

-- The answer of `approve` leaves the rows alone.
approved_answer-rows :
    (now : ℕ) (id name meta : String) (s : BreakGlassStore)
    → (approved_answer now id name meta s).1.rows ≡ s.rows
unfolding approved_answer
approved_answer-rows now id name meta s = elim (Result-cases (get_session now id s)) [
  | inl (x, h) ↦ rw (approved_answer, h) refl
  | inr (e, h) ↦ rw (approved_answer, h) refl
]

abbrev CanApprove : ℕ → String → SessionRow → ℕ → Type 0
CanApprove now name row ttl =
    (check_second_approver row name now ≡ ok tt) × (row.ttl_seconds ≡ some ttl)

ttl_of-ok : (row : SessionRow) {ttl : ℕ} → ttl_of row ≡ ok ttl → row.ttl_seconds ≡ some ttl
ttl_of-ok row h = ground arith

check-waiting :
    (row : SessionRow) (name : String) (now : ℕ)
    → check_second_approver row name now ≡ ok tt
    → is_waiting row ≡ true
unfolding check_second_approver
check-waiting row name now h = ground arith

-- The UPDATE of `approve` under SQLite, at a row that waits.
abbrev activate_waiting : ℕ → String → ℕ → SessionRow → SessionRow
activate_waiting now name ttl r = if is_waiting r then activate now name ttl r else r

update-waiting :
    (now : ℕ) (id name : String) (ttl : ℕ) (t : List SessionRow) {row : SessionRow}
    → IsUnique session_id_of t
    → find session_id_of id t ≡ some row
    → is_waiting row ≡ true
    → update session_id_of id (activate_waiting now name ttl) t
      ≡ update session_id_of id (activate now name ttl) t
update-waiting now id name ttl t {row} k f w =
    let at : activate_waiting now name ttl row ≡ activate now name ttl row = rw w refl in
    sym (update-const session_id_of id (activate_waiting now name ttl) t k f)
    ∙ ap (λ r. update session_id_of id (λ _. r) t) at
    ∙ update-const session_id_of id (activate now name ttl) t k f

approve_rows-activates :
    (now : ℕ) (id name : String) (ttl : ℕ) (t : List SessionRow) {row : SessionRow}
    → IsUnique session_id_of t
    → find session_id_of id t ≡ some row
    → check_second_approver row name now ≡ ok tt
    → ttl_of row ≡ ok ttl
    → approve_rows now id name t ≡ ok (update session_id_of id (activate now name ttl) t)
unfolding approve_rows
approve_rows-activates now id name ttl t {row} k f c d =
    let w = check-waiting row name now c in
    rw (approve_rows, f, c, d, count-key session_id_of id is_waiting t k, f, w)
      (ap ok (update-waiting now id name ttl t k f w))

-- A transaction that goes through activates the row of the id.
approve_rows-cases :
    (now : ℕ) (id name : String) (t : List SessionRow) {u : List SessionRow}
    → IsUnique session_id_of t
    → approve_rows now id name t ≡ ok u
    → (row : SessionRow) × (ttl : ℕ) × (find session_id_of id t ≡ some row)
      × CanApprove now name row ttl
      × (u ≡ update session_id_of id (activate now name ttl) t)
unfolding approve_rows
approve_rows-cases now id name t {u} k h = elim (Option-cases (find session_id_of id t)) [
  | inl f ↦ ground arith
  | inr (row, f) ↦ elim (Result-cases (check_second_approver row name now)) [
    | inr (e, c) ↦ ground arith
    | inl (x, c) ↦ elim (Result-cases (ttl_of row)) [
      | inr (e, d) ↦ ground arith
      | inl (ttl, d) ↦ (
        row,
        ttl,
        f,
        (c, ttl_of-ok row d),
        ground (arith, approve_rows-activates now id name ttl t k f c d),
      )
    ]
  ]
]

approve_session-IsChange :
    (now : ℕ) (id approver meta : String) (s : BreakGlassStore)
    → IsUnique session_id_of s.rows
    → IsChange
        (approve_call now id approver meta)
        s.rows
        (approve_session now id approver meta s).1.rows
unfolding approve_session
approve_session-IsChange now id approver meta s k = elim (Bool-cases (strip approver == "")) [
  | inl e ↦ same (rw (approve_session, e) refl)
  | inr n ↦ elim (Result-cases (approve_rows now id (strip approver) s.rows)) [
    | inr (e, h) ↦ same (rw (approve_session, n, h) refl)
    | inl (u, h) ↦
        let (row, ttl, f, (c, d), e) = approve_rows-cases now id (strip approver) s.rows k h in
        activated row now id approver meta ttl refl (ground (arith, eq_iff (strip approver) "")) f c
          d
          (rw (approve_session, n, h)
            (approved_answer-rows now id (strip approver) meta (with_rows u s) ∙ e))
  ]
]

pg_activate-cases :
    (now : ℕ) (name : String) (row : SessionRow)
    → ((ttl : ℕ) × CanApprove now name row ttl
        × (pg_activate now name row ≡ ok (activate now name ttl row)))
      ⊎ ((e : BreakGlassError) × (pg_activate now name row ≡ err e))
unfolding pg_activate
pg_activate-cases now name row = elim (Result-cases (check_second_approver row name now)) [
  | inr (e, c) ↦ inr (e, rw (pg_activate, c) refl)
  | inl (x, c) ↦ elim (Result-cases (ttl_of row)) [
    | inr (e, d) ↦ inr (e, rw (pg_activate, c, d) refl)
    | inl (ttl, d) ↦ inl (ttl, (c, ttl_of-ok row d), rw (pg_activate, c, d) refl)
  ]
]

pg_approve-IsChange :
    (now : ℕ) (id approver meta : String) (s : BreakGlassStore)
    → IsUnique session_id_of s.rows
    → IsChange
        (approve_call now id approver meta)
        s.rows
        (pg_approve_session now id approver meta s).1.rows
unfolding pg_approve_session
pg_approve-IsChange now id approver meta s k = elim (Bool-cases (strip approver == "")) [
  | inl e ↦ same (rw (pg_approve_session, e) refl)
  | inr n ↦ elim (Option-cases (find session_id_of id s.rows)) [
    | inl f ↦ same (
        rw
          (
            pg_approve_session,
            n,
            update_locked-none session_id_of key_error id (pg_activate now (strip approver)) s.rows
                f,
          )
          refl)
    | inr (row, f) ↦ elim (pg_activate-cases now (strip approver) row) [
      | inr (e, p) ↦ same (
          rw
            (
              pg_approve_session,
              n,
              update_locked_raises session_id_of key_error id (pg_activate now (strip approver))
                  s.rows f p,
            )
            refl)
      | inl (ttl, (c, d), p) ↦
          let a = activate now (strip approver) ttl in
          let w =
            update_locked_writes session_id_of key_error id (pg_activate now (strip approver))
              s.rows a k f p in
          activated row now id approver meta ttl refl (ground (arith, eq_iff (strip approver) "")) f
            c d
            (rw (pg_approve_session, n, w, w)
              (approved_answer-rows now id (strip approver) meta
                (with_rows (update session_id_of id a s.rows) s)))
    ]
  ]
]

revoke_session-IsChange :
    (now : ℕ) (id by : String) (s : BreakGlassStore)
    → IsChange (revoke_call now id by) s.rows (revoke_session now id by s).1.rows
unfolding revoke_session
revoke_session-IsChange now id by s = elim (Bool-cases (strip by == "")) [
  | inl e ↦ same (rw (revoke_session, e) refl)
  | inr n ↦ revoked_row now id (rw (revoke_session, n) refl)
]

pg_revoke-IsChange :
    (now : ℕ) (id by : String) (s : BreakGlassStore)
    → IsUnique session_id_of s.rows
    → IsChange (revoke_call now id by) s.rows (pg_revoke_session now id by s).1.rows
unfolding pg_revoke_session
pg_revoke-IsChange now id by s k =
    let f : SessionRow → Result BreakGlassError SessionRow = λ x. ok (revoke_row now x) in
    elim (Bool-cases (strip by == "")) [
      | inl e ↦ same (rw (pg_revoke_session, e) refl)
      | inr n ↦ elim (Option-cases (find session_id_of id s.rows)) [
        | inl e ↦ same (
            rw (pg_revoke_session, n, update_locked-none session_id_of key_error id f s.rows e)
              refl)
        | inr (row, e) ↦ revoked_row now id (
            let w =
              update_locked_writes session_id_of key_error id f s.rows (revoke_row now) k e refl in
            rw (pg_revoke_session, n, w, w) refl)
      ]
    ]

-- Every call is one of the changes.
pub step-IsChange :
    (b : Backend) (c : BreakGlassCall) (s : BreakGlassStore)
    → IsUnique session_id_of s.rows
    → IsChange c s.rows (step b c s).rows
unfolding step
step-IsChange sqlite (open_call now id actor reason by ttl meta) s k =
    open_session-IsChange now id actor reason by ttl meta s
step-IsChange sqlite (request_call now id actor reason by ttl window meta) s k =
    request_delegated-IsChange now id actor reason by ttl window meta s
step-IsChange sqlite (approve_call now id approver meta) s k =
    approve_session-IsChange now id approver meta s k
step-IsChange sqlite (revoke_call now id by) s k = revoke_session-IsChange now id by s
step-IsChange postgres (open_call now id actor reason by ttl meta) s k =
    rw (step, pg_open-open now id actor reason by ttl meta s)
      (open_session-IsChange now id actor reason by ttl meta s)
step-IsChange postgres (request_call now id actor reason by ttl window meta) s k =
    rw (step, pg_request-request now id actor reason by ttl window meta s)
      (request_delegated-IsChange now id actor reason by ttl window meta s)
step-IsChange postgres (approve_call now id approver meta) s k =
    pg_approve-IsChange now id approver meta s k
step-IsChange postgres (revoke_call now id by) s k = pg_revoke-IsChange now id by s k
