-- ===== src/BreakGlass/Granted.antt =====
-- Who stands behind a session that may be used.
use omni_desk_ai.Shared.{
  ℕ, ◌<◌, ◌≡◌, ◌≢◌, refl, sym, ap, ◌∙◌, String, true, Option, none, some, List, [], ◌∷◌, ◌⊎◌, inl,
  inr, ◌==◌, eq_iff, arith, All, Option-cases, Bool-cases, is_some, ok, if◌then◌else◌,
}
use mathlib.Core.Path.{subst}
use omni_desk_ai.Shared.Strip.{strip}
use omni_desk_ai.Shared.Table.{
  find, IsUnique, All-find, All-update, All-update_found, All-append, IsUnique-update,
  IsUnique-append, key-find,
}
use omni_desk_ai.BreakGlass.Rules.{
  SessionStatus, active, pending_second_approval, legacy_unapproved, is_active, SessionRow,
  BreakGlassStore, BreakGlassSession, session_id_of, status_of, is_pending, check_second_approver,
  session_from_record, require_usable,
}
use omni_desk_ai.BreakGlass.Sqlite.{activate, revoke_row, get_session, assert_active}
use omni_desk_ai.BreakGlass.History.{
  Backend, BreakGlassCall, approve_call, step, run, empty, Has, Among, Backs, IsBacked, Opens,
  Requests, Approves,
}
use omni_desk_ai.BreakGlass.Changes.{IsNew, IsChange, same, added, activated, revoked_row}
use omni_desk_ai.BreakGlass.Steps.{step-IsChange}

-- `revoke` writes one column.
revoked_of : ℕ → SessionRow → Option ℕ
revoked_of now r = if is_some r.revoked_at then r.revoked_at else some now

revoke_row-eq :
    (now : ℕ) (r : SessionRow) → revoke_row now r ≡ record r { revoked_at = revoked_of now r }
unfolding revoked_of
revoke_row-eq now r = elim (Bool-cases (is_some r.revoked_at)) [
  | inl e ↦ rw e refl
  | inr e ↦ rw e refl
]

pub id-revoke_row : (now : ℕ) (r : SessionRow) → (revoke_row now r).session_id ≡ r.session_id
id-revoke_row now r = ap (λ x. x.session_id) (revoke_row-eq now r)

pub IsChange-IsUnique :
    (c : BreakGlassCall) (t u : List SessionRow)
    → IsChange c t u
    → IsUnique session_id_of t
    → IsUnique session_id_of u
IsChange-IsUnique c t u (same e) k = rw e k
IsChange-IsUnique c t u (added r f e n) k = rw e (IsUnique-append session_id_of t r k f)
IsChange-IsUnique c t u (activated row now id approver meta ttl q n f d l e) k = rw e (
    IsUnique-update session_id_of session_id_of id (activate now (strip approver) ttl) t (λ r. refl)
      k)
IsChange-IsUnique c t u (revoked_row now id e) k =
    rw e (IsUnique-update session_id_of session_id_of id (revoke_row now) t (id-revoke_row now) k)

check-ok :
    (row : SessionRow) (name : String) (now : ℕ)
    → check_second_approver row name now ≡ ok tt
    → (is_pending row.status ≡ true) × (name ≢ row.approved_by) × (name ≢ row.actor)
unfolding check_second_approver
check-ok row name now h = ground (arith, eq_iff name row.approved_by, eq_iff name row.actor)

pending-eq : (s : Option SessionStatus) → is_pending s ≡ true → s ≡ some pending_second_approval
pending-eq (some pending_second_approval) h = refl
pending-eq (some active) h = ground arith
pending-eq (some legacy_unapproved) h = ground arith
pending-eq none h = ground arith

module _ (cs : List BreakGlassCall) where
  IsNew-IsBacked : (c : BreakGlassCall) (r : SessionRow) → Has c cs → IsNew c r → IsBacked cs r
  IsNew-IsBacked c r h (n, inl (s, o)) = rw s (inl (c, h, o))
  IsNew-IsBacked c r h (n, inr (s, q)) = rw s (c, h, q)

  activate-IsBacked :
      (row : SessionRow) (now : ℕ) (id approver meta : String) (ttl : ℕ)
      → Has (approve_call now id approver meta) cs
      → strip approver ≢ ""
      → row.session_id ≡ id
      → check_second_approver row (strip approver) now ≡ ok tt
      → row.ttl_seconds ≡ some ttl
      → IsBacked cs row
      → IsBacked cs (activate now (strip approver) ttl row)
  activate-IsBacked row now id approver meta ttl h n k d l b =
      let (p, m, a) = check-ok row (strip approver) now d in
      let q = subst (Backs cs row) (pending-eq row.status p) b in
      let w : Approves (activate now (strip approver) ttl row) (approve_call now id approver meta) =
        record {
          now = now;
          approver = approver;
          meta = meta;
          ttl = ttl;
          call = ap (λ i. approve_call now i approver meta) (sym k);
          named = n;
          not_actor = a;
          not_requester = m;
          lifetime = l;
          until = refl;
        } in
      inr (q, (approve_call now id approver meta, h, w))

  IsChange-IsBacked :
      (c : BreakGlassCall) (t u : List SessionRow)
      → Has c cs
      → IsUnique session_id_of t
      → IsChange c t u
      → All (IsBacked cs) t
      → All (IsBacked cs) u
  IsChange-IsBacked c t u h k (same e) a = rw e a
  IsChange-IsBacked c t u h k (added r f e n) a =
      rw e (All-append (IsBacked cs) t r a (IsNew-IsBacked c r h n))
  IsChange-IsBacked c t u h k (activated row now id approver meta ttl q n f d l e) a =
      let b = All-find session_id_of (IsBacked cs) id t a f in
      let w =
        activate-IsBacked row now id approver meta ttl (subst (λ x. Has x cs) q h) n
          (key-find session_id_of id t f) d l b in
      rw e (
        All-update_found session_id_of (IsBacked cs) id (activate now (strip approver) ttl) t k f a
          w)
  IsChange-IsBacked c t u h k (revoked_row now id e) a = rw e (
      All-update session_id_of (IsBacked cs) id (revoke_row now) t
        (λ r _ b. rw (revoke_row-eq now r) b) a)

  run-IsBacked :
      (b : Backend) (rest : List BreakGlassCall) (s : BreakGlassStore)
      → ((c : BreakGlassCall) → Has c rest → Has c cs)
      → IsUnique session_id_of s.rows
      → All (IsBacked cs) s.rows
      → All (IsBacked cs) (run b rest s).rows
  unfolding run
  run-IsBacked b [] s h k a = a
  run-IsBacked b (c ∷ rest) s h k a =
      let e = step-IsChange b c s k in
      run-IsBacked b rest (step b c s) (λ x p. h x (inr p)) (IsChange-IsUnique c s.rows _ e k)
        (IsChange-IsBacked c s.rows _ (h c (inl refl)) k e a)

  -- what entitles to the use of the session
  abbrev pub IsGranted : SessionRow → Type 0
  IsGranted r = Among cs (Opens r) ⊎ (Among cs (Requests r) × Among cs (Approves r))

  active-IsGranted :
      (r : SessionRow) (s : Option SessionStatus) (d : SessionStatus)
      → is_active (elim s [ none ↦ d | some x ↦ x ]) ≡ true
      → Backs cs r s
      → IsGranted r
  active-IsGranted r (some active) d h b = b
  active-IsGranted r (some pending_second_approval) d h b = ground arith
  active-IsGranted r (some legacy_unapproved) d h b = absurd b
  active-IsGranted r none d h b = absurd b

-- what `assert_active` has checked
usable-ok :
    (now : ℕ) (actor : String) (r : SessionRow) {x : BreakGlassSession}
    → require_usable (session_from_record now r) actor ≡ ok x
    → (is_active (status_of r) ≡ true)
      × (r.revoked_at ≡ none)
      × (now < r.expires_at)
      × (r.actor ≡ actor)
unfolding require_usable session_from_record
usable-ok now actor r h = ground (arith, eq_iff r.actor actor)

pub assert_active-eq :
    (now : ℕ) (id actor : String) (s : BreakGlassStore) {r : SessionRow}
    → find session_id_of id s.rows ≡ some r
    → assert_active now id actor s ≡ require_usable (session_from_record now r) actor
unfolding assert_active get_session
assert_active-eq now id actor s e = rw (assert_active, get_session, e) refl

-- Whatever calls are made on a new store, over SQLite or Postgres: a session that may be used for an
-- actor at a time is of that actor, is not revoked, and its time is not over; and the actor opened
-- it, for at most an hour, or somebody else asked for it and a third person, who is neither, approved
-- it, for at most an hour from then.
pub assert_active-IsGranted :
    (b : Backend) (cs : List BreakGlassCall) (now : ℕ) (id actor : String) {x : BreakGlassSession}
    → assert_active now id actor (run b cs empty) ≡ ok x
    → (r : SessionRow) × (find session_id_of id (run b cs empty).rows ≡ some r)
      × (r.actor ≡ actor)
      × (r.revoked_at ≡ none)
      × (now < r.expires_at)
      × IsGranted cs r
unfolding assert_active get_session
assert_active-IsGranted b cs now id actor h =
    elim (Option-cases (find session_id_of id (run b cs empty).rows)) [
      | inl e ↦ ground arith
      | inr (r, e) ↦
          let a = run-IsBacked cs b cs empty (λ c p. p) tt tt in
          let g = All-find session_id_of (IsBacked cs) id (run b cs empty).rows a e in
          let (p, v, t, q) =
            usable-ok now actor r (sym (assert_active-eq now id actor (run b cs empty) e) ∙ h) in
          (
            r,
            e,
            q,
            v,
            t,
            active-IsGranted cs r r.status
                (if r.actor == r.approved_by then active else legacy_unapproved) p g,
          )
    ]
