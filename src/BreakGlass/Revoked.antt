-- ===== src/BreakGlass/Revoked.antt =====
-- A revoked session stays revoked.
use omni_desk_ai.Shared.{
  ℕ, ◌≡◌, ◌≢◌, refl, ap, ◌∙◌, String, true, false, some, List, [], ◌∷◌, inl, inr, ◌==◌, eq_iff,
  arith, Bool-cases, is_some, Result, ok, err,
}
use mathlib.Core.Path.{subst}
use omni_desk_ai.Shared.Strip.{strip}
use omni_desk_ai.Shared.Table.{
  find, update, IsUnique, find-append, find-update_found, find-update_ne,
}
use omni_desk_ai.Postgres.Locked.{update_locked_writes}
use omni_desk_ai.BreakGlass.Rules.{
  BreakGlassError, permission_error, key_error, SessionRow, BreakGlassStore, session_id_of,
  check_second_approver, session_from_record, require_usable,
}
use omni_desk_ai.BreakGlass.Sqlite.{activate, revoke_row, revoke_session, assert_active}
use omni_desk_ai.BreakGlass.Stores.{pg_revoke_session}
use omni_desk_ai.BreakGlass.History.{
  Backend, sqlite, postgres, BreakGlassCall, revoke_call, step, run,
}
use omni_desk_ai.BreakGlass.Changes.{IsChange, same, added, activated, revoked_row}
use omni_desk_ai.BreakGlass.Steps.{step-IsChange}
use omni_desk_ai.BreakGlass.Granted.{IsChange-IsUnique, id-revoke_row, assert_active-eq}

-- The session `id` is there and is revoked.
pub record IsRevoked (id : String) (t : List SessionRow) : Type 0 where
  pub row : SessionRow
  pub found : find session_id_of id t ≡ some row
  pub ended : is_some row.revoked_at ≡ true

check_revoked :
    (row : SessionRow) (name : String) (now : ℕ)
    → is_some row.revoked_at ≡ true
    → check_second_approver row name now ≢ ok tt
unfolding check_second_approver
check_revoked row name now h = ground arith

revoke_row-ended : (now : ℕ) (r : SessionRow) → is_some (revoke_row now r).revoked_at ≡ true
revoke_row-ended now r = ground arith

IsChange-IsRevoked :
    (c : BreakGlassCall) (id : String) (t u : List SessionRow)
    → IsChange c t u
    → IsRevoked id t
    → IsRevoked id u
IsChange-IsRevoked c id t u (same e) v = rw e v
IsChange-IsRevoked c id t u (added r f e n) v = rw e (record {
  row = v.row;
  found = find-append session_id_of id t r ∙ rw v.found refl;
  ended = v.ended;
})
IsChange-IsRevoked c id t u (activated row now j approver meta ttl q n f d l e) v =
    let ne : j ≢ id = λ p. check_revoked row (strip approver) now (ground arith) d in
    rw e (record {
      row = v.row;
      found =
          find-update_ne session_id_of j id (activate now (strip approver) ttl) t (λ r. refl) ne
          ∙ v.found;
      ended = v.ended;
    })
IsChange-IsRevoked c id t u (revoked_row now j e) v = elim (Bool-cases (j == id)) [
  | inl p ↦
      let i : j ≡ id = (eq_iff j id).0 p in
      let q : find session_id_of j t ≡ some v.row = ap (λ k. find session_id_of k t) i ∙ v.found in
      rw e (record {
        row = revoke_row now v.row;
        found =
            subst
              (λ k.
                find session_id_of k (update session_id_of j (revoke_row now) t)
                ≡ some (revoke_row now v.row))
              i (find-update_found session_id_of j (revoke_row now) t (id-revoke_row now) q);
        ended = revoke_row-ended now v.row;
      })
  | inr p ↦ rw e (record {
    row = v.row;
    found =
        find-update_ne session_id_of j id (revoke_row now) t (id-revoke_row now)
          (ground (arith, eq_iff j id))
        ∙ v.found;
    ended = v.ended;
  })
]

run-IsRevoked :
    (b : Backend) (cs : List BreakGlassCall) (id : String) (s : BreakGlassStore)
    → IsUnique session_id_of s.rows
    → IsRevoked id s.rows
    → IsRevoked id (run b cs s).rows
unfolding run
run-IsRevoked b [] id s k v = v
run-IsRevoked b (c ∷ cs) id s k v =
    let e = step-IsChange b c s k in
    run-IsRevoked b cs id (step b c s) (IsChange-IsUnique c s.rows _ e k)
      (IsChange-IsRevoked c id s.rows _ e v)

unusable :
    (now : ℕ) (actor : String) (r : SessionRow)
    → is_some r.revoked_at ≡ true
    → require_usable (session_from_record now r) actor ≡ err permission_error
unfolding require_usable session_from_record
unusable now actor r h = ground arith

step_revoke-rows :
    (b : Backend) (t : ℕ) (id by : String) (s : BreakGlassStore) {row : SessionRow}
    → IsUnique session_id_of s.rows
    → find session_id_of id s.rows ≡ some row
    → (strip by == "") ≡ false
    → (step b (revoke_call t id by) s).rows ≡ update session_id_of id (revoke_row t) s.rows
unfolding step revoke_session pg_revoke_session
step_revoke-rows sqlite t id by s k f n = rw (step, revoke_session, n) refl
step_revoke-rows postgres t id by s k f n =
    let g : SessionRow → Result BreakGlassError SessionRow = λ x. ok (revoke_row t x) in
    let w = update_locked_writes session_id_of key_error id g s.rows (revoke_row t) k f refl in
    rw (step, pg_revoke_session, n, w, w) refl

step_revoke-IsRevoked :
    (b : Backend) (t : ℕ) (id by : String) (s : BreakGlassStore) {row : SessionRow}
    → IsUnique session_id_of s.rows
    → find session_id_of id s.rows ≡ some row
    → strip by ≢ ""
    → IsRevoked id (step b (revoke_call t id by) s).rows
step_revoke-IsRevoked b t id by s {row} k f n =
    rw (step_revoke-rows b t id by s k f (ground (arith, eq_iff (strip by) ""))) (record {
      row = revoke_row t row;
      found = find-update_found session_id_of id (revoke_row t) s.rows (id-revoke_row t) f;
      ended = revoke_row-ended t row;
    })

-- Once a named person has revoked a session that exists, no sequence of later calls, over SQLite or
-- Postgres, makes it usable for anybody at any time.
pub revoke-assert_active :
    (b : Backend) (cs : List BreakGlassCall) (t now : ℕ) (id by actor : String)
    (s : BreakGlassStore) {row : SessionRow}
    → IsUnique session_id_of s.rows
    → find session_id_of id s.rows ≡ some row
    → strip by ≢ ""
    → assert_active now id actor (run b (revoke_call t id by ∷ cs) s) ≡ err permission_error
unfolding run
revoke-assert_active b cs t now id by actor s {row} k f n =
    let c = revoke_call t id by in
    let w =
      run-IsRevoked b cs id (step b c s) (IsChange-IsUnique c s.rows _ (step-IsChange b c s k) k)
        (step_revoke-IsRevoked b t id by s k f n) in
    assert_active-eq now id actor (run b (revoke_call t id by ∷ cs) s) w.found
    ∙ unusable now actor w.row w.ended
