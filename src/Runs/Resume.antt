-- ===== src/Runs/Resume.antt =====
-- The resume token: what it allows, and that it allows it once.
use omni_desk_ai.Shared.{
  ℕ, ◌≡◌, ◌≢◌, refl, sym, ap, ◌∙◌, String, true, Option, none, some, List, [], ◌∷◌, ◌==◌, arith,
  eq_iff, eq_refl, Option-cases, Bool-cases, Result, ok, err, inl, inr, All,
}
use omni_desk_ai.Shared.Table.{find, update, find-update_found, find-update_ne}
use omni_desk_ai.Runs.Defs.{
  Run, RunStore, RunError, Field, token_field, run_id, set_fields, set_field, update_row,
  save_waiting, waiting_fields, is_token, resumed_row, consume_resume_token, mark_resume_failed,
  complete, results_of, failed_fields, complete_fields, get,
}
use omni_desk_ai.Runs.History.{
  RunCall, create_call, update_call, waiting_call, consume_call, failed_call, complete_call,
  resumed, step, resumes, Has, update_run-Has, create-Has, consume-Has,
}

-- A call never stores the token again: `save_waiting` draws other ones.
abbrev pub IsFresh : String → RunCall → Type 0
IsFresh token (update_call now id fields) = All (λ f. f ≢ token_field (some token)) fields
IsFresh token (waiting_call now id plan i results approval proposal drawn) = drawn ≢ token
IsFresh token _ = Unit

abbrev pub IsSpent : String → Run → Type 0
IsSpent token r = r.resume_token ≢ some token

set_field-IsSpent :
    (token : String) (f : Field) (r : Run)
    → f ≢ token_field (some token)
    → IsSpent token r
    → IsSpent token (set_field f r)
set_field-IsSpent token f r n p e = ground arith

set_fields-IsSpent :
    (token : String) (fs : List Field) (r : Run)
    → All (λ f. f ≢ token_field (some token)) fs
    → IsSpent token r
    → IsSpent token (set_fields fs r)
unfolding set_fields
set_fields-IsSpent token [] r a p = p
set_fields-IsSpent token (f ∷ fs) r a p =
    set_fields-IsSpent token fs (set_field f r) a.1 (set_field-IsSpent token f r a.0 p)

update_row-IsSpent :
    (token : String) (now : ℕ) (fs : List Field) (r : Run)
    → All (λ f. f ≢ token_field (some token)) fs
    → IsSpent token r
    → IsSpent token (update_row now fs r)
unfolding update_row
update_row-IsSpent token now fs r a p = set_fields-IsSpent token fs r a p

step-IsSpent :
    (c : RunCall) (id token : String) (s : RunStore)
    → IsFresh token c
    → Has (IsSpent token) id s
    → Has (IsSpent token) id (step c s).1
unfolding step save_waiting mark_resume_failed complete
step-IsSpent (create_call now i message) id token s f k =
    create-Has (IsSpent token) now i message id s k
step-IsSpent (update_call now i fields) id token s f k =
    update_run-Has (IsSpent token) now i id fields s
      (λ r p. update_row-IsSpent token now fields r f p) k
step-IsSpent (waiting_call now i plan n results approval proposal drawn) id token s f k =
    update_run-Has (IsSpent token) now i id (waiting_fields plan n results approval proposal drawn)
      s
      (λ r p.
        update_row-IsSpent token now (waiting_fields plan n results approval proposal drawn) r
          (ground arith) p)
      k
step-IsSpent (consume_call now i t) id token s f k =
    consume-Has (IsSpent token) now i t id s (λ u r (p : IsSpent token r). ground arith) k
step-IsSpent (failed_call now i error) id token s f k =
    update_run-Has (IsSpent token) now i id (failed_fields error (results_of (get i s))) s
      (λ r p.
        update_row-IsSpent token now (failed_fields error (results_of (get i s))) r (ground arith)
          p)
      k
step-IsSpent (complete_call now i status results) id token s f k =
    update_run-Has (IsSpent token) now i id (complete_fields status results) s
      (λ r p. update_row-IsSpent token now (complete_fields status results) r (ground arith) p) k

-- what `consume_resume_token` leaves when it accepts `token`
pub record IsResumed (now : ℕ) (id token : String) (s s' : RunStore) : Type 0 where
  pub row : Run
  pub found : find run_id id s.runs ≡ some row
  pub waiting : row.status ≡ "waiting_approval"
  pub matches : row.resume_token ≡ some token
  pub written :
      find run_id id s'.runs
      ≡ some (record row { status = "resuming"; resume_token = none; updated_at = now })
  pub others : (j : String) → id ≢ j → find run_id j s'.runs ≡ find run_id j s.runs

is_token-eq :
    (stored : Option String) (token : String)
    → is_token stored (some token) ≡ true
    → stored ≡ some token
is_token-eq none token h = ground arith
is_token-eq (some t) token h = ground (arith, eq_iff t "", eq_iff token t, eq_iff token "")

resumed_row-IsResumed :
    (now : ℕ) (id token : String) (s : RunStore) (r : Run)
    → find run_id id s.runs ≡ some r
    → r.status ≡ "waiting_approval"
    → r.resume_token ≡ some token
    → IsResumed now id token s (record s { runs = update run_id id (resumed_row now token) s.runs })
resumed_row-IsResumed now id token s r e w t = record {
  row = r;
  found = e;
  waiting = w;
  matches = t;
  written =
      find-update_found run_id id (resumed_row now token) s.runs (λ r. ground arith) e
      ∙ ground (arith, w, t, eq_refl token, eq_iff r.status "waiting_approval");
  others = λ j n. find-update_ne run_id id j (resumed_row now token) s.runs (λ r. ground arith) n;
}

-- A resume token is accepted only for a run that waits for an approval with exactly that token; the
-- run is then resuming without a token, and no other run changes.
pub consume_resume_token-IsResumed :
    (now : ℕ) (id token : String) (s : RunStore)
    → (consume_resume_token now id (some token) s).0 ≡ ok tt
    → IsResumed now id token s (consume_resume_token now id (some token) s).1
unfolding consume_resume_token
consume_resume_token-IsResumed now id token s h = elim (Option-cases (find run_id id s.runs)) [
  | inl e ↦ ground arith
  | inr (r, e) ↦ elim (Bool-cases (r.status == "waiting_approval")) [
    | inr w ↦ ground arith
    | inl w ↦ elim (Bool-cases (is_token r.resume_token (some token))) [
      | inr t ↦ ground arith
      | inl t ↦
          rw (e, w, t, consume_resume_token)
            (resumed_row-IsResumed now id token s r e
              (ground (arith, w, eq_iff r.status "waiting_approval"))
              (is_token-eq r.resume_token token t))
    ]
  ]
]

resumed-cases :
    (i : String) (t : Option String) (o : Result RunError (Unit {0})) (id token : String)
    → resumed i t o ≡ some (id, token)
    → (o ≡ ok tt) × (t ≡ some token) × (i ≡ id)
resumed-cases i none o id token h = ground arith
resumed-cases i (some t) (ok _) id token h = (refl, ground arith, ground arith)
resumed-cases i (some t) (err e) id token h = ground arith

spent_refused :
    (now : ℕ) (i : String) (t : Option String) (id token : String) (s : RunStore)
    → Has (IsSpent token) id s
    → resumed i t (consume_resume_token now i t s).0 ≢ some (id, token)
spent_refused now i t id token s (r, e, p) h =
    let (o, et, ei) = resumed-cases i t (consume_resume_token now i t s).0 id token h in
    let u =
      consume_resume_token-IsResumed now i token s
        (ap (λ x. (consume_resume_token now i x s).0) (sym et) ∙ o) in
    p (ground (arith, u.found, u.matches, e, ei))

step_spent :
    (c : RunCall) (id token : String) (s : RunStore)
    → Has (IsSpent token) id s
    → (step c s).0 ≢ some (id, token)
unfolding step
step_spent (create_call now i message) id token s k h = ground arith
step_spent (update_call now i fields) id token s k h = ground arith
step_spent (waiting_call now i plan n results approval proposal drawn) id token s k h = ground arith
step_spent (consume_call now i t) id token s k h = spent_refused now i t id token s k h
step_spent (failed_call now i error) id token s k h = ground arith
step_spent (complete_call now i status results) id token s k h = ground arith

spent_resumes :
    (cs : List RunCall) (id token : String) (s : RunStore)
    → All (IsFresh token) cs
    → Has (IsSpent token) id s
    → All (λ o. o ≢ some (id, token)) (resumes cs s)
unfolding resumes
spent_resumes [] id token s f k = tt
spent_resumes (c ∷ cs) id token s f k = (
  step_spent c id token s k,
  spent_resumes cs id token (step c s).1 f.1 (step-IsSpent c id token s f.0 k),
)

-- A resume token is single-use: once it has resumed a run, it resumes that run in no later call, in
-- whatever order requests, orchestrators and failures come, if no later call stores the same token
-- again (`save_waiting` draws a random one).
pub consume_resume_token-resumes :
    (cs : List RunCall) (now : ℕ) (id token : String) (s : RunStore)
    → (consume_resume_token now id (some token) s).0 ≡ ok tt
    → All (IsFresh token) cs
    → All (λ o. o ≢ some (id, token)) (resumes cs (consume_resume_token now id (some token) s).1)
consume_resume_token-resumes cs now id token s h f =
    let u = consume_resume_token-IsResumed now id token s h in
    spent_resumes cs id token (consume_resume_token now id (some token) s).1 f
      (_, u.written, (λ e. ground arith))
