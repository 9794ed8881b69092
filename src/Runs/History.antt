-- ===== src/Runs/History.antt =====
-- Sequences of calls on the run store, by orchestrators and resume requests.
use omni_desk_ai.Shared.{
  ℕ, ◌≡◌, refl, ◌∙◌, String, Option, none, some, List, [], ◌∷◌, ◌==◌, arith, Option-cases,
  Bool-cases, Result, ok, err, inl, inr,
}
use omni_desk_ai.Shared.Table.{find, update, find-update, find-append}
use omni_desk_ai.Runs.Defs.{
  Run, RunStore, RunError, Field, run_id, has_unknown, update_row, update_run, set_fields,
  set_field, create, save_waiting, is_token, resumed_row, consume_resume_token, mark_resume_failed,
  complete,
}

pub data RunCall : Type 0 where
  create_call : ℕ → String → String → RunCall
  update_call : ℕ → String → List Field → RunCall
  waiting_call : ℕ → String → String → ℕ → List String → String → Option String → String → RunCall
  consume_call : ℕ → String → Option String → RunCall
  failed_call : ℕ → String → String → RunCall
  complete_call : ℕ → String → String → List String → RunCall

abbrev pub resumed : String → Option String → Result RunError (Unit {0}) → Option (String × String)
resumed id none r = none
resumed id (some token) (ok _) = some (id, token)
resumed id (some token) (err e) = none

-- the run and the token that the call resumes, and the store after it
unfoldable pub step : RunCall → RunStore → Option (String × String) × RunStore
step (create_call now id message) s = (none, (create now id message s).1)
step (update_call now id fields) s = (none, (update_run now id fields s).1)
step (waiting_call now id plan i results approval proposal token) s =
    (none, (save_waiting now id plan i results approval proposal token s).1)
step (consume_call now id token) s =
    let (r, s') = consume_resume_token now id token s in (resumed id token r, s')
step (failed_call now id error) s = (none, mark_resume_failed now id error s)
step (complete_call now id status results) s = (none, complete now id status results s)

unfoldable pub replay : List RunCall → RunStore → RunStore
replay [] s = s
replay (c ∷ cs) s = replay cs (step c s).1

unfoldable pub resumes : List RunCall → RunStore → List (Option (String × String))
resumes [] s = []
resumes (c ∷ cs) s = let (o, s') = step c s in let rest = resumes cs s' in o ∷ rest

-- A run that has the property keeps it.
abbrev pub Has : (Run → Type 0) → String → RunStore → Type 0
Has P id s = (r : Run) × (find run_id id s.runs ≡ some r) × P r

pub update-Has :
    (P : Run → Type 0) (j id : String) (f : Run → Run) (s : RunStore)
    → ((r : Run) → (f r).id ≡ r.id)
    → ((r : Run) → P r → P (f r))
    → Has P id s
    → Has P id (record s { runs = update run_id j f s.runs })
update-Has P j id f s keep pres (r, e, p) = elim (Bool-cases (j == id)) [
  | inl h ↦ (f r, find-update run_id j id f s.runs keep ∙ rw (h, e) refl, pres r p)
  | inr h ↦ (r, find-update run_id j id f s.runs keep ∙ rw (h, e) refl, p)
]

pub id-set_fields : (fs : List Field) (r : Run) → (set_fields fs r).id ≡ r.id
unfolding set_fields
id-set_fields [] r = refl
id-set_fields (f ∷ fs) r = id-set_fields fs (set_field f r) ∙ ground arith

pub id-update_row : (now : ℕ) (fs : List Field) (r : Run) → (update_row now fs r).id ≡ r.id
unfolding update_row
id-update_row now fs r = id-set_fields fs r

pub update_run-Has :
    (P : Run → Type 0) (now : ℕ) (j id : String) (fs : List Field) (s : RunStore)
    → ((r : Run) → P r → P (update_row now fs r))
    → Has P id s
    → Has P id (update_run now j fs s).1
unfolding update_run
update_run-Has P now j id fs s pres k = elim (Bool-cases (has_unknown fs)) [
  | inl u ↦ rw (u, update_run) k
  | inr u ↦
      rw (u, update_run) (update-Has P j id (update_row now fs) s (id-update_row now fs) pres k)
]

pub create-Has :
    (P : Run → Type 0) (now : ℕ) (j message id : String) (s : RunStore)
    → Has P id s
    → Has P id (create now j message s).1
unfolding create
create-Has P now j message id s (r, e, p) = elim (Option-cases (find run_id j s.runs)) [
  | inr (x, k) ↦ rw (k, create) (r, e, p)
  | inl k ↦ rw (k, create) (r, find-append run_id id s.runs _ ∙ rw e refl, p)
]

pub consume-Has :
    (P : Run → Type 0) (now : ℕ) (j : String) (token : Option String) (id : String) (s : RunStore)
    → ((t : String) (r : Run) → P r → P (resumed_row now t r))
    → Has P id s
    → Has P id (consume_resume_token now j token s).1
unfolding consume_resume_token
consume-Has P now j none id s pres k = k
consume-Has P now j (some token) id s pres k = elim (Option-cases (find run_id j s.runs)) [
  | inl e ↦ rw (e, consume_resume_token) k
  | inr (x, e) ↦ elim (Bool-cases (x.status == "waiting_approval")) [
    | inr w ↦ rw (e, w, consume_resume_token) k
    | inl w ↦ elim (Bool-cases (is_token x.resume_token (some token))) [
      | inr t ↦ rw (e, w, t, consume_resume_token) k
      | inl t ↦
          rw (e, w, t, consume_resume_token)
            (update-Has P j id (resumed_row now token) s (λ r. ground arith) (pres token) k)
    ]
  ]
]
