-- ===== src/Resume/Granted.antt =====
-- What a resume that goes on to execute the plan has checked and consumed.
use omni_desk_ai.Shared.{
  ℕ, ◌≡◌, ◌≢◌, ◌∙◌, refl, String, Option, none, some, List, [], ◌∷◌, ◌==◌, arith, Option-cases,
  Bool-cases, Result-cases, inl, inr, ok,
}
use omni_desk_ai.Shared.Text.{truthy}
use omni_desk_ai.Approvals.{ApprovalError, Approval, ApprovalStore, consume_approved}
use omni_desk_ai.Approvals.Gate.{IsUsed, consume_approved-IsUsed}
use omni_desk_ai.Shared.Table.{find-update_found, find-update_ne}
use omni_desk_ai.Runs.{
  Run, RunStore, run_id, get, require_resume_token, consume_resume_token, update_run, has_unknown,
  update_row, set_fields, status_field, waiting_field,
}
use omni_desk_ai.Runs.Resume.{IsResumed, consume_resume_token-IsResumed}
use omni_desk_ai.Permissions.{allow_approved_proposal}
use omni_desk_ai.Resume.Defs.{
  Orchestrator, Json, execute_plan, proposal_of, expected_of, dual_ready, caught, go_on, settle,
  take_token, resume,
}

-- The approval `aid` was used for the run's own proposal, and the store after its use is kept.
pub record IsSettled (json : Json) (now : ℕ) (id : String) (r : Run) (aid : String)
    (store : ApprovalStore) (rs : RunStore) (o : Orchestrator) : Type 0 where
  pub before : Approval
  pub after : Approval
  pub store' : ApprovalStore
  pub used : IsUsed now aid (expected_of (proposal_of json r)) (some id) store store' before after
  pub kept : o.permissions.approval_store ≡ some store'
  pub runs_kept :
      o.run_store ≡ some (update_run now id (status_field "running" ∷ waiting_field none ∷ []) rs).1

-- `started` has the run going on: it runs, without a token and waiting for nothing, and no other run
-- has changed.
pub record IsStarted (now : ℕ) (id : String) (row : Run) (runs started : RunStore) : Type 0 where
  pub written :
      get id started
      ≡ some (record row {
        status = "running";
        resume_token = none;
        waiting_approval_id = none;
        updated_at = now;
      })
  pub others : (j : String) → id ≢ j → get j started ≡ get j runs

update_run-IsStarted :
    (now : ℕ) (id token : String) (runs rs : RunStore)
    → (u : IsResumed now id token runs rs)
    → IsStarted now id u.row runs
        (update_run now id (status_field "running" ∷ waiting_field none ∷ []) rs).1
unfolding update_run has_unknown update_row set_fields get
update_run-IsStarted now id token runs rs u =
    let f = update_row now (status_field "running" ∷ waiting_field none ∷ []) in
    record {
      written = find-update_found run_id id f rs.runs (λ r. refl) u.written;
      others = λ j n. find-update_ne run_id id j f rs.runs (λ r. refl) n ∙ u.others j n;
    }

caught_stops :
    (json : Json) (now : ℕ) (id : String) (e : ApprovalError) (rs : RunStore) (o : Orchestrator)
    (plan : String) (step : ℕ) (results : List String)
    → (caught json now id e rs o).0 ≢ execute_plan plan step results
unfolding caught
caught_stops json now id e rs o plan step results h = ground arith

settle-IsSettled :
    (json : Json) (now : ℕ) (id : String) (r : Run) (aid : String) (store : ApprovalStore)
    (rs : RunStore) (o : Orchestrator) (plan : String) (step : ℕ) (results : List String)
    → (settle json now id r aid store rs o).0 ≡ execute_plan plan step results
    → IsSettled json now id r aid store rs (settle json now id r aid store rs o).1
unfolding settle go_on allow_approved_proposal
settle-IsSettled json now id r aid store rs o plan step results h =
    let p = proposal_of json r in
    elim (Result-cases (dual_ready aid p store o.own_dual)) [
      | inr (e, d) ↦ absurd (caught_stops json now id e rs o plan step results (ground arith))
      | inl (x, d) ↦
          elim (Result-cases (consume_approved now aid (expected_of p) (some id) store).0) [
            | inr (e, k) ↦ absurd (caught_stops json now id e rs o plan step results (ground arith))
            | inl (b, k) ↦
                let (a, u) = consume_approved-IsUsed now aid (expected_of p) (some id) store k in
                rw (d, k, settle)
                  (record {
                    before = a;
                    after = b;
                    store' = (consume_approved now aid (expected_of p) (some id) store).1;
                    used = u;
                    kept = refl;
                    runs_kept = refl;
                  })
          ]
    ]

-- everything that stood before the plan was executed
pub record IsGranted (json : Json) (now : ℕ) (id : String) (token : Option String)
    (o o' : Orchestrator) : Type 0 where
  pub runs : RunStore
  pub attached_runs : o.run_store ≡ some runs
  pub given : String
  pub is_given : token ≡ some given
  pub resumed : IsResumed now id given runs (consume_resume_token now id token runs).1
  pub row : Run
  pub found : get id runs ≡ some row
  pub aid : String
  pub awaited : row.waiting_approval_id ≡ some aid
  pub store : ApprovalStore
  pub attached : o.permissions.approval_store ≡ some store
  pub settled : IsSettled json now id row aid store (consume_resume_token now id token runs).1 o'
  pub started : RunStore
  pub stored : o'.run_store ≡ some started
  pub going_on : IsStarted now id resumed.row runs started

no_token : (now : ℕ) (id : String) (rs : RunStore) → (consume_resume_token now id none rs).0 ≢ ok tt
unfolding consume_resume_token
no_token now id rs h = ground arith

given_token :
    (now : ℕ) (id : String) (token : Option String) (rs : RunStore)
    → (consume_resume_token now id token rs).0 ≡ ok tt
    → (t : String) × (token ≡ some t)
      × IsResumed now id t rs (consume_resume_token now id token rs).1
given_token now id none rs h = ground (arith, no_token now id rs h)
given_token now id (some t) rs h = (t, refl, consume_resume_token-IsResumed now id t rs h)

truthy-eq : (o : Option String) (s : String) → truthy o ≡ some s → o ≡ some s
truthy-eq none s h = ground arith
truthy-eq (some t) s h = ground arith

take_token-IsGranted :
    (json : Json) (now : ℕ) (id : String) (token : Option String) (r : Run) (rs : RunStore)
    (o : Orchestrator) (plan : String) (step : ℕ) (results : List String)
    → o.run_store ≡ some rs
    → get id rs ≡ some r
    → (take_token json now id token r rs o).0 ≡ execute_plan plan step results
    → IsGranted json now id token o (take_token json now id token r rs o).1
unfolding take_token
take_token-IsGranted json now id token r rs o plan step results er eg h =
    elim (Option-cases (truthy r.waiting_approval_id)) [
      | inl w ↦ ground arith
      | inr (aid, w) ↦ elim (Option-cases o.permissions.approval_store) [
        | inl a ↦ ground arith
        | inr (store, a) ↦ elim (Result-cases (consume_resume_token now id token rs).0) [
          | inr (e, c) ↦ ground arith
          | inl (x, c) ↦
              let (t, et, u) = given_token now id token rs c in
              let rs' = (consume_resume_token now id token rs).1 in
              let v =
                settle-IsSettled json now id r aid store rs' o plan step results (ground arith) in
              simp (w, a, c, take_token)
                (record {
                  runs = rs;
                  attached_runs = er;
                  given = t;
                  is_given = et;
                  resumed = u;
                  row = r;
                  found = eg;
                  aid = aid;
                  awaited = truthy-eq r.waiting_approval_id aid w;
                  store = store;
                  attached = a;
                  settled = v;
                  started = _;
                  stored = v.runs_kept;
                  going_on = update_run-IsStarted now id t rs rs' u;
                })
        ]
      ]
    ]

-- A resume that goes on to execute the plan has found the run waiting with exactly the given token
-- and has consumed that token, so that the store it leaves has the run as running, without a token
-- and waiting for nothing, and every other run as it was; and it has used the approval that the run waits for, which was
-- approved, not expired, cleared by two people if it is critical, and for the run's own proposal, so
-- that it is consumed by this run.
pub resume-IsGranted :
    (json : Json) (now : ℕ) (id : String) (token : Option String) (o : Orchestrator) (plan : String)
    (step : ℕ) (results : List String)
    → (resume json now id token o).0 ≡ execute_plan plan step results
    → IsGranted json now id token o (resume json now id token o).1
unfolding resume
resume-IsGranted json now id token o plan step results h = elim (Option-cases o.run_store) [
  | inl e ↦ ground arith
  | inr (rs, e) ↦ elim (Option-cases (get id rs)) [
    | inl g ↦ ground arith
    | inr (r, g) ↦ elim (Result-cases (require_resume_token id token rs)) [
      | inr (x, q) ↦ ground arith
      | inl (x, q) ↦ elim (Bool-cases (r.status == "waiting_approval")) [
        | inr w ↦ ground arith
        | inl w ↦
            simp (e, g, q, w, resume)
              (take_token-IsGranted json now id token r rs o plan step results e g (ground arith))
      ]
    ]
  ]
]
