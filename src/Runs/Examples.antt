-- ===== src/Runs/Examples.antt =====
-- Runs of the run store on concrete calls.
use omni_desk_ai.Shared.{◌≡◌, ◌≢◌, refl, none, some, List, [], ◌∷◌, arith, eq_iff, ok, All}
use omni_desk_ai.Shared.Table.{find}
use omni_desk_ai.Runs.{
  Run, RunStore, status_field, waiting_field, save_waiting, consume_resume_token,
  require_resume_token,
}
use omni_desk_ai.Runs.History.{
  RunCall, update_call, waiting_call, consume_call, failed_call, complete_call, resumes,
}
use omni_desk_ai.Runs.Resume.{
  IsFresh, IsResumed, consume_resume_token-IsResumed, consume_resume_token-resumes,
}
use omni_desk_ai.Runs.Waiting.{accepts, save_waiting-consume_resume_token}

abbrev run : Run
run = record {
  id = "r1";
  status = "waiting_approval";
  original_message = "{}";
  plan_json = some "{}";
  current_step_index = 1;
  results = [];
  waiting_approval_id = some "a1";
  approval_proposal_json = some "{}";
  resume_token = some "t";
  created_at = 1;
  updated_at = 5;
}

abbrev store : RunStore
store = record { runs = run ∷ [] }

accepted : (consume_resume_token 9 "r1" (some "t") store).0 ≡ ok tt
unfolding consume_resume_token find
accepted = refl

consume_resume_token-IsResumed_example :
    IsResumed 9 "r1" "t" store (consume_resume_token 9 "r1" (some "t") store).1
consume_resume_token-IsResumed_example = consume_resume_token-IsResumed 9 "r1" "t" store accepted

abbrev calls : List RunCall
calls =
    consume_call 9 "r1" (some "t")
    ∷ update_call 10 "r1" (status_field "running" ∷ waiting_field none ∷ [])
    ∷ waiting_call 11 "r1" "{}" 2 [] "a2" none "u"
    ∷ consume_call 12 "r1" (some "t")
    ∷ consume_call 12 "r1" (some "u")
    ∷ failed_call 13 "r1" "\"x\""
    ∷ complete_call 14 "r1" "failed" []
    ∷ []

calls-IsFresh : All (IsFresh "t") calls
calls-IsFresh = (
  tt,
  (
    ((λ e. ground arith), ((λ e. ground arith), tt)),
    (ground (arith, eq_iff "u" "t"), (tt, (tt, (tt, (tt, tt))))),
  ),
)

consume_resume_token-resumes_example :
    All (λ o. o ≢ some ("r1", "t")) (resumes calls (consume_resume_token 9 "r1" (some "t") store).1)
consume_resume_token-resumes_example =
    consume_resume_token-resumes calls 9 "r1" "t" store accepted calls-IsFresh

save_waiting-consume_resume_token_example :
    (require_resume_token "r1" (some "t") (save_waiting 11 "r1" "{}" 2 [] "a2" none "u" store).1
      ≡ accepts "u" (some "t"))
    × ((consume_resume_token 12 "r1"
          (some "t")
          (save_waiting 11 "r1" "{}" 2 [] "a2" none "u" store).1).0
        ≡ accepts "u" (some "t"))
save_waiting-consume_resume_token_example =
    save_waiting-consume_resume_token 11 12 "r1" "{}" 2 [] "a2" none "u" (some "t") store {r = run}
      (unfold find in refl) (ground (arith, eq_iff "u" ""))
