-- ===== src/Runs/Defs.antt =====
-- omnidesk_agent/core/run_store.py: the rows and the methods of `RunStore`.
-- A plan, a message, a proposal and each step result are JSON texts.
use omni_desk_ai.Shared.{
  ℕ, ◌+◌, String, Bool, true, false, ◌&&◌, Option, none, some, List, [], ◌∷◌, ◌++◌, ◌==◌, leb,
  if◌then◌else◌, Result, ok, err, is_some,
}
use omni_desk_ai.Shared.Text.{◌+++◌, truthy, or_text}
use omni_desk_ai.Shared.Table.{find, update, select, limit}

-- a row of the table `runs`
pub record Run : Type 0 where
  pub id : String
  pub status : String
  pub original_message : String
  pub plan_json : Option String
  pub current_step_index : ℕ
  pub results : List String
  pub waiting_approval_id : Option String
  pub approval_proposal_json : Option String
  pub resume_token : Option String
  pub created_at : ℕ
  pub updated_at : ℕ

pub record RunStore : Type 0 where
  pub runs : List Run

pub data RunError : Type 0 where
  value_error key_error permission_error integrity_error : RunError

abbrev pub run_id : Run → String
run_id r = r.id

-- an entry of the dict that `update` takes; `other` is a key that is no column of `UPDATE_FIELDS`
pub data Field : Type 0 where
  approval_proposal_field plan_field token_field waiting_field : Option String → Field
  step_field time_field : ℕ → Field
  results_field : List String → Field
  status_field : String → Field
  other : String → Field

abbrev pub set_field : Field → Run → Run
set_field (approval_proposal_field v) r = record r { approval_proposal_json = v }
set_field (plan_field v) r = record r { plan_json = v }
set_field (token_field v) r = record r { resume_token = v }
set_field (waiting_field v) r = record r { waiting_approval_id = v }
set_field (step_field n) r = record r { current_step_index = n }
set_field (time_field n) r = record r { updated_at = n }
set_field (results_field v) r = record r { results = v }
set_field (status_field st) r = record r { status = st }
set_field (other k) r = r

unfoldable pub set_fields : List Field → Run → Run
set_fields [] r = r
set_fields (f ∷ fs) r = set_fields fs (set_field f r)

abbrev pub is_unknown : Field → Bool
is_unknown (other k) = true
is_unknown _ = false

unfoldable pub has_unknown : List Field → Bool
has_unknown [] = false
has_unknown (f ∷ fs) = let rest = has_unknown fs in if is_unknown f then true else rest

-- The time of the update replaces one that the caller gives.
unfoldable pub update_row : ℕ → List Field → Run → Run
unfolding set_fields
update_row now fields r = set_field (time_field now) (set_fields fields r)

unfoldable pub update_run :
    ℕ → String → List Field → RunStore → Result RunError (Unit {0}) × RunStore
unfolding has_unknown update_row
update_run now id fields s =
    if has_unknown fields
    then (err value_error, s)
    else (ok tt, record s { runs = update run_id id (update_row now fields) s.runs })

unfoldable pub new_run : ℕ → String → String → Run
new_run now id message = record {
  id = id;
  status = "planned";
  original_message = message;
  plan_json = none;
  current_step_index = 0;
  results = [];
  waiting_approval_id = none;
  approval_proposal_json = none;
  resume_token = none;
  created_at = now;
  updated_at = now;
}

-- `id` is the uuid; the PRIMARY KEY refuses one that exists.
unfoldable pub create : ℕ → String → String → RunStore → Result RunError String × RunStore
unfolding new_run
create now id message s =
    if is_some (find run_id id s.runs)
    then (err integrity_error, s)
    else (ok id, record s { runs = s.runs ++ new_run now id message ∷ [] })

unfoldable pub get : String → RunStore → Option Run
get id s = find run_id id s.runs

-- `expected` is not empty and is what the caller gave
abbrev pub is_token : Option String → Option String → Bool
is_token stored given = elim (truthy stored) [ none ↦ false | some t ↦ or_text given "" == t ]

unfoldable pub require_resume_token : String → Option String → RunStore → Result RunError (Unit {0})
unfolding get
require_resume_token id token s = elim (get id s) [
  | none ↦ err key_error
  | some r ↦
      if r.status == "waiting_approval"
      then (if is_token r.resume_token token then ok tt else err permission_error)
      else if is_some token
      then err permission_error
      else if is_some (truthy r.resume_token)
      then err permission_error
      else ok tt
]

-- `token` is `secrets.token_urlsafe(32)`; an empty proposal is written as `{}`.
abbrev pub waiting_fields : String → ℕ → List String → String → Option String → String → List Field
waiting_fields plan step results approval proposal token =
    status_field "waiting_approval"
    ∷ plan_field (some plan)
    ∷ step_field step
    ∷ results_field results
    ∷ waiting_field (some approval)
    ∷ approval_proposal_field (some (or_text proposal "{}"))
    ∷ token_field (some token)
    ∷ []

unfoldable pub save_waiting :
    ℕ
    → String
    → String
    → ℕ
    → List String
    → String
    → Option String
    → String
    → RunStore
    → String × RunStore
unfolding update_run
save_waiting now id plan step results approval proposal token s =
    (token, (update_run now id (waiting_fields plan step results approval proposal token) s).1)

-- WHERE id=? AND status='waiting_approval' AND resume_token=?
abbrev pub is_claim : String → Run → Bool
is_claim token r =
    r.status == "waiting_approval" && elim r.resume_token [ none ↦ false | some t ↦ t == token ]

abbrev pub resumed_row : ℕ → String → Run → Run
resumed_row now token r =
    if is_claim token r
    then record r { status = "resuming"; resume_token = none; updated_at = now }
    else r

-- The UPDATE meets one row: the same transaction has read the token.
unfoldable pub consume_resume_token :
    ℕ → String → Option String → RunStore → Result RunError (Unit {0}) × RunStore
consume_resume_token now id none s = (err permission_error, s)
consume_resume_token now id (some token) s = elim (find run_id id s.runs) [
  | none ↦ (err key_error, s)
  | some r ↦
      if r.status == "waiting_approval"
      then (if is_token r.resume_token (some token)
          then (ok tt, record s { runs = update run_id id (resumed_row now token) s.runs })
          else (err permission_error, s))
      else (err permission_error, s)
]

-- the result that a failed resume adds; `error` is the JSON text of `str(error)`
abbrev pub failure : String → String
failure error = "{\"ok\": false, \"status\": \"resume_failed\", \"error\": " +++ error +++ "}"

abbrev pub results_of : Option Run → List String
results_of none = []
results_of (some r) = r.results

abbrev pub failed_fields : String → List String → List Field
failed_fields error results =
    status_field "resume_failed"
    ∷ results_field (results ++ failure error ∷ [])
    ∷ token_field none
    ∷ []

unfoldable pub mark_resume_failed : ℕ → String → String → RunStore → RunStore
unfolding update_run get
mark_resume_failed now id error s =
    (update_run now id (failed_fields error (results_of (get id s))) s).1

abbrev pub complete_fields : String → List String → List Field
complete_fields status results =
    status_field status
    ∷ results_field results
    ∷ waiting_field none
    ∷ approval_proposal_field none
    ∷ token_field none
    ∷ []

unfoldable pub complete : ℕ → String → String → List String → RunStore → RunStore
unfolding update_run
complete now id status results s = (update_run now id (complete_fields status results) s).1

-- ORDER BY updated_at ASC
abbrev pub place_old : Run → List Run → List Run
place_old r [] = r ∷ []
place_old r (x ∷ t) =
    let rest = place_old r t in if leb r.updated_at x.updated_at then r ∷ x ∷ t else x ∷ rest

unfoldable pub oldest_first : List Run → List Run
oldest_first [] = []
oldest_first (r ∷ t) = place_old r (oldest_first t)

abbrev pub is_resuming : ℕ → ℕ → Run → Bool
is_resuming now age r = r.status == "resuming" && leb (r.updated_at + age) now

unfoldable pub found_runs : List Run → RunStore → List Run
unfolding get
found_runs [] s = []
found_runs (r ∷ t) s =
    let rest = found_runs t s in elim (get r.id s) [ none ↦ rest | some x ↦ x ∷ rest ]

unfoldable pub list_resuming : ℕ → ℕ → ℕ → RunStore → List Run
unfolding oldest_first found_runs
list_resuming now age n s =
    found_runs (limit n (oldest_first (select (is_resuming now age) s.runs))) s

abbrev pub waits_for : String → Run → Bool
waits_for approval r = elim r.waiting_approval_id [ none ↦ false | some a ↦ a == approval ]

unfoldable pub get_by_approval : String → RunStore → Option Run
unfolding get
get_by_approval approval s = elim (select (waits_for approval) s.runs) [
  | [] ↦ none
  | r ∷ _ ↦ get r.id s
]
