-- ===== src/Runs/Waiting.antt =====
-- From `save_waiting` to the two methods that check the token it drew.
use omni_desk_ai.Shared.{
  ℕ, ◌≡◌, ◌≢◌, String, Option, none, some, List, arith, eq_iff, ◌==◌, Result, ok, err,
  if◌then◌else◌,
}
use omni_desk_ai.Shared.Text.{or_text}
use omni_desk_ai.Shared.Table.{find, find-update_found}
use omni_desk_ai.Runs.Defs.{
  Run, RunStore, RunError, permission_error, run_id, set_fields, update_row, update_run,
  has_unknown, save_waiting, waiting_fields, is_token, consume_resume_token, require_resume_token,
  get,
}
use omni_desk_ai.Runs.History.{id-update_row}

-- the row that `save_waiting` leaves
find-save_waiting :
    (now : ℕ) (id plan : String) (step : ℕ) (results : List String) (approval : String)
    (proposal : Option String) (token : String) (s : RunStore) {r : Run}
    → find run_id id s.runs ≡ some r
    → find run_id id (save_waiting now id plan step results approval proposal token s).1.runs
      ≡ some (update_row now (waiting_fields plan step results approval proposal token) r)
unfolding save_waiting update_run has_unknown
find-save_waiting now id plan step results approval proposal token s e =
    let fs = waiting_fields plan step results approval proposal token in
    find-update_found run_id id (update_row now fs) s.runs (id-update_row now fs) e

-- whether the token that a caller gives is the one that was drawn
abbrev pub accepts : String → Option String → Result RunError (Unit {0})
accepts token given = if or_text given "" == token then ok tt else err permission_error

is_token-some :
    (token : String) (given : Option String)
    → token ≢ ""
    → is_token (some token) given ≡ (or_text given "" == token)
is_token-some token given n = ground (arith, eq_iff token "")

-- After a run is saved as waiting with a token that is not empty, the check and the consumption of a
-- resume token accept exactly that token, given at any later time, and refuse any other and none.
pub save_waiting-consume_resume_token :
    (now later : ℕ) (id plan : String) (step : ℕ) (results : List String) (approval : String)
    (proposal : Option String) (token : String) (given : Option String) (s : RunStore) {r : Run}
    → find run_id id s.runs ≡ some r
    → token ≢ ""
    → (require_resume_token id given
          (save_waiting now id plan step results approval proposal token s).1
        ≡ accepts token given)
      × ((consume_resume_token later id given
            (save_waiting now id plan step results approval proposal token s).1).0
          ≡ accepts token given)
unfolding require_resume_token consume_resume_token get update_row set_fields
save_waiting-consume_resume_token now later id plan step results approval proposal token none s e
      n =
    let f = find-save_waiting now id plan step results approval proposal token s e in
    let t = is_token-some token none n in
    (ground (arith, f, t), ground (arith, eq_iff token "", eq_iff "" token))
save_waiting-consume_resume_token now later id plan step results approval proposal token (some g) s
      e n =
    let f = find-save_waiting now id plan step results approval proposal token s e in
    let t = is_token-some token (some g) n in (ground (arith, f, t), ground (arith, f, t))
