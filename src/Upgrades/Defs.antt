-- ===== src/Upgrades/Defs.antt =====
-- omnidesk_agent/self_upgrade/state_machine.py: the states of an upgrade proposal and its moves.
use omni_desk_ai.Shared.{
  String, Bool, not, ◌&&◌, Option, some, List, [], ◌∷◌, ◌++◌, ◌==◌, if◌then◌else◌, Result, ok, err,
}
use omni_desk_ai.Shared.Text.{or_text}
use omni_desk_ai.Shared.Member.{mem}

pub data UpgradeError : Type 0 where
  value_error : UpgradeError

abbrev pub industrial_upgrade_states : List String
industrial_upgrade_states =
    "PROPOSED" ∷ "RISK_CLASSIFIED" ∷ "ARTIFACT_GENERATED" ∷ "REGRESSION_TESTED" ∷ "SECURITY_TESTED"
    ∷ "HUMAN_REVIEW" ∷ "SHADOW_MODE" ∷ "CANARY" ∷ "APPROVED_FOR_PR" ∷ "MERGED_MANUALLY"
    ∷ "ROLLED_BACK" ∷ "COMPLETED" ∷ "BLOCKED" ∷ []

abbrev pub allowed_transitions : List (String × List String)
allowed_transitions =
    ("PROPOSED", "RISK_CLASSIFIED" ∷ "BLOCKED" ∷ [])
    ∷ ("RISK_CLASSIFIED", "ARTIFACT_GENERATED" ∷ "HUMAN_REVIEW" ∷ "BLOCKED" ∷ [])
    ∷ ("ARTIFACT_GENERATED", "REGRESSION_TESTED" ∷ "BLOCKED" ∷ [])
    ∷ ("REGRESSION_TESTED", "SECURITY_TESTED" ∷ "BLOCKED" ∷ [])
    ∷ ("SECURITY_TESTED", "HUMAN_REVIEW" ∷ "SHADOW_MODE" ∷ "BLOCKED" ∷ [])
    ∷ ("HUMAN_REVIEW", "SHADOW_MODE" ∷ "APPROVED_FOR_PR" ∷ "BLOCKED" ∷ [])
    ∷ ("SHADOW_MODE", "CANARY" ∷ "HUMAN_REVIEW" ∷ "BLOCKED" ∷ [])
    ∷ ("CANARY", "APPROVED_FOR_PR" ∷ "ROLLED_BACK" ∷ "BLOCKED" ∷ [])
    ∷ ("APPROVED_FOR_PR", "MERGED_MANUALLY" ∷ "ROLLED_BACK" ∷ [])
    ∷ ("MERGED_MANUALLY", "COMPLETED" ∷ "ROLLED_BACK" ∷ [])
    ∷ ("ROLLED_BACK", "COMPLETED" ∷ [])
    ∷ ("BLOCKED", [])
    ∷ ("COMPLETED", [])
    ∷ []

-- `table.get(state, set())`
unfoldable pub moves_of : String → List (String × List String) → List String
moves_of state [] = []
moves_of state ((k, v) ∷ t) = let rest = moves_of state t in if k == state then v else rest

unfoldable pub can_transition : String → String → Bool
unfolding moves_of
can_transition old new = mem new (moves_of old allowed_transitions)

-- the state that a transition starts from: `old_state or "PROPOSED"`
unfoldable pub transition : Option String → String → Result UpgradeError (String × String)
unfolding can_transition
transition old new =
    let from = or_text old "PROPOSED" in
    if not (mem new industrial_upgrade_states)
    then err value_error
    else if not (from == new) && not (can_transition from new)
    then err value_error
    else ok (from, new)

-- an entry of `state_history`
pub record HistoryEntry : Type 0 where
  pub from_state : String
  pub to_state : String
  pub reason : String

-- the keys of a proposal's metadata that the machine reads and writes
pub record Metadata : Type 0 where
  pub state : Option String
  pub state_history : List HistoryEntry

unfoldable pub transition_metadata : Metadata → String → String → Result UpgradeError Metadata
unfolding transition
transition_metadata m new reason = elim (transition m.state new) [
  | err e ↦ err e
  | ok (from, _) ↦ ok (record {
    state = some new;
    state_history =
        m.state_history ++ record { from_state = from; to_state = new; reason = reason } ∷ [];
  })
]
