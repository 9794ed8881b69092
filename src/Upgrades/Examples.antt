-- ===== src/Upgrades/Examples.antt =====
-- Ways of an upgrade proposal on concrete transitions.
use omni_desk_ai.Shared.{◌≡◌, refl, String, true, some, List, [], ◌∷◌, err}
use omni_desk_ai.Upgrades.{transition, transition_metadata, value_error}
use omni_desk_ai.Upgrades.Paths.{is_checked}
use omni_desk_ai.Upgrades.History.{advance, fresh, advance_released_checked}

-- the merge that comes too early is refused
abbrev steps : List (String × String)
steps =
    ("RISK_CLASSIFIED", "")
    ∷ ("MERGED_MANUALLY", "too early")
    ∷ ("HUMAN_REVIEW", "")
    ∷ ("APPROVED_FOR_PR", "")
    ∷ ("MERGED_MANUALLY", "")
    ∷ []

merged : (advance steps fresh).state ≡ some "MERGED_MANUALLY"
unfolding advance transition_metadata
merged = refl

early : transition (some "RISK_CLASSIFIED") "MERGED_MANUALLY" ≡ err value_error
unfolding transition
early = refl

advance_released_checked_example : is_checked (advance steps fresh).state_history ≡ true
advance_released_checked_example =
    advance_released_checked steps (unfold advance transition_metadata in refl)
