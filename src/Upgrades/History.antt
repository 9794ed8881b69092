-- ===== src/Upgrades/History.antt =====
-- Sequences of transitions of one upgrade proposal.
use omni_desk_ai.Shared.{◌≡◌, refl, String, true, none, List, [], ◌∷◌, Result, ok, err}
use mathlib.Core.Bool.{false≢true}
use omni_desk_ai.Upgrades.Defs.{UpgradeError, Metadata, transition_metadata}
use omni_desk_ai.Upgrades.Paths.{
  IsGoverned, state_of, is_released, is_checked, transition_metadata-IsGoverned, or_left,
}

abbrev pub or_same : Result UpgradeError Metadata → Metadata → Metadata
or_same (ok n) m = n
or_same (err e) m = m

-- A transition that raises leaves the metadata as it was.
unfoldable pub advance : List (String × String) → Metadata → Metadata
advance [] m = m
advance ((new, reason) ∷ rest) m = advance rest (or_same (transition_metadata m new reason) m)

-- the metadata of a new proposal
abbrev pub fresh : Metadata
fresh = record { state = none; state_history = [] }

or_same-IsGoverned :
    (r : Result UpgradeError Metadata) (m : Metadata)
    → ((n : Metadata) → r ≡ ok n → IsGoverned n)
    → IsGoverned m
    → IsGoverned (or_same r m)
or_same-IsGoverned (ok n) m f g = f n refl
or_same-IsGoverned (err e) m f g = g

advance-IsGoverned :
    (steps : List (String × String)) (m : Metadata) → IsGoverned m → IsGoverned (advance steps m)
unfolding advance
advance-IsGoverned [] m g = g
advance-IsGoverned ((new, reason) ∷ rest) m g =
    advance-IsGoverned rest (or_same (transition_metadata m new reason) m) (
      or_same-IsGoverned (transition_metadata m new reason) m
        (λ n h. transition_metadata-IsGoverned m n new reason h g) g)

-- Whatever transitions are asked for, in any order and with any refusals, a new proposal is approved
-- for a pull request, merged, rolled back or completed only if its history shows that it went through
-- human review or the canary.
pub advance_released_checked :
    (steps : List (String × String))
    → is_released (state_of (advance steps fresh)) ≡ true
    → is_checked (advance steps fresh).state_history ≡ true
advance_released_checked steps r =
    advance-IsGoverned steps fresh (λ h. absurd (false≢true h))
      (or_left (state_of (advance steps fresh)) r)
