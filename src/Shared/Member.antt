-- ===== src/Shared/Member.antt =====
-- Membership of a text in a Python set or list.
use Prim.Native.String.{String}
use mathlib.Core.Bool.{Bool, false, ◌||◌}
use mathlib.Core.List.{List, [], ◌∷◌}
use text.Mathlib.Text.{◌==◌}

abbrev pub mem : String → List String → Bool
mem k [] = false
mem k (x ∷ xs) = k == x || mem k xs
