-- ===== src/Shared/Table/Defs.antt =====
-- The statements. A key is the column that the WHERE clause names.
use Prim.Native.Nat.{ℕ, suc}
use Prim.Native.String.{String}
use mathlib.Core.Bool.{Bool}
use mathlib.Core.Option.{Option, none, some}
use mathlib.Core.List.{List, [], ◌∷◌}
use text.Mathlib.Text.{◌==◌}
use omni_desk_ai.Shared.Tests.{if◌then◌else◌}

module _ {R : Type 0} (key : R → String) where
  -- SELECT … WHERE key=?
  unfoldable pub find : String → List R → Option R
  find k [] = none
  find k (r ∷ t) = if key r == k then some r else find k t

  -- UPDATE … WHERE key=?
  unfoldable pub update : String → (R → R) → List R → List R
  update k f [] = []
  update k f (r ∷ t) = (if key r == k then f r else r) ∷ update k f t

module _ {R : Type 0} (p : R → Bool) where
  -- DELETE … WHERE p
  unfoldable pub delete : List R → List R
  delete [] = []
  delete (r ∷ t) = let rest = delete t in if p r then rest else r ∷ rest

  -- SELECT … WHERE p
  unfoldable pub select : List R → List R
  select [] = []
  select (r ∷ t) = let rest = select t in if p r then r ∷ rest else rest

  -- SELECT COUNT(*) … WHERE p
  unfoldable pub count : List R → ℕ
  count [] = 0
  count (r ∷ t) = let rest = count t in if p r then suc rest else rest
