-- ===== src/Shared/Table/Oldest.antt =====
-- SELECT … WHERE p ORDER BY at ASC LIMIT 1. Among rows of the same age the first inserted is taken:
-- SQL leaves that choice open.
use Prim.Native.Nat.{ℕ, ◌≤◌}
use Prim.Native.String.{String}
use mathlib.Core.Path.{◌≡◌, sym, ◌∙◌}
use mathlib.Core.Bool.{Bool, true, false, false≢true}
use mathlib.Core.Option.{Option, none, some}
use mathlib.Core.List.{List, [], ◌∷◌}
use mathlib.Core.Logic.{inl, inr}
use native.Mathlib.Omega.{arith}
use text.Mathlib.TextEquality.{eq_iff}
use text.Mathlib.TextPositions.{eq_refl}
use omni_desk_ai.Shared.Tests.{All, All-imp, Option-cases, if◌then◌else◌, leb}
use omni_desk_ai.Shared.Table.Defs.{find}
use omni_desk_ai.Shared.Table.Unique.{IsUnique}

module _ {R : Type 0} (at : R → ℕ) where
  abbrev pub older : R → Option R → Option R
  older r none = some r
  older r (some b) = if leb (at r) (at b) then some r else some b

  unfoldable pub oldest : (R → Bool) → List R → Option R
  oldest p [] = none
  oldest p (r ∷ t) = let best = oldest p t in if p r then older r best else best

module _ {R : Type 0} (at : R → ℕ) (p : R → Bool) where
  -- `b` is selected: it passes the test, and no row that passes is older.
  pub record IsSelected (t : List R) (b : R) : Type 0 where
    pub passes : p b ≡ true
    pub minimal : All (λ r. p r ≡ true → at b ≤ at r) t

  -- Nothing is selected only if no row passes.
  pub oldest-eq-none : (t : List R) → oldest at p t ≡ none → All (λ r. p r ≡ false) t
  unfolding oldest
  oldest-eq-none [] h = tt
  oldest-eq-none (r ∷ t) h = elim (Option-cases (oldest at p t)) [
    | inl e ↦ (ground arith, oldest-eq-none t e)
    | inr (b, e) ↦ ground arith
  ]

  pub oldest-IsSelected : (t : List R) {b : R} → oldest at p t ≡ some b → IsSelected t b
  unfolding oldest
  oldest-IsSelected [] h = ground arith
  oldest-IsSelected (r ∷ t) {b} h = elim (Option-cases (oldest at p t)) [
    | inl e ↦ record {
      passes = ground arith;
      minimal = (
        ground arith,
        All-imp t (λ x (f : p x ≡ false) (g : p x ≡ true). absurd (false≢true (sym f ∙ g)))
            (oldest-eq-none t e),
      );
    }
    | inr (c, e) ↦ record {
      passes = ground (arith, (oldest-IsSelected t e).passes);
      minimal = (
        ground (arith),
        All-imp t (λ x (f : p x ≡ true → at c ≤ at x) (g : p x ≡ true). ground (arith, f g))
            (oldest-IsSelected t e).minimal,
      );
    }
  ]

module _ {R : Type 0} (key : R → String) (at : R → ℕ) (p : R → Bool) where
  -- A row that is selected is found under its key.
  pub find-oldest :
      (t : List R) {b : R} → IsUnique key t → oldest at p t ≡ some b → find key (key b) t ≡ some b
  unfolding oldest find
  find-oldest [] u h = ground arith
  find-oldest (r ∷ t) {b} u h =
      ground (arith, eq_iff (key r) (key b), eq_refl (key r), find-oldest t {b = b} u.1)
