-- ===== src/Shared/Table/Selected.antt =====
-- The rows that a SELECT returned, while a loop updates them one by one.
use Prim.Native.String.{String}
use mathlib.Core.Path.{◌≡◌, refl}
use mathlib.Core.Bool.{Bool, true, false}
use mathlib.Core.Option.{some, none}
use mathlib.Core.List.{List, [], ◌∷◌}
use native.Mathlib.Omega.{arith}
use text.Mathlib.TextEquality.{eq_iff}
use text.Mathlib.TextPositions.{eq_refl}
use omni_desk_ai.Shared.Tests.{All, All-imp}
use omni_desk_ai.Shared.Table.Defs.{find, update, select}
use omni_desk_ai.Shared.Table.Rows.{find-update}
use omni_desk_ai.Shared.Table.Unique.{IsUnique}

module _ {R : Type 0} (key : R → String) where
  -- Every row of `rows` stands in the table as it was selected.
  abbrev pub IsCurrent : List R → List R → Type 0
  IsCurrent t rows = All (λ r. find key (key r) t ≡ some r) rows

  pub find-select-none :
      (p : R → Bool) (j : String) (t : List R)
      → find key j t ≡ none
      → find key j (select p t) ≡ none
  unfolding find select
  find-select-none p j [] h = refl
  find-select-none p j (r ∷ t) h = ground (arith, eq_iff (key r) j, find-select-none p j t)

  -- A row that does not pass is not selected.
  pub find-select_skips :
      (p : R → Bool) (j : String) (t : List R) {r : R}
      → IsUnique key t
      → find key j t ≡ some r
      → p r ≡ false
      → find key j (select p t) ≡ none
  unfolding find select
  find-select_skips p j [] u e n = refl
  find-select_skips p j (x ∷ t) {r} u e n = ground (
    arith,
    eq_iff (key x) j,
    find-select-none p (key x) t u.0,
    find-select_skips p j t {r = r} u.1,
  )

  pub IsUnique-select : (p : R → Bool) (t : List R) → IsUnique key t → IsUnique key (select p t)
  unfolding select
  IsUnique-select p [] u = tt
  IsUnique-select p (r ∷ t) u =
      ground (arith, find-select-none p (key r) t u.0, IsUnique-select p t u.1)

  IsCurrent-cons :
      (x : R) (t rows : List R)
      → find key (key x) t ≡ none
      → IsCurrent t rows
      → IsCurrent (x ∷ t) rows
  unfolding find
  IsCurrent-cons x t rows n c =
      All-imp rows (λ r (h : find key (key r) t ≡ some r). ground (arith, eq_iff (key x) (key r))) c

  pub IsCurrent-select : (p : R → Bool) (t : List R) → IsUnique key t → IsCurrent t (select p t)
  unfolding select find
  IsCurrent-select p [] u = tt
  IsCurrent-select p (r ∷ t) u =
      ground
        (arith, eq_refl (key r), IsCurrent-cons r t (select p t) u.0 (IsCurrent-select p t u.1))

  -- An UPDATE of one row leaves the other selected rows current.
  pub IsCurrent-update :
      (k : String) (f : R → R) (t rows : List R)
      → ((r : R) → key (f r) ≡ key r)
      → find key k rows ≡ none
      → IsCurrent t rows
      → IsCurrent (update key k f t) rows
  unfolding find
  IsCurrent-update k f t [] keep n c = tt
  IsCurrent-update k f t (r ∷ rows) keep n c = ground (
    arith,
    find-update key k (key r) f t keep,
    eq_iff k (key r),
    eq_iff (key r) k,
    IsCurrent-update k f t rows keep,
  )

pub All-select : {R : Type 0} (p : R → Bool) (t : List R) → All (λ r. p r ≡ true) (select p t)
unfolding select
All-select p [] = tt
All-select p (r ∷ t) = ground (arith, All-select p t)
