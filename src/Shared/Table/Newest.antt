-- ===== src/Shared/Table/Newest.antt =====
-- SELECT … ORDER BY at DESC LIMIT n.
use Prim.Native.Nat.{ℕ, zero, suc, ◌≤◌}
use mathlib.Core.List.{List, [], ◌∷◌}
use native.Mathlib.Omega.{arith}
use omni_desk_ai.Shared.Tests.{All, All-imp, length, if◌then◌else◌, leb}

module _ {R : Type 0} where
  -- LIMIT n
  unfoldable pub limit : ℕ → List R → List R
  limit zero t = []
  limit (suc n) [] = []
  limit (suc n) (r ∷ t) = r ∷ limit n t

  pub length-limit-le : (n : ℕ) (t : List R) → length (limit n t) ≤ n
  unfolding limit
  length-limit-le zero t = omega arith
  length-limit-le (suc n) [] = omega arith
  length-limit-le (suc n) (r ∷ t) = omega (arith, length-limit-le n t)

  pub All-limit : (P : R → Type 0) (n : ℕ) (t : List R) → All P t → All P (limit n t)
  unfolding limit
  All-limit P zero t a = tt
  All-limit P (suc n) [] a = tt
  All-limit P (suc n) (r ∷ t) a = (a.0, All-limit P n t a.1)

module _ {R : Type 0} (at : R → ℕ) where
  unfoldable pub place : R → List R → List R
  place r [] = r ∷ []
  place r (x ∷ t) = if leb (at x) (at r) then r ∷ x ∷ t else x ∷ place r t

  unfoldable pub newest_first : List R → List R
  unfolding place
  newest_first [] = []
  newest_first (r ∷ t) = place r (newest_first t)

  -- Every row is at least as new as all the rows behind it.
  abbrev pub IsNewestFirst : List R → Type 0
  IsNewestFirst [] = Unit
  IsNewestFirst (r ∷ t) = All (λ x. at x ≤ at r) t × IsNewestFirst t

  All-place : (P : R → Type 0) (r : R) (t : List R) → P r → All P t → All P (place r t)
  unfolding place
  All-place P r [] p a = (p, tt)
  All-place P r (x ∷ t) p a = ground (arith, All-place P r t p a.1)

  pub All-newest_first : (P : R → Type 0) (t : List R) → All P t → All P (newest_first t)
  unfolding newest_first
  All-newest_first P [] a = tt
  All-newest_first P (r ∷ t) a = All-place P r (newest_first t) a.0 (All-newest_first P t a.1)

  older_All :
      (r x : R) (t : List R) → at x ≤ at r → All (λ y. at y ≤ at x) t → All (λ y. at y ≤ at r) t
  older_All r x t h a = All-imp t (λ y (k : at y ≤ at x). omega arith) a

  place-IsNewestFirst : (r : R) (t : List R) → IsNewestFirst t → IsNewestFirst (place r t)
  unfolding place
  place-IsNewestFirst r [] s = (tt, tt)
  place-IsNewestFirst r (x ∷ t) s =
      ground (arith, older_All r x t, place-IsNewestFirst r t s.1, All-place (λ y. at y ≤ at x) r t)

  pub newest_first-IsNewestFirst : (t : List R) → IsNewestFirst (newest_first t)
  unfolding newest_first
  newest_first-IsNewestFirst [] = tt
  newest_first-IsNewestFirst (r ∷ t) =
      place-IsNewestFirst r (newest_first t) (newest_first-IsNewestFirst t)

  pub IsNewestFirst-limit : (n : ℕ) (t : List R) → IsNewestFirst t → IsNewestFirst (limit n t)
  unfolding limit
  IsNewestFirst-limit zero t s = tt
  IsNewestFirst-limit (suc n) [] s = tt
  IsNewestFirst-limit (suc n) (r ∷ t) s =
      (All-limit (λ x. at x ≤ at r) n t s.0, IsNewestFirst-limit n t s.1)
