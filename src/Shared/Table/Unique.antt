-- ===== src/Shared/Table/Unique.antt =====
-- A column with a PRIMARY KEY or UNIQUE constraint, and what the constraint gives.
use Prim.Native.Nat.{ℕ}
use Prim.Native.String.{String}
use mathlib.Core.Path.{◌≡◌, refl}
use mathlib.Core.Bool.{Bool, true, ◌&&◌}
use mathlib.Core.Option.{Option, none, some}
use mathlib.Core.List.{List, [], ◌∷◌, ◌++◌}
use native.Mathlib.Omega.{arith}
use text.Mathlib.Text.{◌==◌}
use text.Mathlib.TextEquality.{eq_iff}
use text.Mathlib.TextPositions.{eq_refl}
use omni_desk_ai.Shared.Tests.{All, if◌then◌else◌}
use omni_desk_ai.Shared.Table.Defs.{find, update, delete, count}
use omni_desk_ai.Shared.Table.Rows.{find-append}

-- No value of the column stands in two rows.
abbrev pub IsUnique : {R : Type 0} → (R → String) → List R → Type 0
IsUnique key [] = Unit
IsUnique key (r ∷ t) = (find key (key r) t ≡ none) × IsUnique key t

-- the row that is found, unless `p` deletes it
abbrev pub unless : {R : Type 0} → (R → Bool) → Option R → Option R
unless p none = none
unless p (some r) = if p r then none else some r

module _ {R : Type 0} (key col : R → String) where
  pub find-update-none :
      (k j : String) (f : R → R) (t : List R)
      → ((r : R) → col (f r) ≡ col r)
      → find col j t ≡ none
      → find col j (update key k f t) ≡ none
  unfolding find update
  find-update-none k j f [] keep h = refl
  find-update-none k j f (r ∷ t) keep h =
      ground (arith, keep r, eq_iff (col r) j, find-update-none k j f t keep)

  -- An UPDATE by one column keeps another column unique if it does not write it.
  pub IsUnique-update :
      (k : String) (f : R → R) (t : List R)
      → ((r : R) → col (f r) ≡ col r)
      → IsUnique col t
      → IsUnique col (update key k f t)
  unfolding update
  IsUnique-update k f [] keep u = tt
  IsUnique-update k f (r ∷ t) keep u =
      ground
        (arith, keep r, find-update-none k (col r) f t keep u.0, IsUnique-update k f t keep u.1)

module _ {R : Type 0} (key : R → String) where
  pub find-delete-none :
      (p : R → Bool) (j : String) (t : List R)
      → find key j t ≡ none
      → find key j (delete p t) ≡ none
  unfolding find delete
  find-delete-none p j [] h = refl
  find-delete-none p j (r ∷ t) h = ground (arith, eq_iff (key r) j, find-delete-none p j t)

  pub find-delete :
      (p : R → Bool) (j : String) (t : List R)
      → IsUnique key t
      → find key j (delete p t) ≡ unless p (find key j t)
  unfolding find delete
  find-delete p j [] u = refl
  find-delete p j (r ∷ t) u =
      ground (arith, eq_iff (key r) j, find-delete p j t u.1, find-delete-none p (key r) t u.0)

  pub IsUnique-delete : (p : R → Bool) (t : List R) → IsUnique key t → IsUnique key (delete p t)
  unfolding delete
  IsUnique-delete p [] u = tt
  IsUnique-delete p (r ∷ t) u =
      ground (arith, find-delete-none p (key r) t u.0, IsUnique-delete p t u.1)

  pub IsUnique-append :
      (t : List R) (r : R) → IsUnique key t → find key (key r) t ≡ none → IsUnique key (t ++ r ∷ [])
  unfolding find
  IsUnique-append [] r u n = (refl, tt)
  IsUnique-append (x ∷ t) r u n = ground (
    arith,
    eq_iff (key x) (key r),
    eq_iff (key r) (key x),
    find-append key (key x) t r,
    IsUnique-append t r u.1,
  )

  pub update-none :
      (k : String) (f : R → R) (t : List R) → find key k t ≡ none → update key k f t ≡ t
  unfolding find update
  update-none k f [] h = refl
  update-none k f (r ∷ t) h = ground (arith, update-none k f t)

  -- An UPDATE of a unique row needs the property at that row alone.
  pub All-update_found :
      (P : R → Type 0) (k : String) (f : R → R) (t : List R) {row : R}
      → IsUnique key t
      → find key k t ≡ some row
      → All P t
      → P (f row)
      → All P (update key k f t)
  unfolding find update
  All-update_found P k f [] u e a p = ground arith
  All-update_found P k f (r ∷ t) {row} u e a p = ground (
    arith,
    eq_iff (key r) k,
    update-none (key r) f t u.0,
    All-update_found P k f t {row = row} u.1,
  )

  -- To write a fixed row is to update the row that is found.
  pub update-const :
      (k : String) (f : R → R) (t : List R) {r : R}
      → IsUnique key t
      → find key k t ≡ some r
      → update key k (λ _. f r) t ≡ update key k f t
  unfolding find update
  update-const k f [] u e = refl
  update-const k f (x ∷ t) {r} u e = ground (
    arith,
    eq_iff (key x) k,
    update-none (key x) f t u.0,
    update-none (key x) (λ _. f r) t u.0,
    update-const k f t {r = r} u.1,
  )

  -- the number of rows at a key that pass
  abbrev passing : (R → Bool) → Option R → ℕ
  passing q none = 0
  passing q (some r) = if q r then 1 else 0

  pub count-key_none :
      (k : String) (q : R → Bool) (t : List R)
      → find key k t ≡ none
      → count (λ r. key r == k && q r) t ≡ 0
  unfolding find count
  count-key_none k q [] n = refl
  count-key_none k q (r ∷ t) n = ground (arith, count-key_none k q t)

  pub count-key :
      (k : String) (q : R → Bool) (t : List R)
      → IsUnique key t
      → count (λ r. key r == k && q r) t ≡ passing q (find key k t)
  unfolding find count
  count-key k q [] u = refl
  count-key k q (r ∷ t) u =
      ground (arith, eq_iff (key r) k, count-key_none (key r) q t u.0, count-key k q t u.1)

  delete-key_none :
      (k : String) (q : R → Bool) (t : List R)
      → find key k t ≡ none
      → delete (λ r. key r == k) t ≡ delete (λ r. key r == k && q r) t
  unfolding find delete
  delete-key_none k q [] n = refl
  delete-key_none k q (r ∷ t) n = ground (arith, delete-key_none k q t)

  -- A DELETE at a key, and one at the key with a test that its row passes.
  pub delete-key :
      (k : String) (q : R → Bool) (t : List R) {r : R}
      → IsUnique key t
      → find key k t ≡ some r
      → q r ≡ true
      → delete (λ x. key x == k) t ≡ delete (λ x. key x == k && q x) t
  unfolding find delete
  delete-key k q [] u e h = refl
  delete-key k q (x ∷ t) {r} u e h =
      ground
        (arith, eq_iff (key x) k, delete-key_none (key x) q t u.0, delete-key k q t {r = r} u.1)

-- Two unique columns of one table.
module _ {R : Type 0} (key col : R → String) where
  -- The row of one is found by its value of the other.
  pub find-other :
      (k : String) (t : List R) {r : R}
      → IsUnique col t
      → find key k t ≡ some r
      → find col (col r) t ≡ some r
  unfolding find
  find-other k [] u e = ground arith
  find-other k (x ∷ t) {r} u e =
      ground (arith, eq_refl (col x), eq_iff (col x) (col r), find-other k t {r = r} u.1)

  -- A row is written by the one or by the other.
  pub update-other :
      (k : String) (f : R → R) (t : List R) {r : R}
      → IsUnique key t
      → IsUnique col t
      → find key k t ≡ some r
      → update col (col r) f t ≡ update key k f t
  unfolding find update
  update-other k f [] u v e = refl
  update-other k f (x ∷ t) {r} u v e = ground (
    arith,
    eq_refl (col x),
    eq_iff (key x) k,
    eq_iff (col x) (col r),
    update-none key (key x) f t u.0,
    update-none col (col x) f t v.0,
    find-other k t {r = r} v.1,
    update-other k f t {r = r} u.1 v.1,
  )
