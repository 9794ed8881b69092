-- ===== src/Shared/Table/Rows.antt =====
-- What holds of one row, or of all rows, after a statement.
use Prim.Native.Nat.{◌+◌}
use Prim.Native.String.{String}
use mathlib.Core.Path.{◌≡◌, refl, ◌∙◌}
use mathlib.Core.Bool.{Bool, false}
use mathlib.Core.Option
use mathlib.Core.Option.{Option, none, some}
use mathlib.Core.List.{List, [], ◌∷◌, ◌++◌}
use native.Mathlib.Omega.{arith}
use text.Mathlib.Text.{◌==◌}
use mathlib.Core.Logic.{◌≢◌}
use text.Mathlib.TextEquality.{eq_iff}
use text.Mathlib.TextPositions.{eq_refl}
use omni_desk_ai.Shared.Tests.{All, if◌then◌else◌}
use omni_desk_ai.Shared.Table.Defs.{find, update, delete, count}

-- the first of two results
abbrev pub or_else : {R : Type 0} → Option R → Option R → Option R
or_else none b = b
or_else (some a) b = some a

module _ {R : Type 0} (key : R → String) where
  pub find-update :
      (k j : String) (f : R → R) (t : List R)
      → ((r : R) → key (f r) ≡ key r)
      → find key j (update key k f t)
        ≡ (if k == j then Option.map f (find key j t) else find key j t)
  unfolding find update
  find-update k j f [] keep = ground arith
  find-update k j f (r ∷ t) keep =
      ground
        (arith, keep r, eq_iff (key r) k, eq_iff (key r) j, eq_iff k j, find-update k j f t keep)

  -- An UPDATE by key, at the row that it finds.
  pub find-update_found :
      (k : String) (f : R → R) (t : List R) {r : R}
      → ((x : R) → key (f x) ≡ key x)
      → find key k t ≡ some r
      → find key k (update key k f t) ≡ some (f r)
  find-update_found k f t keep e = find-update k k f t keep ∙ rw (e, eq_refl k)

  -- and at any other key
  pub find-update_ne :
      (k j : String) (f : R → R) (t : List R)
      → ((x : R) → key (f x) ≡ key x)
      → k ≢ j
      → find key j (update key k f t) ≡ find key j t
  find-update_ne k j f t keep n = find-update k j f t keep ∙ ground (arith, eq_iff k j)

  -- An UPDATE by another column leaves a row alone whose column does not match.
  pub find-update_col :
      (col : R → String) (k j : String) (f : R → R) (t : List R) {r : R}
      → ((x : R) → key (f x) ≡ key x)
      → col r ≢ k
      → find key j t ≡ some r
      → find key j (update col k f t) ≡ some r
  unfolding find update
  find-update_col col k j f [] keep n e = e
  find-update_col col k j f (x ∷ t) {r} keep n e = ground (
    arith,
    keep x,
    eq_iff (col x) k,
    eq_iff (key x) j,
    find-update_col col k j f t {r = r} keep n,
  )

  pub find-append :
      (j : String) (t : List R) (r : R)
      → find key j (t ++ r ∷ []) ≡ or_else (find key j t) (if key r == j then some r else none)
  unfolding find
  find-append j [] r = refl
  find-append j (x ∷ t) r = ground (arith, find-append j t r)

  pub key-find : (j : String) (t : List R) {r : R} → find key j t ≡ some r → key r ≡ j
  unfolding find
  key-find j [] h = ground arith
  key-find j (x ∷ t) {r} h = ground (arith, eq_iff (key x) j, key-find j t {r = r})

  -- A DELETE leaves a row that does not pass where it is found.
  pub find-delete_keeps :
      (p : R → Bool) (j : String) (t : List R) {r : R}
      → find key j t ≡ some r
      → p r ≡ false
      → find key j (delete p t) ≡ some r
  unfolding find delete
  find-delete_keeps p j [] e n = e
  find-delete_keeps p j (x ∷ t) {r} e n = ground (arith, find-delete_keeps p j t {r = r})

  -- A row is written at its own key.
  pub find-replace :
      (r : R) (t : List R) {x : R}
      → find key (key r) t ≡ some x
      → find key (key r) (update key (key r) (λ _. r) t) ≡ some r
  unfolding find update
  find-replace r [] e = ground arith
  find-replace r (y ∷ t) {x} e = ground (arith, eq_refl (key r), find-replace r t {x = x})

  pub find-replace_ne :
      (r : R) (j : String) (t : List R)
      → key r ≢ j
      → find key j (update key (key r) (λ _. r) t) ≡ find key j t
  unfolding find update
  find-replace_ne r j [] n = refl
  find-replace_ne r j (x ∷ t) n =
      ground
        (arith, eq_iff (key x) (key r), eq_iff (key x) j, eq_iff (key r) j, find-replace_ne r j t n)

  module _ (P : R → Type 0) where
    pub All-find : (j : String) (t : List R) {r : R} → All P t → find key j t ≡ some r → P r
    unfolding find
    All-find j [] a h = ground arith
    All-find j (x ∷ t) {r} a h = ground (arith, All-find j t {r = r} a.1)

    pub All-update :
        (k : String) (f : R → R) (t : List R)
        → ((r : R) → key r ≡ k → P r → P (f r))
        → All P t
        → All P (update key k f t)
    unfolding update
    All-update k f [] keep a = tt
    All-update k f (r ∷ t) keep a =
        (ground (arith, keep r, eq_iff (key r) k), All-update k f t keep a.1)

module _ {R : Type 0} (P : R → Type 0) where
  pub All-append : (t : List R) (r : R) → All P t → P r → All P (t ++ r ∷ [])
  All-append [] r a p = (p, tt)
  All-append (x ∷ t) r a p = (a.0, All-append t r a.1 p)

  pub All-delete : (p : R → Bool) (t : List R) → All P t → All P (delete p t)
  unfolding delete
  All-delete p [] a = tt
  All-delete p (r ∷ t) a = ground (arith, All-delete p t a.1)

pub count-append :
    {R : Type 0} (p : R → Bool) (t : List R) (r : R)
    → count p (t ++ r ∷ []) ≡ count p t + (if p r then 1 else 0)
unfolding count
count-append p [] r = ground arith
count-append p (x ∷ t) r = ground (arith, count-append p t r)
