-- ===== src/Shared/Strip.antt =====
-- Python's `str.strip`: the white space characters of Unicode are taken off both ends.
use Prim.Native.Nat.{ℕ}
use Prim.Native.Char.{code}
use Prim.Native.String.{String}
use mathlib.Core.Path.{◌≡◌, refl}
use mathlib.Core.Bool.{Bool, ◌&&◌, ◌||◌}
use text.Mathlib.Text.{◌==◌}
use omni_desk_ai.Shared.Tests.{if◌then◌else◌, leb}

abbrev within : ℕ → ℕ → ℕ → Bool
within lo hi c = leb lo c && leb c hi

is_space : ℕ → Bool
is_space c =
    (within 9 13 c || within 28 32 c)
    || (within 133 133 c || within 160 160 c)
    || ((within 5760 5760 c || within 8192 8202 c) || (within 8232 8233 c || within 8239 8239 c))
    || (within 8287 8287 c || within 12288 12288 c)

strip_left : String → String
unfolding is_space
strip_left String.[] = String.[]
strip_left (String.◌∷◌ c s) =
    let rest = strip_left s in if is_space (code c) then rest else String.◌∷◌ c s

strip_right : String → String
unfolding is_space
strip_right String.[] = String.[]
strip_right (String.◌∷◌ c s) =
    let rest = strip_right s in
    if is_space (code c) && rest == "" then String.[] else String.◌∷◌ c rest

unfoldable pub strip : String → String
unfolding strip_left strip_right
strip s = strip_right (strip_left s)

trims : strip " Ada  L " ≡ "Ada  L"
unfolding strip
trims = refl
