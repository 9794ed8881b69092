-- ===== src/Shared/Sorted.antt =====
-- Python's `sorted` on texts, which compares their code points, and `", ".join`.
use Prim.Native.Char.{code}
use Prim.Native.String.{String}
use mathlib.Core.Path.{◌≡◌, refl}
use mathlib.Core.Bool.{Bool, true, false}
use mathlib.Core.List.{List, [], ◌∷◌}
use omni_desk_ai.Shared.Tests.{if◌then◌else◌, ltb}
use omni_desk_ai.Shared.Text.{◌+++◌}

-- s <= t
unfoldable pub text_leb : String → String → Bool
text_leb String.[] t = true
text_leb (String.◌∷◌ c s) String.[] = false
text_leb (String.◌∷◌ c s) (String.◌∷◌ d t) =
    let rest = text_leb s t in
    if ltb (code c) (code d) then true else if ltb (code d) (code c) then false else rest

unfoldable insert_text : String → List String → List String
unfolding text_leb
insert_text s [] = s ∷ []
insert_text s (t ∷ ts) =
    let rest = insert_text s ts in if text_leb s t then s ∷ t ∷ ts else t ∷ rest

unfoldable pub sorted : List String → List String
unfolding insert_text
sorted [] = []
sorted (s ∷ ss) = insert_text s (sorted ss)

-- ", ".join(texts)
unfoldable pub joined : List String → String
joined [] = ""
joined (s ∷ []) = s
joined (s ∷ t ∷ ts) = s +++ ", " +++ joined (t ∷ ts)

sorts : sorted ("b" ∷ "ab" ∷ "a" ∷ []) ≡ "a" ∷ "ab" ∷ "b" ∷ []
unfolding sorted
sorts = refl
