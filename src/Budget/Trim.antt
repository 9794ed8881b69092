-- ===== src/Budget/Trim.antt =====
-- `estimate_tokens` and `trim`. `wide` is `unicodedata.east_asian_width(ch) in {"W", "F"}`.
use omni_desk_ai.Shared.{
  ℕ, zero, suc, ◌+◌, ◌-◌, ◌*◌, ◌/◌, String, Bool, true, false, if◌then◌else◌, leb,
}
use Prim.Native.Nat.{max}
use Prim.Native.Char.{Char}
use omni_desk_ai.Shared.Text.{◌+++◌, cut, decimal}

-- len(text)
unfoldable pub size : String → ℕ
size String.[] = 0
size (String.◌∷◌ c s) = suc (size s)

-- text[n:]
unfoldable pub skip : ℕ → String → String
skip zero s = s
skip (suc n) String.[] = String.[]
skip (suc n) (String.◌∷◌ c s) = skip n s

-- text[-n:] for n above 0
abbrev pub last : ℕ → String → String
last n s = skip (size s - n) s

-- sum(1 for ch in text if wide)
unfoldable pub count_wide : (Char → Bool) → String → ℕ
count_wide wide String.[] = 0
count_wide wide (String.◌∷◌ c s) = let rest = count_wide wide s in if wide c then suc rest else rest

unfoldable pub estimate_tokens : (Char → Bool) → String → ℕ
unfolding size count_wide
estimate_tokens wide text =
    let cjk_chars = count_wide wide text in
    let non_cjk_chars = size text - cjk_chars in max 1 (cjk_chars + non_cjk_chars / 3)

-- the two halves of a text beyond `n` characters, with a note between them
unfoldable pub shorten : ℕ → String → String → String
unfolding size skip
shorten n note text =
    let half = max 1 (n / 2) in
    cut half text +++ "\n\n...[TRUNCATED " +++ decimal (size text - n) +++ note +++ last half text

unfoldable pub trim : String → ℕ → Bool → String
unfolding shorten
trim text limit true =
    let hard_limit = max (limit * 3) limit in
    if leb (size text) hard_limit
    then text
    else shorten hard_limit " CHARS AFTER REQUIRED-CALL VALIDATION]...\n\n" text
trim text limit false =
    if leb (size text) limit then text else shorten limit " CHARS TO SAVE TOKENS]...\n\n" text
