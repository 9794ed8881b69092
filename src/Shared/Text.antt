-- ===== src/Shared/Text.antt =====
-- Python's texts: concatenation, `text[:n]`, `str(n)`, and `value or default`.
use Prim.Native.Nat.{ℕ, zero, suc, ◌/◌, ◌%◌}
use Prim.Native.String.{String, ◌++◌}
use mathlib.Core.Option.{Option, none, some}
use text.Mathlib.Text.{◌==◌}
use omni_desk_ai.Shared.Tests.{if◌then◌else◌, ltb}

-- f"{a}{b}"
infixr 66 ◌+++◌
abbrev pub ◌+++◌ : String → String → String
a +++ b = a ++ b

-- text[:n]
unfoldable pub cut : ℕ → String → String
cut zero s = String.[]
cut (suc n) String.[] = String.[]
cut (suc n) (String.◌∷◌ c s) = String.◌∷◌ c (cut n s)

abbrev digit : ℕ → String
digit n =
    if ltb n 1
    then "0"
    else if ltb n 2
    then "1"
    else if ltb n 3
    then "2"
    else if ltb n 4
    then "3"
    else if ltb n 5
    then "4"
    else if ltb n 6
    then "5"
    else if ltb n 7
    then "6"
    else if ltb n 8
    then "7"
    else if ltb n 9
    then "8"
    else "9"

-- the digits of `n`; a number has at most as many digits as the fuel `n + 1`
decimal_fuel : ℕ → ℕ → String
decimal_fuel zero n = String.[]
decimal_fuel (suc f) n =
    let rest = decimal_fuel f (n / 10) in if ltb n 10 then digit n else rest ++ digit (n % 10)

-- str(n)
unfoldable pub decimal : ℕ → String
unfolding decimal_fuel
decimal n = decimal_fuel (suc n) n

-- a text that counts as true
abbrev pub truthy : Option String → Option String
truthy none = none
truthy (some s) = if s == "" then none else some s

-- `a or b`
abbrev pub or_text : Option String → String → String
or_text a b = elim (truthy a) [ none ↦ b | some s ↦ s ]
