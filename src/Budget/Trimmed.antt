-- ===== src/Budget/Trimmed.antt =====
-- What `trim` keeps of a text.
use omni_desk_ai.Shared.{
  ℕ, zero, suc, ◌+◌, ◌-◌, ◌*◌, ◌/◌, ◌≤◌, ◌<◌, ◌≡◌, refl, sym, ap, ◌∙◌, String, Bool, true, false,
  arith, Bool-cases, inl, inr, ◌⊎◌, if◌then◌else◌, leb, leb→le,
}
use Prim.Native.Nat.{max}
use Prim.Native.String.append
use omni_desk_ai.Shared.Text.{◌+++◌, cut, decimal}
use omni_desk_ai.Budget.Trim.{size, skip, last, shorten, trim}

size-cut : (n : ℕ) (s : String) → n ≤ size s → size (cut n s) ≡ n
unfolding size cut
size-cut zero s h = refl
size-cut (suc n) String.[] h = ground arith
size-cut (suc n) (String.◌∷◌ c s) h = ap suc (size-cut n s (omega (arith, h)))

size-skip : (n : ℕ) (s : String) → size (skip n s) ≡ size s - n
unfolding size skip
size-skip zero s = omega arith
size-skip (suc n) String.[] = omega arith
size-skip (suc n) (String.◌∷◌ c s) = omega (arith, size-skip n s)

cut-skip : (n : ℕ) (s : String) → cut n s +++ skip n s ≡ s
unfolding cut skip
cut-skip zero s = append.nil s
cut-skip (suc n) String.[] = append.nil String.[]
cut-skip (suc n) (String.◌∷◌ c s) =
    append.cons c (cut n s) (skip n s) ∙ ap (String.◌∷◌ c) (cut-skip n s)

skip-empty : (n : ℕ) → skip n String.[] ≡ String.[]
unfolding skip
skip-empty zero = refl
skip-empty (suc n) = refl

skip-skip : (a b : ℕ) (s : String) → skip a (skip b s) ≡ skip (b + a) s
unfolding skip
skip-skip a zero s = let e : a ≡ 0 + a = omega arith in ap (λ n. skip n s) e
skip-skip a (suc b) String.[] = skip-empty a ∙ sym (skip-empty (suc b + a))
skip-skip a (suc b) (String.◌∷◌ c s) =
    let e : suc (b + a) ≡ suc b + a = omega arith in
    skip-skip a b s ∙ ap (λ n. skip n (String.◌∷◌ c s)) e

-- `out` is the beginning and the end of `text`, `n` characters at most, with a note between them that
-- tells how many characters are left out, or one less.
pub record IsShortened (n : ℕ) (note text out : String) : Type 0 where
  pub head : String
  pub middle : String
  pub tail : String
  pub text_of : text ≡ head +++ (middle +++ tail)
  pub out_of :
      out ≡ head +++ ("\n\n...[TRUNCATED " +++ (decimal (size text - n) +++ (note +++ tail)))
  pub balanced : size head ≡ size tail
  pub within : size head + size tail ≤ n
  pub told : size text - n ≤ size middle
  pub told_nearly : size middle ≤ size text - n + 1

shorten-IsShortened :
    (n : ℕ) (note text : String)
    → 2 ≤ n
    → n < size text
    → IsShortened n note text (shorten n note text)
unfolding shorten
shorten-IsShortened n note text h l =
    let half = max 1 (n / 2) in
    let rest = size text - (half + half) in
    let a : half + half ≤ n = omega (arith, h) in
    let b : n ≤ half + half + 1 = omega (arith, h) in
    let c : half + rest ≡ size text - half = omega (arith, a, l) in
    let t : skip rest (skip half text) ≡ last half text =
      skip-skip rest half text ∙ ap (λ k. skip k text) c in
    let sh = size-cut half text (omega (arith, a, l)) in
    let sm = size-cut rest (skip half text) (omega (arith, a, l, size-skip half text)) in
    let st = size-skip (size text - half) text in
    record {
      head = cut half text;
      middle = cut rest (skip half text);
      tail = last half text;
      text_of =
          sym (cut-skip half text)
          ∙ ap (λ k. cut half text +++ k)
              (sym (cut-skip rest (skip half text)) ∙ ap (λ k. cut rest (skip half text) +++ k) t);
      out_of = refl;
      balanced = omega (arith, sh, st, a, l);
      within = omega (arith, sh, st, a, l);
      told = omega (arith, sm, a, b, l);
      told_nearly = omega (arith, sm, a, b, l);
    }

-- how many characters `trim` lets through
abbrev pub trim_limit : ℕ → Bool → ℕ
trim_limit limit true = max (limit * 3) limit
trim_limit limit false = limit

abbrev pub trim_note : Bool → String
trim_note true = " CHARS AFTER REQUIRED-CALL VALIDATION]...\n\n"
trim_note false = " CHARS TO SAVE TOKENS]...\n\n"

trim-eq :
    (text : String) (limit : ℕ) (verified : Bool)
    → trim text limit verified ≡ (
        if leb (size text) (trim_limit limit verified)
        then text
        else shorten (trim_limit limit verified) (trim_note verified) text)
unfolding trim
trim-eq text limit true = refl
trim-eq text limit false = refl

limit-le : (limit : ℕ) (verified : Bool) → 2 ≤ limit → 2 ≤ trim_limit limit verified
limit-le limit true h = omega (arith, h)
limit-le limit false h = h

over : (a b : ℕ) → leb a b ≡ false → b < a
over a b h = ground arith

-- For a limit of 2 or more, which counts three times for a call that is verified as required: a text
-- within the limit is kept, and of a longer one the beginning and the end are kept, in equal parts
-- that do not overlap and are within the limit together, with a note that tells how many characters
-- between them are left out, or one less.
pub trim-IsShortened :
    (text : String) (limit : ℕ) (verified : Bool)
    → 2 ≤ limit
    → ((size text ≤ trim_limit limit verified) × (trim text limit verified ≡ text))
      ⊎ ((trim_limit limit verified < size text)
          × IsShortened
              (trim_limit limit verified)
              (trim_note verified)
              text
              (trim text limit verified))
trim-IsShortened text limit verified h =
    let n = trim_limit limit verified in
    elim (Bool-cases (leb (size text) n)) [
      | inl e ↦ inl (leb→le (size text) n e, trim-eq text limit verified ∙ rw e refl)
      | inr e ↦
          let l = over (size text) n e in
          inr (
            l,
            rw (trim-eq text limit verified, e)
                (shorten-IsShortened n (trim_note verified) text (limit-le limit verified h) l),
          )
    ]
