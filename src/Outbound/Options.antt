-- ===== src/Outbound/Options.antt =====
-- `validate_send_text_options` of omnidesk_agent/tools/channel_send.py: which options of a queued
-- message reach the channel's adapter.
use omni_desk_ai.Shared.{
  ℕ, suc, ◌≤◌, ◌≡◌, ◌⊎◌, refl, String, Bool, true, false, not, ◌&&◌, List, [], ◌∷◌, ltb,
  if◌then◌else◌, Result, ok, err, ◌>>=◌, ◌==◌, arith, All, Result-cases, Bool-cases, inl, inr,
  eq_iff,
}
use omni_desk_ai.Shared.Sorted.{sorted}
use omni_desk_ai.Outbound.Provider.{member}

-- A JSON value of an option: the checks look at its type only.
pub data OptionValue : Type 0 where
  flag_value : Bool → OptionValue
  text_value : String → OptionValue
  other_value : OptionValue

-- `payload.get("options") or {}`: an object with its entries, or a value of another type
pub data SendOptions : Type 0 where
  object : List (String × OptionValue) → SendOptions
  not_an_object : SendOptions

-- the ValueErrors, with the keys that they name
pub data OptionError : Type 0 where
  expected_object : OptionError
  unknown_options : List String → OptionError
  not_boolean not_short_text not_in_enum : String → OptionError

abbrev pub text_length : String → ℕ
text_length String.[] = 0
text_length (String.◌∷◌ c s) = suc (text_length s)

abbrev pub option_keys : List String
option_keys = "silent" ∷ "thread_ts" ∷ "surface" ∷ []

abbrev pub meta_surfaces : List String
meta_surfaces = "facebook" ∷ "page" ∷ "messenger" ∷ "instagram" ∷ "ig" ∷ []

-- the keys that the schema does not have
unfoldable pub unknown_keys : List (String × OptionValue) → List String
unknown_keys [] = []
unknown_keys ((k, v) ∷ rest) =
    let later = unknown_keys rest in if member k option_keys then later else k ∷ later

-- the checks of one value, whose key is one of the schema's; `to_lower` is `str.lower`
unfoldable pub check_value :
    (String → String) → String → OptionValue → Result OptionError (Unit {0})
check_value to_lower key (flag_value b) =
    if key == "silent" then ok tt else err (not_short_text key)
check_value to_lower key (text_value s) =
    if key == "silent"
    then err (not_boolean key)
    else if ltb 128 (text_length s)
    then err (not_short_text key)
    else if key == "surface" && not (member (to_lower s) meta_surfaces)
    then err (not_in_enum key)
    else ok tt
check_value to_lower key other_value =
    if key == "silent" then err (not_boolean key) else err (not_short_text key)

unfoldable pub clean_options :
    (String → String)
    → List (String × OptionValue)
    → Result OptionError (List (String × OptionValue))
unfolding check_value
clean_options to_lower [] = ok []
clean_options to_lower ((k, v) ∷ rest) =
    let later = clean_options to_lower rest in
    elim (check_value to_lower k v) [
      | err e ↦ err e
      | ok _ ↦ later >>= λ clean. ok ((k, v) ∷ clean)
    ]

unfoldable pub validate_send_text_options :
    (String → String) → SendOptions → Result OptionError (List (String × OptionValue))
unfolding unknown_keys clean_options sorted
validate_send_text_options to_lower not_an_object = err expected_object
validate_send_text_options to_lower (object entries) = elim (unknown_keys entries) [
  | [] ↦ clean_options to_lower entries
  | k ∷ ks ↦ err (unknown_options (sorted (k ∷ ks)))
]

-- What may reach an adapter, whatever the schema says: the flag silent, a thread_ts of at most 128
-- characters, and the name of a Meta surface, in any case of its letters.
abbrev pub IsSafe : (String → String) → String × OptionValue → Type 0
IsSafe to_lower (k, flag_value b) = k ≡ "silent"
IsSafe to_lower (k, text_value s) =
    (text_length s ≤ 128)
    × ((k ≡ "thread_ts")
        ⊎ ((k ≡ "surface")
            × (member (to_lower s) ("facebook" ∷ "page" ∷ "messenger" ∷ "instagram" ∷ "ig" ∷ [])
                ≡ true)))
IsSafe to_lower (k, other_value) = ⊥

not_over : (n : ℕ) → ltb 128 n ≡ false → n ≤ 128
not_over n h = ground arith

schema-cases :
    (k : String)
    → member k option_keys ≡ true
    → (k ≡ "silent") ⊎ ((k ≡ "thread_ts") ⊎ (k ≡ "surface"))
unfolding member
schema-cases k h = ground (arith, eq_iff "silent" k, eq_iff "thread_ts" k, eq_iff "surface" k)

in_enum :
    (to_lower : String → String) (k s : String) {x : Unit {0}}
    → k ≡ "surface"
    → ltb 128 (text_length s) ≡ false
    → check_value to_lower k (text_value s) ≡ ok x
    → member (to_lower s) meta_surfaces ≡ true
unfolding check_value
in_enum to_lower k s p e h = ground (arith, eq_iff k "surface", eq_iff k "silent")

check_value-IsSafe :
    (to_lower : String → String) (k : String) (v : OptionValue) {x : Unit {0}}
    → member k option_keys ≡ true
    → check_value to_lower k v ≡ ok x
    → IsSafe to_lower (k, v)
unfolding check_value
check_value-IsSafe to_lower k (flag_value b) a h = ground (arith, eq_iff k "silent")
check_value-IsSafe to_lower k (text_value s) a h = elim (Bool-cases (ltb 128 (text_length s))) [
  | inl e ↦ ground (arith, e)
  | inr e ↦
      let short = not_over (text_length s) e in
      elim (schema-cases k a) [
        | inl p ↦ ground (arith, p, eq_iff k "silent")
        | inr (inl p) ↦ (short, inl p)
        | inr (inr p) ↦ (short, inr (p, in_enum to_lower k s p e h))
      ]
]
check_value-IsSafe to_lower k other_value a h = ground arith

unknown_keys-schema :
    (entries : List (String × OptionValue))
    → unknown_keys entries ≡ []
    → All (λ e. member e.0 option_keys ≡ true) entries
unfolding unknown_keys
unknown_keys-schema [] h = tt
unknown_keys-schema ((k, v) ∷ rest) h = ground (arith, unknown_keys-schema rest)

clean_options-IsSafe :
    (to_lower : String → String) (entries : List (String × OptionValue))
    {clean : List (String × OptionValue)}
    → All (λ e. member e.0 option_keys ≡ true) entries
    → clean_options to_lower entries ≡ ok clean
    → (clean ≡ entries) × All (IsSafe to_lower) entries
unfolding clean_options
clean_options-IsSafe to_lower [] a h = (ground arith, tt)
clean_options-IsSafe to_lower ((k, v) ∷ rest) {clean} a h =
    elim (Result-cases (check_value to_lower k v)) [
      | inr (x, c) ↦ ground arith
      | inl (x, c) ↦ elim (Result-cases (clean_options to_lower rest)) [
        | inr (x, e) ↦ ground arith
        | inl (later, e) ↦
            let (same, safe) = clean_options-IsSafe to_lower rest a.1 e in
            (ground arith, (check_value-IsSafe to_lower k v a.0 c, safe))
      ]
    ]

keys-cases :
    (keys : List String) → (keys ≡ []) ⊎ ((k : String) × (ks : List String) × (keys ≡ k ∷ ks))
keys-cases [] = inl refl
keys-cases (k ∷ ks) = inr (k, ks, refl)

-- Options that pass are forwarded as they were given, and every one of them is the flag silent, a
-- thread_ts that is a text of at most 128 characters, or a surface that is, in lower case, one of
-- facebook, page, messenger, instagram and ig and has at most 128 characters.
pub validate_send_text_options-IsSafe :
    (to_lower : String → String) (options : SendOptions) {clean : List (String × OptionValue)}
    → validate_send_text_options to_lower options ≡ ok clean
    → (options ≡ object clean) × All (IsSafe to_lower) clean
unfolding validate_send_text_options
validate_send_text_options-IsSafe to_lower not_an_object h = ground arith
validate_send_text_options-IsSafe to_lower (object entries) {clean} h =
    elim (keys-cases (unknown_keys entries)) [
      | inl e ↦
          let (same, safe) =
            clean_options-IsSafe to_lower entries {clean = clean} (unknown_keys-schema entries e)
              (ground arith) in
          rw same (refl, safe)
      | inr (k, ks, e) ↦ ground arith
    ]
