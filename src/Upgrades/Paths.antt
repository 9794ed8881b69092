-- ===== src/Upgrades/Paths.antt =====
-- The ways through the states of an upgrade.
use omni_desk_ai.Shared.{
  ◌≡◌, refl, sym, ap, ◌∙◌, ◌⊎◌, inl, inr, String, Bool, true, false, not, ◌&&◌, ◌||◌, Option, some,
  List, [], ◌∷◌, ◌++◌, ◌==◌, arith, eq_iff, Bool-cases, Result-cases, Result, ok, err,
  if◌then◌else◌,
}
use mathlib.Core.Bool.{false≢true}
use omni_desk_ai.Shared.Text.{or_text}
use omni_desk_ai.Shared.Member.{mem}
use omni_desk_ai.Upgrades.Defs.{
  UpgradeError, value_error, HistoryEntry, Metadata, allowed_transitions, industrial_upgrade_states,
  moves_of, can_transition, transition, transition_metadata,
}

-- the state was passed
abbrev pub passed : String → List HistoryEntry → Bool
passed x [] = false
passed x (e ∷ es) = e.to_state == x || passed x es

-- states that only a reviewed or canary-tested proposal may be in
abbrev pub is_released : String → Bool
is_released s = mem s ("APPROVED_FOR_PR" ∷ "MERGED_MANUALLY" ∷ "ROLLED_BACK" ∷ "COMPLETED" ∷ [])

abbrev pub is_checked : List HistoryEntry → Bool
is_checked es = passed "HUMAN_REVIEW" es || passed "CANARY" es

abbrev pub state_of : Metadata → String
state_of m = or_text m.state "PROPOSED"

passed-append :
    (x : String) (es : List HistoryEntry) (e : HistoryEntry)
    → passed x (es ++ e ∷ []) ≡ (passed x es || (e.to_state == x))
passed-append x [] e = ground arith
passed-append x (y ∷ es) e = ground (arith, passed-append x es e)

same_text : (x y : String) → (x == y) ≡ true → x ≡ y
same_text x y h = ground (arith, eq_iff x y)

module _ (p q : String → Bool) where
  any : List String → Bool
  any [] = false
  any (x ∷ xs) = p x || any xs

  mem-any : (k : String) (xs : List String) → mem k xs ≡ true → p k ≡ true → any xs ≡ true
  unfolding any
  mem-any k [] m h = ground arith
  mem-any k (x ∷ xs) m h = elim (Bool-cases (k == x)) [
    | inl e ↦ rw (ap p (sym (same_text k x e)) ∙ h) refl
    | inr e ↦ ground (arith, e, m, mem-any k xs)
  ]

  -- each row whose moves reach `p` starts in `q`
  guards : List (String × List String) → Bool
  unfolding any
  guards [] = true
  guards ((k, v) ∷ t) = (not (any v) || q k) && guards t

  row_guards :
      (old new k : String) (v : List String) (t : List (String × List String))
      → (k == old) ≡ true
      → guards ((k, v) ∷ t) ≡ true
      → mem new v ≡ true
      → p new ≡ true
      → q old ≡ true
  unfolding guards
  row_guards old new k v t e g m h =
      ap q (sym (same_text k old e)) ∙ ground (arith, g, mem-any new v m h)

  guarded_moves :
      (old new : String) (t : List (String × List String))
      → guards t ≡ true
      → mem new (moves_of old t) ≡ true
      → p new ≡ true
      → q old ≡ true
  unfolding guards moves_of
  guarded_moves old new [] g m h = ground arith
  guarded_moves old new ((k, v) ∷ t) g m h = elim (Bool-cases (k == old)) [
    | inl e ↦ row_guards old new k v t e g (ground (arith, e, m)) h
    | inr e ↦ guarded_moves old new t (ground (arith, g)) (ground (arith, e, m)) h
  ]

abbrev pub is_gate : String → Bool
is_gate s = s == "HUMAN_REVIEW" || s == "CANARY"

abbrev pub governs : String → Bool
governs s = is_released s || is_gate s

table_guards : guards is_released governs allowed_transitions ≡ true
unfolding guards any
table_guards = refl

-- the state's checks stand in the history
abbrev pub IsGoverned : Metadata → Type 0
IsGoverned m = governs (state_of m) ≡ true → is_checked m.state_history ≡ true

released_from :
    (old new : String) → can_transition old new ≡ true → is_released new ≡ true → governs old ≡ true
unfolding can_transition
released_from old new c r =
    guarded_moves is_released governs old new allowed_transitions table_guards c r

-- what `transition` does with its three tests
abbrev outcome : Bool → Bool → Bool → String → String → Result UpgradeError (String × String)
outcome known same can f new =
    if not known
    then err value_error
    else if not same && not can
    then err value_error
    else ok (f, new)

accepted :
    (known same can : Bool) (f new : String) {from to : String}
    → outcome known same can f new ≡ ok (from, to)
    → (from ≡ f) × ((same ≡ true) ⊎ (can ≡ true))
accepted true true can f new h = (ground arith, inl refl)
accepted true false true f new h = (ground arith, inr refl)
accepted true false false f new h = ground arith
accepted false same can f new h = ground arith

-- what a transition that is accepted checks
moved :
    (old : Option String) (new : String) {from to : String}
    → transition old new ≡ ok (from, to)
    → (from ≡ or_text old "PROPOSED")
      × (((or_text old "PROPOSED" == new) ≡ true)
          ⊎ (can_transition (or_text old "PROPOSED") new ≡ true))
unfolding transition
moved old new h =
    let f = or_text old "PROPOSED" in
    accepted (mem new industrial_upgrade_states) (f == new) (can_transition f new) f new h

checked-append :
    (es : List HistoryEntry) (e : HistoryEntry)
    → (is_checked es ≡ true) ⊎ (is_gate e.to_state ≡ true)
    → is_checked (es ++ e ∷ []) ≡ true
checked-append es e h =
    ground (arith, h, passed-append "HUMAN_REVIEW" es e, passed-append "CANARY" es e)

or_false : (a b : Bool) → b ≡ false → (a || b) ≡ true → a ≡ true
or_false true b h k = refl
or_false false b h k = ground arith

-- A state that governs comes from one, or is a gate.
governs_from :
    (m : Metadata) (new : String) {from to : String}
    → transition m.state new ≡ ok (from, to)
    → governs new ≡ true
    → (governs (state_of m) ≡ true) ⊎ (is_gate new ≡ true)
governs_from m new h g = elim (Bool-cases (is_gate new)) [
  | inl k ↦ inr k
  | inr k ↦
      let r = or_false (is_released new) (is_gate new) k g in
      let (_, way) = moved m.state new h in
      inl (elim way [
        | inl same ↦ ap governs (same_text (state_of m) new same) ∙ g
        | inr can ↦ released_from (state_of m) new can r
      ])
]

proposed_free : governs "PROPOSED" ≡ false
proposed_free = refl

or_text-some : (s : String) → (s == "") ≡ false → or_text (some s) "PROPOSED" ≡ s
or_text-some s h = ground (arith, h)

or_text_of_empty : (s : String) → (s == "") ≡ true → or_text (some s) "PROPOSED" ≡ "PROPOSED"
or_text_of_empty s h = ground (arith, h)

governs_new : (new : String) → governs (or_text (some new) "PROPOSED") ≡ true → governs new ≡ true
governs_new new h = elim (Bool-cases (new == "")) [
  | inl e ↦
      absurd (false≢true (sym proposed_free ∙ (ap governs (sym (or_text_of_empty new e)) ∙ h)))
  | inr e ↦ ap governs (sym (or_text-some new e)) ∙ h
]

-- what an accepted transition writes
written :
    (m n : Metadata) (new reason : String) {from to : String}
    → transition m.state new ≡ ok (from, to)
    → transition_metadata m new reason ≡ ok n
    → (some new ≡ n.state)
      × (m.state_history ++ record { from_state = from; to_state = new; reason = reason } ∷ []
          ≡ n.state_history)
unfolding transition_metadata
written m n new reason t h = ground (arith, t, h)

pub transition_metadata-IsGoverned :
    (m n : Metadata) (new reason : String)
    → transition_metadata m new reason ≡ ok n
    → IsGoverned m
    → IsGoverned n
unfolding transition_metadata
transition_metadata-IsGoverned m n new reason h g = elim (Result-cases (transition m.state new)) [
  | inr (e, t) ↦ ground arith
  | inl ((from, to), t) ↦
      let (st, hist) = written m n new reason t h in
      λ k.
        ap is_checked (sym hist)
        ∙ checked-append m.state_history
            (record { from_state = from; to_state = new; reason = reason })
            (elim (governs_from m new t
              (governs_new new (ap (λ x. governs (or_text x "PROPOSED")) st ∙ k))) [
                | inl old ↦ inl (g old)
                | inr gate ↦ inr gate
              ])
]

or_first : (a b : Bool) → a ≡ true → (a || b) ≡ true
or_first true b h = refl
or_first false b h = ground arith

pub or_left : (s : String) → is_released s ≡ true → governs s ≡ true
or_left s h = or_first (is_released s) (is_gate s) h
