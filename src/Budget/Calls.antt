-- ===== src/Budget/Calls.antt =====
-- The limit of calls of one task, over sequences of calls one after the other.
use omni_desk_ai.Shared.{
  ℕ, suc, ◌+◌, ◌-◌, ◌*◌, ◌≤◌, ◌<◌, ◌≡◌, refl, sym, ap, ◌∙◌, String, Bool, true, false, ◌&&◌, Option,
  none, some, List, [], ◌∷◌, ◌++◌, ◌==◌, eq_iff, arith, Option-cases, Bool-cases, inl, inr, ◌⊎◌,
  if◌then◌else◌,
}
use mathlib.Core.Path.{subst}
use mathlib.Core.Bool.{false≢true}
use omni_desk_ai.Shared.Table.{count, count-append}
use omni_desk_ai.Budget.Defs.{
  Texts, TokenDecision, UsageRow, TokenBudgetManager, ModelCall, count_calls, at_limit, decide,
  get_cached, put_cached, record_call, usage_row, Completion, answered, record_answer, Structure,
  Replies, repair_structured_output, ask_provider, complete_with_provider,
}

-- a call of the router, with the clock, the kind of provider and its replies
pub record Round : Type 0 where
  pub now : ℕ
  pub subscription : Bool
  pub structure : Structure
  pub replies : Replies
  pub call : ModelCall

abbrev pub is_answered : Completion → Bool
is_answered (answered _ _) = true
is_answered _ = false

-- how often the provider was asked for an answer that was recorded
abbrev pub asked : Completion → ℕ
asked (answered n _) = n
asked _ = 0

-- A call is answered and recorded below the limit, or nothing is recorded.
data IsRound (c : ModelCall) (m u : TokenBudgetManager) (r : Completion) : Type 0 where
  unrecorded : is_answered r ≡ false → u ≡ m → IsRound c m u r
  recorded :
      (row : UsageRow)
      → row.task_id ≡ c.task_id
      → is_answered r ≡ true
      → (1 ≤ asked r) × (asked r ≤ 2)
      → at_limit m.config.per_task_max_llm_calls (count_calls c.task_id m) ≡ false
      → u.config ≡ m.config
      → u.usage ≡ m.usage ++ row ∷ []
      → IsRound c m u r

-- At the limit nothing is allowed, verified or not.
decide-at_limit :
    (x : Texts) (c : ModelCall) (m : TokenBudgetManager)
    → at_limit m.config.per_task_max_llm_calls (count_calls c.task_id m) ≡ true
    → (decide x c m).allowed ≡ false
unfolding decide
decide-at_limit x c m e = rw (decide, e) refl

put_cached-usage :
    (now : ℕ) (key model response : String) (m : TokenBudgetManager)
    → ((put_cached now key model response m).usage ≡ m.usage)
      × ((put_cached now key model response m).config ≡ m.config)
unfolding put_cached
put_cached-usage now key model response m = ground arith

record_answer-IsRound :
    (x : Texts) (now : ℕ) (subscription : Bool) (n : ℕ) (text : String) (c : ModelCall)
    (d : TokenDecision) (m : TokenBudgetManager)
    → (1 ≤ n) × (n ≤ 2)
    → at_limit m.config.per_task_max_llm_calls (count_calls c.task_id m) ≡ false
    → IsRound c m
        (record_answer x now subscription n text c d m).1
        (record_answer x now subscription n text c d m).0
unfolding record_answer record_call usage_row
record_answer-IsRound x now true n text c d m h l = recorded _ refl refl h l refl refl
record_answer-IsRound x now false n text c d m h l =
    let p =
      put_cached-usage now d.cache_key c.model text (record_call (usage_row x now text c d) m) in
    recorded (usage_row x now text c d) refl refl h l p.1 p.0

-- The provider is asked for a repair at most once.
repair_once :
    (subscription : Bool) (q : Structure) (repaired : Option String) (text : String)
    → (repair_structured_output subscription q repaired text).0 ≤ 1
unfolding repair_structured_output
repair_once subscription q repaired text = ground arith

ask_provider-IsRound :
    (x : Texts) (now : ℕ) (subscription : Bool) (q : Structure) (a : Replies) (c : ModelCall)
    (d : TokenDecision) (m : TokenBudgetManager)
    → at_limit m.config.per_task_max_llm_calls (count_calls c.task_id m) ≡ false
    → IsRound c m
        (ask_provider x now subscription q a c d m).1
        (ask_provider x now subscription q a c d m).0
unfolding ask_provider
ask_provider-IsRound x now subscription q a c d m l = elim (Option-cases a.first) [
  | inl e ↦ unrecorded (rw (e, ask_provider) refl) (rw (e, ask_provider) refl)
  | inr (text, e) ↦
      let r = repair_structured_output subscription q a.repaired text in
      let once = repair_once subscription q a.repaired text in
      elim (Option-cases r.1) [
        | inl g ↦ unrecorded (rw (e, g, ask_provider) refl) (rw (e, g, ask_provider) refl)
        | inr (t, g) ↦
            rw (e, g, ask_provider)
              (record_answer-IsRound x now subscription (suc r.0) t c d m
                (omega (arith, once), omega (arith, once)) l)
      ]
]

complete-IsRound :
    (x : Texts) (now : ℕ) (subscription : Bool) (q : Structure) (a : Replies) (c : ModelCall)
    (m : TokenBudgetManager)
    → IsRound c m
        (complete_with_provider x now subscription q a c m).1
        (complete_with_provider x now subscription q a c m).0
unfolding complete_with_provider
complete-IsRound x now subscription q a c m =
    let d = decide x c m in
    elim (Bool-cases d.allowed) [
      | inr n ↦
          unrecorded (rw (complete_with_provider, n) refl) (rw (complete_with_provider, n) refl)
      | inl n ↦
          elim (Bool-cases (at_limit m.config.per_task_max_llm_calls (count_calls c.task_id m))) [
            | inl l ↦ absurd (false≢true (sym (decide-at_limit x c m l) ∙ n))
            | inr l ↦
                elim (Option-cases (if subscription then none else get_cached now d.cache_key m)) [
                  | inr (t, g) ↦
                      unrecorded (rw (complete_with_provider, n, g) refl)
                        (rw (complete_with_provider, n, g) refl)
                  | inl g ↦
                      rw (complete_with_provider, n, g)
                        (ask_provider-IsRound x now subscription q a c d m l)
                ]
          ]
    ]

module _ (x : Texts) where
  -- the manager after the calls
  unfoldable pub run_rounds : List Round → TokenBudgetManager → TokenBudgetManager
  unfolding complete_with_provider
  run_rounds [] m = m
  run_rounds (r ∷ rs) m =
      run_rounds rs (complete_with_provider x r.now r.subscription r.structure r.replies r.call m).1

  -- how many calls of the task a provider answered
  unfoldable pub answered_calls : String → List Round → TokenBudgetManager → ℕ
  unfolding complete_with_provider
  answered_calls task_id [] m = 0
  answered_calls task_id (r ∷ rs) m =
      let (c, m1) = complete_with_provider x r.now r.subscription r.structure r.replies r.call m in
      let rest = answered_calls task_id rs m1 in
      if is_answered c && r.call.task_id == task_id then suc rest else rest

  -- how often the providers were asked for the answered calls of the task
  unfoldable pub requests : String → List Round → TokenBudgetManager → ℕ
  unfolding complete_with_provider
  requests task_id [] m = 0
  requests task_id (r ∷ rs) m =
      let (c, m1) = complete_with_provider x r.now r.subscription r.structure r.replies r.call m in
      let rest = requests task_id rs m1 in
      if is_answered c && r.call.task_id == task_id then asked c + rest else rest

  -- one call: it is not answered, or it is of another task, or it is answered below the limit
  abbrev IsCharged : String → ℕ → Bool → ℕ → TokenBudgetManager → TokenBudgetManager → Type 0
  IsCharged task_id n hit k m u =
      (u.config ≡ m.config)
      × (((hit ≡ false) × (count_calls task_id u ≡ count_calls task_id m))
          ⊎ ((hit ≡ true)
              × ((1 ≤ k) × (k ≤ 2))
              × (count_calls task_id u ≡ count_calls task_id m + 1)
              × (count_calls task_id m < n)))

  below : (limit : Option ℕ) (n k : ℕ) → limit ≡ some n → at_limit limit k ≡ false → k < n
  below limit n k e h = ground arith

  IsRound-IsCharged :
      (task_id : String) (n : ℕ) (c : ModelCall) (m u : TokenBudgetManager) (r : Completion)
      → m.config.per_task_max_llm_calls ≡ some n
      → IsRound c m u r
      → IsCharged task_id n (is_answered r && c.task_id == task_id) (asked r) m u
  unfolding count_calls
  IsRound-IsCharged task_id n c m u r e (unrecorded a b) = rw (a, b) (refl, inl (refl, refl))
  IsRound-IsCharged task_id n c m u r e (recorded row t a o l g b) =
      let q =
        ap (count (λ y. y.task_id == task_id)) b
        ∙ count-append (λ y. y.task_id == task_id) m.usage row in
      elim (Bool-cases (c.task_id == task_id)) [
        | inl h ↦
            let t2 : (row.task_id == task_id) ≡ true = ap (λ k. k == task_id) t ∙ h in
            let w = below m.config.per_task_max_llm_calls n (count_calls c.task_id m) e l in
            rw (a, h)
              (
                g,
                inr (
                  refl,
                  o,
                  q ∙ rw t2 refl,
                  subst (λ k. count_calls k m < n) ((eq_iff c.task_id task_id).0 h) w,
                ),
              )
        | inr h ↦
            let t2 : (row.task_id == task_id) ≡ false = ap (λ k. k == task_id) t ∙ h in
            rw (a, h) (g, inl (refl, q ∙ rw t2 (omega arith)))
      ]

  -- Where the limit of calls is n: over any sequence of calls, one after the other, verified or not, by
  -- any providers, each answered call of a task is counted for it, and at most as many are answered
  -- as the limit leaves. An answered call asks its provider once or, where the answer is repaired,
  -- twice, so the answered calls of the task ask providers at most twice as often as the limit leaves.
  pub answered_calls-le :
      (task_id : String) (n : ℕ) (rs : List Round) (m : TokenBudgetManager)
      → m.config.per_task_max_llm_calls ≡ some n
      → (count_calls task_id (run_rounds rs m)
          ≡ count_calls task_id m + answered_calls task_id rs m)
        × (answered_calls task_id rs m ≤ n - count_calls task_id m)
        × (answered_calls task_id rs m ≤ requests task_id rs m)
        × (requests task_id rs m ≤ answered_calls task_id rs m * 2)
  unfolding run_rounds answered_calls requests
  answered_calls-le task_id n [] m e = (omega arith, omega arith, omega arith, omega arith)
  answered_calls-le task_id n (r ∷ rs) m e =
      let i = complete-IsRound x r.now r.subscription r.structure r.replies r.call m in
      let o = complete_with_provider x r.now r.subscription r.structure r.replies r.call m in
      let (g, c) = IsRound-IsCharged task_id n r.call m o.1 o.0 e i in
      let (p, q, s, t) =
        answered_calls-le task_id n rs o.1 (ap (λ k. k.per_task_max_llm_calls) g ∙ e) in
      elim c [
        | inl (h, k) ↦ rw h (omega (arith, p, k), omega (arith, q, k), s, t)
        | inr (h, a, k, l) ↦ rw h (
          omega (arith, p, k),
          omega (arith, q, k, l),
          omega (arith, s, a.0),
          omega (arith, t, a.1),
        )
      ]
