-- ===== src/Budget/Defs.antt =====
-- `TokenBudgetManager` over SQLite, and the use that models/router.py makes of it. The fields of
-- `Texts` are the width of a character, sha256 and the JSON of the key of the cache.
use omni_desk_ai.Shared.{
  ℕ, zero, suc, ◌+◌, ◌/◌, String, Bool, true, false, not, ◌&&◌, Option, none, some, List, [], ◌∷◌,
  ◌++◌, ◌==◌, ltb, leb, if◌then◌else◌,
}
use Prim.Native.Char.{Char}
use omni_desk_ai.Shared.Text.{◌+++◌}
use omni_desk_ai.Shared.Table.{find, delete, count}
use omni_desk_ai.Budget.Trim.{estimate_tokens, trim}

pub record Texts : Type 0 where
  pub wide : Char → Bool
  pub sha256 : String → String
  pub key_json : String → String → String → String

pub record TokenBudgetConfig : Type 0 where
  pub max_input_chars : ℕ
  pub max_output_tokens : ℕ
  pub cache_ttl_seconds : ℕ
  pub enable_cache : Bool
  pub require_approval_above_estimated_tokens : ℕ
  pub per_task_max_llm_calls : Option ℕ

pub data Reason : Type 0 where
  call_limit_exceeded : Reason
  above_threshold : Reason
  budget_threshold_overridden : Reason
  within_guardrail : Reason

pub record TokenDecision : Type 0 where
  pub allowed : Bool
  pub reason : Reason
  pub estimated_input_tokens : ℕ
  pub estimated_output_tokens : ℕ
  pub cache_key : String
  pub truncated_system : String
  pub truncated_user : String
  pub budget_overridden : Bool
  pub verified_required : Bool

-- a row of llm_cache
pub record CacheRow : Type 0 where
  pub cache_key : String
  pub model : String
  pub response : String
  pub created_at : ℕ

-- a row of llm_usage
pub record UsageRow : Type 0 where
  pub task_id : String
  pub model : String
  pub estimated_input_tokens : ℕ
  pub estimated_output_tokens : ℕ
  pub verified_required : Bool
  pub budget_overridden : Bool
  pub reason : Reason
  pub created_at : ℕ

pub record TokenBudgetManager : Type 0 where
  pub config : TokenBudgetConfig
  pub cache : List CacheRow
  pub usage : List UsageRow

-- the arguments of `decide`
pub record ModelCall : Type 0 where
  pub model : String
  pub system : String
  pub user : String
  pub task_id : String
  pub expected_output_tokens : Option ℕ
  pub verified_required : Bool

abbrev pub cache_row_key : CacheRow → String
cache_row_key r = r.cache_key

unfoldable pub make_cache_key : Texts → String → String → String → String
make_cache_key x model system user = x.sha256 (x.key_json model (x.sha256 system) (x.sha256 user))

unfoldable pub count_calls : String → TokenBudgetManager → ℕ
count_calls task_id m = count (λ r. r.task_id == task_id) m.usage

-- `expected_output_tokens or cfg.max_output_tokens`
abbrev pub output_tokens : TokenBudgetConfig → Option ℕ → ℕ
output_tokens cfg none = cfg.max_output_tokens
output_tokens cfg (some zero) = cfg.max_output_tokens
output_tokens cfg (some (suc n)) = suc n

-- used_calls >= per_task_max_llm_calls
abbrev pub at_limit : Option ℕ → ℕ → Bool
at_limit none used = false
at_limit (some n) used = leb n used

unfoldable pub decide : Texts → ModelCall → TokenBudgetManager → TokenDecision
unfolding estimate_tokens trim make_cache_key count_calls
decide x c m =
    let cfg = m.config in
    let output = output_tokens cfg c.expected_output_tokens in
    let system = trim c.system (cfg.max_input_chars / 3) c.verified_required in
    let user = trim c.user cfg.max_input_chars c.verified_required in
    let input = estimate_tokens x.wide (system +++ user) in
    let above = ltb cfg.require_approval_above_estimated_tokens (input + output) in
    let answer : Bool → Reason → Bool → Bool → TokenDecision = λ allowed reason overridden verified.
      record {
        allowed = allowed;
        reason = reason;
        estimated_input_tokens = input;
        estimated_output_tokens = output;
        cache_key = make_cache_key x c.model system user;
        truncated_system = system;
        truncated_user = user;
        budget_overridden = overridden;
        verified_required = verified;
      } in
    if at_limit cfg.per_task_max_llm_calls (count_calls c.task_id m)
    then answer false call_limit_exceeded false c.verified_required
    else if above && not c.verified_required
    then answer false above_threshold false false
    else if above && c.verified_required
    then answer true budget_threshold_overridden true c.verified_required
    else answer true within_guardrail false c.verified_required

-- An entry counts as fresh at the end of its time.
unfoldable pub get_cached : ℕ → String → TokenBudgetManager → Option String
get_cached now key m =
    if not m.config.enable_cache then none else elim (find cache_row_key key m.cache) [
      | none ↦ none
      | some r ↦
          if ltb (r.created_at + m.config.cache_ttl_seconds) now then none else some r.response
    ]

-- INSERT OR REPLACE deletes the row of the key first
unfoldable pub put_cached : ℕ → String → String → String → TokenBudgetManager → TokenBudgetManager
put_cached now key model response m =
    let r : CacheRow = record {
      cache_key = key;
      model = model;
      response = response;
      created_at = now;
    } in
    if not m.config.enable_cache
    then m
    else record m { cache = delete (λ x. x.cache_key == key) m.cache ++ r ∷ [] }

unfoldable pub record_call : UsageRow → TokenBudgetManager → TokenBudgetManager
record_call r m = record m { usage = m.usage ++ r ∷ [] }

pub data Completion : Type 0 where
  blocked : Reason → Completion  -- RuntimeError
  cached : String → Completion
  -- an exception of the provider or of the validation, and how often the provider was asked
  not_answered : ℕ → Completion
  answered : ℕ → String → Completion  -- how often the provider was asked, and the text

-- what a request says of the structure of its answer; `is_valid` is `validate_json_text` with the
-- schema, and a negative number of repairs counts as 0
pub record Structure : Type 0 where
  pub json_mode : Bool
  pub max_repairs : ℕ
  pub is_valid : String → Bool

-- the texts of the provider for the request and for its repair, none where it raises
pub record Replies : Type 0 where
  pub first : Option String
  pub repaired : Option String

-- `_repair_structured_output_if_needed`: how often the provider is asked again, and the text, none
-- if it raises
unfoldable pub repair_structured_output :
    Bool → Structure → Option String → String → ℕ × Option String
repair_structured_output subscription q repaired text =
    if not q.json_mode
    then (0, some text)
    else if q.is_valid text
    then (0, some text)
    else if subscription
    then (0, none)
    else if leb q.max_repairs 0
    then (0, none)
    else (1, elim repaired [ none ↦ none | some t ↦ if q.is_valid t then some t else none ])

-- the row of an answered call
unfoldable pub usage_row : Texts → ℕ → String → ModelCall → TokenDecision → UsageRow
unfolding estimate_tokens
usage_row x now text c d = record {
  task_id = c.task_id;
  model = c.model;
  estimated_input_tokens = d.estimated_input_tokens;
  estimated_output_tokens = estimate_tokens x.wide text;
  verified_required = c.verified_required;
  budget_overridden = d.budget_overridden;
  reason = d.reason;
  created_at = now;
}

-- the end of `_complete_with_provider`: the answer is recorded, and cached
unfoldable pub record_answer :
    Texts
    → ℕ
    → Bool
    → ℕ
    → String
    → ModelCall
    → TokenDecision
    → TokenBudgetManager
    → Completion × TokenBudgetManager
unfolding put_cached record_call usage_row
record_answer x now subscription asked text c d m =
    let m1 = record_call (usage_row x now text c d) m in
    (answered asked text, if subscription then m1 else put_cached now d.cache_key c.model text m1)

-- from the first `provider.complete` on
unfoldable pub ask_provider :
    Texts
    → ℕ
    → Bool
    → Structure
    → Replies
    → ModelCall
    → TokenDecision
    → TokenBudgetManager
    → Completion × TokenBudgetManager
unfolding repair_structured_output record_answer
ask_provider x now subscription q a c d m = elim a.first [
  | none ↦ (not_answered 1, m)
  | some text ↦
      let (again, result) = repair_structured_output subscription q a.repaired text in
      elim result [
        | none ↦ (not_answered (suc again), m)
        | some t ↦ record_answer x now subscription (suc again) t c d m
      ]
]

-- `_complete_with_provider`: the provider names the model that was asked for, and `subscription`
-- bypasses the cache. Metrics, circuits and the ledger of costs are left out.
unfoldable pub complete_with_provider :
    Texts
    → ℕ
    → Bool
    → Structure
    → Replies
    → ModelCall
    → TokenBudgetManager
    → Completion × TokenBudgetManager
unfolding decide get_cached ask_provider
complete_with_provider x now subscription q a c m =
    let d = decide x c m in
    if not d.allowed
    then (blocked d.reason, m)
    else elim (if subscription then none else get_cached now d.cache_key m) [
      | some text ↦ (cached text, m)
      | none ↦ ask_provider x now subscription q a c d m
    ]
