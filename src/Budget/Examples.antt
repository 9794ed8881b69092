-- ===== src/Budget/Examples.antt =====
-- Calls of models on concrete data, and the theorems at inputs that meet their hypotheses.
use omni_desk_ai.Shared.{
  ◌+◌, ◌-◌, ◌*◌, ◌==◌, ◌≤◌, ◌<◌, ◌≡◌, ◌⊎◌, refl, String, true, false, none, some, List, [], ◌∷◌,
  arith,
}
use omni_desk_ai.Shared.Table.{find, delete, count}
use omni_desk_ai.Budget.Trim.{trim, size, estimate_tokens, count_wide}
use omni_desk_ai.Budget.Defs.{
  Texts, TokenBudgetConfig, TokenBudgetManager, count_calls, decide, get_cached, put_cached,
  record_call, usage_row, record_answer, make_cache_key, complete_with_provider, not_answered,
  Structure, repair_structured_output, ask_provider,
}
use omni_desk_ai.Budget.Trimmed.{trim_limit, trim_note, IsShortened, trim-IsShortened}
use omni_desk_ai.Budget.Calls.{Round, run_rounds, answered_calls, requests, answered_calls-le}

-- stand-ins for unicodedata, hashlib and json
abbrev texts : Texts
texts = record { wide = λ c. false; sha256 = λ s. s; key_json = λ m s u. u }

abbrev config : TokenBudgetConfig
config = record {
  max_input_chars = 12;
  max_output_tokens = 10;
  cache_ttl_seconds = 100;
  enable_cache = true;
  require_approval_above_estimated_tokens = 1000;
  per_task_max_llm_calls = some 2;
}

abbrev manager : TokenBudgetManager
manager = record { config = config; cache = []; usage = [] }

abbrev plain : Structure
plain = record { json_mode = false; max_repairs = 1; is_valid = λ s. true }

abbrev round : String → Round
round text = record {
  now = 5;
  subscription = false;
  structure = plain;
  replies = record { first = some "yes"; repaired = none };
  call = record {
    model = "m";
    system = "s";
    user = text;
    task_id = "t";
    expected_output_tokens = none;
    verified_required = true;
  };
}

-- the third new call is blocked; a repeated one is answered from the cache
abbrev rounds : List Round
rounds = round "a" ∷ round "a" ∷ round "b" ∷ round "c" ∷ []

answers_two : answered_calls texts "t" rounds manager ≡ 2
unfolding answered_calls complete_with_provider decide get_cached ask_provider
    repair_structured_output record_answer put_cached record_call usage_row count_calls count find
    delete trim size estimate_tokens count_wide make_cache_key
answers_two = refl

-- a call whose first answer is no JSON, and is repaired
abbrev repaired_round : Round
repaired_round = record (round "a") {
  structure = record { json_mode = true; max_repairs = 1; is_valid = λ s. s == "{}" };
  replies = record { first = some "not json"; repaired = some "{}" };
}

-- Two completions of the provider are one recorded call.
asks_twice :
    (requests texts "t" (repaired_round ∷ []) manager ≡ 2)
    × (answered_calls texts "t" (repaired_round ∷ []) manager ≡ 1)
unfolding requests answered_calls complete_with_provider decide get_cached ask_provider
    repair_structured_output record_answer put_cached record_call usage_row count_calls count find
    delete trim size estimate_tokens count_wide make_cache_key
asks_twice = (refl, refl)

abbrev all_rounds : List Round
all_rounds = repaired_round ∷ rounds

answered_calls-le_example :
    (count_calls "t" (run_rounds texts all_rounds manager)
      ≡ count_calls "t" manager + answered_calls texts "t" all_rounds manager)
    × (answered_calls texts "t" all_rounds manager ≤ 2 - count_calls "t" manager)
    × (answered_calls texts "t" all_rounds manager ≤ requests texts "t" all_rounds manager)
    × (requests texts "t" all_rounds manager ≤ answered_calls texts "t" all_rounds manager * 2)
answered_calls-le_example = answered_calls-le texts "t" 2 all_rounds manager refl

-- A call whose provider raises leaves no trace, so that the limit does not stop a loop of them.
failures_uncounted :
    complete_with_provider texts 5 false plain
      (record { first = none; repaired = none })
      (round "a").call
      manager
    ≡ (not_answered 1, manager)
unfolding complete_with_provider decide get_cached ask_provider count_calls count find trim size
    estimate_tokens count_wide make_cache_key
failures_uncounted = refl

trim-IsShortened_example :
    ((size "abcdef" ≤ trim_limit 4 false) × (trim "abcdef" 4 false ≡ "abcdef"))
    ⊎ ((trim_limit 4 false < size "abcdef")
        × IsShortened (trim_limit 4 false) (trim_note false) "abcdef" (trim "abcdef" 4 false))
trim-IsShortened_example = trim-IsShortened "abcdef" 4 false (omega arith)
