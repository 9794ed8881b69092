-- ===== src/Idempotency/Examples.antt =====
-- Runs of the idempotency stores on concrete requests.
use omni_desk_ai.Shared.{
  ◌≡◌, ◌≢◌, refl, String, true, none, some, List, [], ◌∷◌, arith, eq_iff, ok, All, ◌+◌,
}
use omni_desk_ai.Shared.Table.{find, delete}
use omni_desk_ai.Shared.Text.{◌+++◌}
use omni_desk_ai.Idempotency.{
  Request, side_effect, agent_run, Entry, Hashing, IdempotencyStore, object, value, running,
  new_store, begin, complete, scope_key_of, begin_json, normalize_idempotency_response,
}
use omni_desk_ai.Idempotency.Backends.{begin_json-begin}
use omni_desk_ai.Idempotency.History.{
  IdempotencyCall, begin_call, complete_call, fail_call, stats_call, grants, replay,
}
use omni_desk_ai.Idempotency.Once.{IsDuring, begin_exclusive}
use omni_desk_ai.Idempotency.Replies.{complete-begin}

-- digests that keep the whole text
joined : List (String × String) → String
joined [] = ""
joined ((k, v) ∷ rest) = let t = joined rest in k +++ v +++ t

abbrev hashing : Hashing
hashing = record { of_fields = joined; of_payload = λ p. p }

abbrev send : Request
send = side_effect "/send" "ada" "k1" none

abbrev ask : Request
ask = agent_run "ada" "k1" (some "phone")

abbrev store : IdempotencyStore
store = new_store 60

grants_once : (begin hashing 100 send "p" store).0 ≡ ok none
unfolding begin new_store find delete
grants_once = refl

abbrev others : List IdempotencyCall
others =
    begin_call 110 send "p"
    ∷ begin_call 110 ask "p"
    ∷ fail_call ask
    ∷ complete_call 120 send (object "{}")
    ∷ stats_call 130
    ∷ begin_call 159 send "q"
    ∷ []

others-IsDuring :
    All (IsDuring hashing 100 (100 + store.ttl_seconds) (scope_key_of hashing send)) others
unfolding new_store joined scope_key_of
others-IsDuring = (
  (omega arith, omega arith),
  (
    (omega arith, omega arith),
    (
      ground (arith, eq_iff (scope_key_of hashing ask) (scope_key_of hashing send)),
      ((omega arith, omega arith), ((omega arith, omega arith), ((omega arith, omega arith), tt))),
    ),
  ),
)

begin_exclusive_example :
    All
      (λ o. o ≢ some (scope_key_of hashing send))
      (grants hashing others (begin hashing 100 send "p" store).1)
begin_exclusive_example =
    begin_exclusive hashing others 100 send "p" store (unfold new_store in tt) grants_once
      others-IsDuring

abbrev entry : Entry
entry = record {
  scope_key = "route/sendactoradaresource_idkeyk1";
  request = send;
  payload_hash = "p";
  status = running;
  response_json = none;
  created_at = 100;
  updated_at = 100;
  expires_at = 160;
}

abbrev started : IdempotencyStore
started = record { ttl_seconds = 60; entries = entry ∷ [] }

begin_json-begin_example :
    (begin_json hashing (λ _. true) 110 send "q" started).0 ≡ (begin hashing 110 send "q" started).0
begin_json-begin_example =
    begin_json-begin hashing (λ _. true) 110 send "q" started (unfold find in (refl, tt))

abbrev late : List IdempotencyCall
late = fail_call send ∷ complete_call 130 send (value "3") ∷ begin_call 140 send "q" ∷ []

complete-begin_example :
    (begin hashing 150 send "p"
      (replay hashing late (complete hashing 120 send (object "{}") started))).0
    ≡ ok (some "{}")
unfolding joined scope_key_of normalize_idempotency_response find
complete-begin_example =
    complete-begin hashing late 120 150 send (object "{}") "p" started entry (refl, tt) refl refl
      (ground (arith, eq_iff "{}" "")) (tt, (tt, (omega arith, tt))) (omega arith)
