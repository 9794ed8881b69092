-- ===== src/Idempotency/History.antt =====
-- Sequences of calls on an idempotency store, by any number of requests and workers.
use omni_desk_ai.Shared.{
  ℕ, ◌≡◌, String, Option, none, some, List, [], ◌∷◌, arith, Option-cases, Result-cases, ok, inl,
  inr,
}
use omni_desk_ai.Shared.Table.{
  find, delete, IsUnique, IsUnique-update, IsUnique-delete, IsUnique-append,
}
use omni_desk_ai.Idempotency.Defs.{
  Request, IdempotencyStore, Hashing, Response, entry_scope, has_expired, reply_of, new_entry,
  begin_scope, complete_scope, fail_scope, is_failing, scope_key_of, begin, complete, fail, stats,
}

pub data IdempotencyCall : Type 0 where
  begin_call : ℕ → Request → String → IdempotencyCall
  complete_call : ℕ → Request → Response → IdempotencyCall
  fail_call : Request → IdempotencyCall
  stats_call : ℕ → IdempotencyCall

module _ (h : Hashing) where
  -- the request that the call lets go on, and the store after it
  unfoldable pub step : IdempotencyCall → IdempotencyStore → Option String × IdempotencyStore
  unfolding begin complete fail
  step (begin_call now r payload) s =
      let (reply, s') = begin h now r payload s in
      (elim reply [ ok none ↦ some (scope_key_of h r) | _ ↦ none ], s')
  step (complete_call now r response) s = (none, complete h now r response s)
  step (fail_call r) s = (none, fail h r s)
  step (stats_call now) s = (none, (stats now s).1)

  unfoldable pub replay : List IdempotencyCall → IdempotencyStore → IdempotencyStore
  replay [] s = s
  replay (c ∷ cs) s = replay cs (step c s).1

  -- the requests that a sequence of calls lets go on
  unfoldable pub grants : List IdempotencyCall → IdempotencyStore → List (Option String)
  grants [] s = []
  grants (c ∷ cs) s = let (o, s') = step c s in let rest = grants cs s' in o ∷ rest

-- The methods keep the time to live and the PRIMARY KEY.
pub record IsTable (ttl : ℕ) (s : IdempotencyStore) : Type 0 where
  pub lifetime : s.ttl_seconds ≡ ttl
  pub unique : IsUnique entry_scope s.entries

pub begin_scope-IsTable :
    (now : ℕ) (scope : String) (r : Request) (hash : String) {ttl : ℕ} (s : IdempotencyStore)
    → IsTable ttl s
    → IsTable ttl (begin_scope now scope r hash s).1
unfolding begin_scope new_entry
begin_scope-IsTable now scope r hash s v =
    let t = delete (has_expired now) s.entries in
    let u = IsUnique-delete entry_scope (has_expired now) s.entries v.unique in
    elim (Option-cases (find entry_scope scope t)) [
      | inl e ↦
          rw (e, begin_scope)
            (record {
              lifetime = v.lifetime;
              unique = IsUnique-append entry_scope t (new_entry now scope r hash s.ttl_seconds) u e;
            })
      | inr (x, e) ↦ elim (Result-cases (reply_of hash x)) [
        | inl (y, k) ↦ rw (e, k, begin_scope) (record { lifetime = v.lifetime; unique = u })
        | inr (y, k) ↦ rw (e, k, begin_scope) v
      ]
    ]

pub step-IsTable :
    (h : Hashing) (c : IdempotencyCall) {ttl : ℕ} (s : IdempotencyStore)
    → IsTable ttl s
    → IsTable ttl (step h c s).1
unfolding step complete_scope fail_scope stats
step-IsTable h (begin_call now r payload) s v =
    begin_scope-IsTable now (scope_key_of h r) r (h.of_payload payload) s v
step-IsTable h (complete_call now r response) s v = record {
  lifetime = v.lifetime;
  unique =
      IsUnique-update entry_scope entry_scope (scope_key_of h r) _ s.entries (λ e. ground arith)
        v.unique;
}
step-IsTable h (fail_call r) s v = record {
  lifetime = v.lifetime;
  unique = IsUnique-delete entry_scope (is_failing (scope_key_of h r)) s.entries v.unique;
}
step-IsTable h (stats_call now) s v = record {
  lifetime = v.lifetime;
  unique = IsUnique-delete entry_scope (has_expired now) s.entries v.unique;
}
