-- ===== src/Idempotency/Once.antt =====
-- A request that was let go on is not let go on a second time before it fails or expires.
use omni_desk_ai.Shared.{
  ℕ, ◌≡◌, ◌≢◌, ◌≤◌, ◌<◌, ◌+◌, refl, sym, ◌∙◌, Result, String, Option, none, some, List, [], ◌∷◌,
  arith, ap, eq_refl, Option-cases, ok, err, inl, inr, All,
}
use omni_desk_ai.Shared.Table.{find, delete, IsUnique, find-append}
use omni_desk_ai.Idempotency.Defs.{
  Request, Entry, IdempotencyStore, Hashing, BeginError, entry_scope, has_expired, new_entry,
  begin_scope, scope_key_of, normalize_idempotency_response, begin, complete, fail, stats,
}
use omni_desk_ai.Idempotency.History.{
  IdempotencyCall, begin_call, complete_call, fail_call, stats_call, step, grants, IsTable,
  step-IsTable, begin_scope-IsTable,
}
use omni_desk_ai.Idempotency.Rows.{
  find-expire, find-begin_scope, begin_scope_refused, reply_of_refuses, find-complete_scope,
  find-fail_scope,
}

-- The call is made from `lo` on and before `hi`, and is no failure of the scope.
abbrev pub IsDuring : Hashing → ℕ → ℕ → String → IdempotencyCall → Type 0
IsDuring h lo hi scope (begin_call now r payload) = (lo ≤ now) × (now < hi)
IsDuring h lo hi scope (complete_call now r response) = (lo ≤ now) × (now < hi)
IsDuring h lo hi scope (fail_call r) = scope_key_of h r ≢ scope
IsDuring h lo hi scope (stats_call now) = (lo ≤ now) × (now < hi)

-- a row under the scope that lasts until `hi`
pub record IsHeld (scope : String) (hi : ℕ) (s : IdempotencyStore) : Type 0 where
  pub entry : Entry
  pub found : find entry_scope scope s.entries ≡ some entry
  pub lasting : hi ≤ entry.expires_at

step-IsHeld :
    (h : Hashing) (c : IdempotencyCall) (scope : String) (ttl lo hi : ℕ) (s : IdempotencyStore)
    → IsTable ttl s
    → hi ≤ lo + ttl
    → IsDuring h lo hi scope c
    → IsHeld scope hi s
    → IsHeld scope hi (step h c s).1
unfolding step begin complete fail stats
step-IsHeld h (begin_call now r payload) scope ttl lo hi s v b d k = record {
  entry = k.entry;
  found =
      find-begin_scope now (scope_key_of h r) r (h.of_payload payload) scope s v.unique k.found
        (omega (arith, d.1, k.lasting));
  lasting = k.lasting;
}
step-IsHeld h (complete_call now r response) scope ttl lo hi s v b d k =
    elim (find-complete_scope now (scope_key_of h r) (normalize_idempotency_response response) scope
      s k.found) [
        | inl e ↦ record { entry = k.entry; found = e; lasting = k.lasting }
        | inr e ↦ record { entry = _; found = e; lasting = ground (arith, v.lifetime, d.0, b) }
      ]
step-IsHeld h (fail_call r) scope ttl lo hi s v b d k = record {
  entry = k.entry;
  found = find-fail_scope (scope_key_of h r) scope s v.unique k.found d;
  lasting = k.lasting;
}
step-IsHeld h (stats_call now) scope ttl lo hi s v b d k = record {
  entry = k.entry;
  found = find-expire now scope s.entries v.unique k.found (omega (arith, d.1, k.lasting));
  lasting = k.lasting;
}

granted :
    (o : Result BeginError (Option String)) (k scope : String)
    → (elim o as (λ _. Option String) [ ok none ↦ some k | _ ↦ none ]) ≡ some scope
    → (o ≡ ok none) × (k ≡ scope)
granted (ok none) k scope e = (refl, ground arith)
granted (ok (some t)) k scope e = ground arith
granted (err x) k scope e = ground arith

begin_scope_grants_other :
    (now : ℕ) (sc : String) (r : Request) (hash scope : String) (hi : ℕ) (s : IdempotencyStore)
    → IsUnique entry_scope s.entries
    → IsHeld scope hi s
    → now < hi
    → (begin_scope now sc r hash s).0 ≡ ok none
    → sc ≢ scope
begin_scope_grants_other now sc r hash scope hi s u k l g same =
    let f = ap (λ x. find entry_scope x s.entries) same ∙ k.found in
    reply_of_refuses hash k.entry
      (sym (begin_scope_refused now r hash sc s u f (omega (arith, l, k.lasting))) ∙ g)

step_grants_other :
    (h : Hashing) (c : IdempotencyCall) (scope : String) (ttl lo hi : ℕ) (s : IdempotencyStore)
    → IsTable ttl s
    → IsDuring h lo hi scope c
    → IsHeld scope hi s
    → (step h c s).0 ≢ some scope
unfolding step begin
step_grants_other h (begin_call now r payload) scope ttl lo hi s v d k g =
    let (o, same) =
      granted (begin_scope now (scope_key_of h r) r (h.of_payload payload) s).0 (scope_key_of h r)
        scope g in
    begin_scope_grants_other now (scope_key_of h r) r (h.of_payload payload) scope hi s v.unique k
      d.1 o same
step_grants_other h (complete_call now r response) scope ttl lo hi s v d k g = ground arith
step_grants_other h (fail_call r) scope ttl lo hi s v d k g = ground arith
step_grants_other h (stats_call now) scope ttl lo hi s v d k g = ground arith

held_grants_other :
    (h : Hashing) (cs : List IdempotencyCall) (scope : String) (ttl lo hi : ℕ)
    (s : IdempotencyStore)
    → IsTable ttl s
    → hi ≤ lo + ttl
    → All (IsDuring h lo hi scope) cs
    → IsHeld scope hi s
    → All (λ o. o ≢ some scope) (grants h cs s)
unfolding grants
held_grants_other h [] scope ttl lo hi s v b d k = tt
held_grants_other h (c ∷ cs) scope ttl lo hi s v b d k = (
  step_grants_other h c scope ttl lo hi s v d.0 k,
  held_grants_other h cs scope ttl lo hi (step h c s).1 (step-IsTable h c s v) b d.1
      (step-IsHeld h c scope ttl lo hi s v b d.0 k),
)

-- A request that `begin` lets go on holds its scope.
begin_scope-IsHeld :
    (now : ℕ) (scope : String) (r : Request) (hash : String) (s : IdempotencyStore)
    → (begin_scope now scope r hash s).0 ≡ ok none
    → IsHeld scope (now + s.ttl_seconds) (begin_scope now scope r hash s).1
unfolding begin_scope new_entry
begin_scope-IsHeld now scope r hash s g =
    let t = delete (has_expired now) s.entries in
    let e = new_entry now scope r hash s.ttl_seconds in
    elim (Option-cases (find entry_scope scope t)) [
      | inl n ↦
          rw (n, begin_scope)
            (record {
              entry = e;
              found = find-append entry_scope scope t e ∙ rw (n, eq_refl scope) refl;
              lasting = omega arith;
            })
      | inr (x, n) ↦ absurd (reply_of_refuses hash x (ground arith))
    ]

-- Mutual exclusion of a request: once `begin` has let it go on at `now`, no other begin with the same
-- scope (route, actor, resource and key) is let go on by any calls made from then until the time to
-- live is over, whatever their payload, as long as the request is not failed.
pub begin_exclusive :
    (h : Hashing) (cs : List IdempotencyCall) (now : ℕ) (r : Request) (payload : String)
    (s : IdempotencyStore)
    → IsUnique entry_scope s.entries
    → (begin h now r payload s).0 ≡ ok none
    → All (IsDuring h now (now + s.ttl_seconds) (scope_key_of h r)) cs
    → All (λ o. o ≢ some (scope_key_of h r)) (grants h cs (begin h now r payload s).1)
unfolding begin
begin_exclusive h cs now r payload s u g d =
    let scope = scope_key_of h r in
    let s' = (begin_scope now scope r (h.of_payload payload) s).1 in
    held_grants_other h cs scope s.ttl_seconds now (now + s.ttl_seconds) s'
      (begin_scope-IsTable now scope r (h.of_payload payload) s
        (record { lifetime = refl; unique = u }))
      (omega arith) d (begin_scope-IsHeld now scope r (h.of_payload payload) s g)
