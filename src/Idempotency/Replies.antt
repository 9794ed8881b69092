-- ===== src/Idempotency/Replies.antt =====
-- A request that is repeated after its completion is answered from the recorded response.
use omni_desk_ai.Shared.{
  ℕ, ◌≡◌, ◌≢◌, ◌≤◌, ◌<◌, ◌+◌, refl, ◌∙◌, String, Option, some, List, [], ◌∷◌, ◌==◌, arith, eq_iff,
  Result, ok, err, All, if◌then◌else◌,
}
use omni_desk_ai.Shared.Table.{find, IsUnique, find-delete, find-update, find-update_found}
use omni_desk_ai.Idempotency.Defs.{
  Request, Entry, IdempotencyStore, Hashing, BeginError, conflict, Response, running, entry_scope,
  recorded, reply_of, complete_entry, if_running, complete_scope, fail_scope, is_failing,
  scope_key_of, normalize_idempotency_response, begin, complete, fail, stats,
}
use omni_desk_ai.Idempotency.History.{
  IdempotencyCall, begin_call, complete_call, fail_call, stats_call, step, replay, IsTable,
  step-IsTable,
}
use omni_desk_ai.Idempotency.Rows.{find-expire, find-begin_scope, begin_scope_refused}

-- A call that removes expired rows is made before `hi`.
abbrev pub IsBefore : ℕ → IdempotencyCall → Type 0
IsBefore hi (begin_call now r payload) = now < hi
IsBefore hi (complete_call now r response) = Unit
IsBefore hi (fail_call r) = Unit
IsBefore hi (stats_call now) = now < hi

-- the row of a completed request, until `hi`
record IsRecorded (scope hash text : String) (hi : ℕ) (s : IdempotencyStore) : Type 0 where
  pub entry : Entry
  pub found : find entry_scope scope s.entries ≡ some entry
  pub hashed : entry.payload_hash ≡ hash
  pub done : recorded entry ≡ some text
  pub lasting : hi ≤ entry.expires_at

find-complete_recorded :
    (now : ℕ) (sc text' scope : String) (s : IdempotencyStore) {e : Entry} {text : String}
    → find entry_scope scope s.entries ≡ some e
    → recorded e ≡ some text
    → find entry_scope scope (complete_scope now sc text' s).entries ≡ some e
unfolding complete_scope
find-complete_recorded now sc text' scope s {e} {text} f d = ground (
  arith,
  f,
  d,
  find-update entry_scope sc scope (if_running (complete_entry now s.ttl_seconds text')) s.entries
      (λ e. ground arith),
)

find-fail_recorded :
    (sc scope : String) (s : IdempotencyStore) {e : Entry} {text : String}
    → IsUnique entry_scope s.entries
    → find entry_scope scope s.entries ≡ some e
    → recorded e ≡ some text
    → find entry_scope scope (fail_scope sc s).entries ≡ some e
unfolding fail_scope
find-fail_recorded sc scope s {e} {text} u f d =
    ground (arith, find-delete entry_scope (is_failing sc) scope s.entries u, f, d)

step-IsRecorded :
    (h : Hashing) (c : IdempotencyCall) (scope hash text : String) (ttl hi : ℕ)
    (s : IdempotencyStore)
    → IsTable ttl s
    → IsBefore hi c
    → IsRecorded scope hash text hi s
    → IsRecorded scope hash text hi (step h c s).1
unfolding step begin complete fail stats
step-IsRecorded h (begin_call now r payload) scope hash text ttl hi s v b k = record {
  entry = k.entry;
  found =
      find-begin_scope now (scope_key_of h r) r (h.of_payload payload) scope s v.unique k.found
        (omega (arith, b, k.lasting));
  hashed = k.hashed;
  done = k.done;
  lasting = k.lasting;
}
step-IsRecorded h (complete_call now r response) scope hash text ttl hi s v b k = record {
  entry = k.entry;
  found = find-complete_recorded now (scope_key_of h r) _ scope s k.found k.done;
  hashed = k.hashed;
  done = k.done;
  lasting = k.lasting;
}
step-IsRecorded h (fail_call r) scope hash text ttl hi s v b k = record {
  entry = k.entry;
  found = find-fail_recorded (scope_key_of h r) scope s v.unique k.found k.done;
  hashed = k.hashed;
  done = k.done;
  lasting = k.lasting;
}
step-IsRecorded h (stats_call now) scope hash text ttl hi s v b k = record {
  entry = k.entry;
  found = find-expire now scope s.entries v.unique k.found (omega (arith, b, k.lasting));
  hashed = k.hashed;
  done = k.done;
  lasting = k.lasting;
}

-- what a recorded request answers
abbrev pub answer : String → String → String → Result BeginError (Option String)
answer hash hash' text = if hash == hash' then ok (some text) else err conflict

recorded_answer :
    (h : Hashing) (cs : List IdempotencyCall) (now : ℕ) (r : Request) (hash payload text : String)
    (ttl hi : ℕ) (s : IdempotencyStore)
    → IsTable ttl s
    → All (IsBefore hi) cs
    → now < hi
    → IsRecorded (scope_key_of h r) hash text hi s
    → (begin h now r payload (replay h cs s)).0 ≡ answer hash (h.of_payload payload) text
unfolding replay begin reply_of
recorded_answer h [] now r hash payload text ttl hi s v a l k =
    let f =
      begin_scope_refused now r (h.of_payload payload) (scope_key_of h r) s v.unique k.found
        (omega (arith, l, k.lasting)) in
    f ∙ ground (arith, k.hashed, k.done)
recorded_answer h (c ∷ cs) now r hash payload text ttl hi s v a l k =
    recorded_answer h cs now r hash payload text ttl hi (step h c s).1 (step-IsTable h c s v) a.1 l
      (step-IsRecorded h c (scope_key_of h r) hash text ttl hi s v a.0 k)

complete-IsRecorded :
    (t : ℕ) (scope text : String) (s : IdempotencyStore) (e : Entry)
    → find entry_scope scope s.entries ≡ some e
    → e.status ≡ running
    → text ≢ ""
    → IsRecorded scope e.payload_hash text (t + s.ttl_seconds) (complete_scope t scope text s)
unfolding complete_scope
complete-IsRecorded t scope text s e f run n = record {
  entry = complete_entry t s.ttl_seconds text e;
  found =
      find-update_found entry_scope scope (if_running (complete_entry t s.ttl_seconds text))
        s.entries (λ e. ground arith) f
      ∙ rw run refl;
  hashed = refl;
  done = ground (arith, eq_iff text "");
  lasting = omega arith;
}

-- After a running request is completed at `t`, every later begin of that request before its new
-- expiry, whatever calls come between, late failures and completions included, gets the normalized
-- response that was recorded if the digest of its payload is the first one, and a conflict
-- otherwise. The response's JSON text is not empty.
pub complete-begin :
    (h : Hashing) (cs : List IdempotencyCall) (t now : ℕ) (r : Request) (response : Response)
    (payload : String) (s : IdempotencyStore) (e : Entry)
    → IsUnique entry_scope s.entries
    → find entry_scope (scope_key_of h r) s.entries ≡ some e
    → e.status ≡ running
    → normalize_idempotency_response response ≢ ""
    → All (IsBefore (t + s.ttl_seconds)) cs
    → now < t + s.ttl_seconds
    → (begin h now r payload (replay h cs (complete h t r response s))).0
      ≡ answer e.payload_hash (h.of_payload payload) (normalize_idempotency_response response)
unfolding complete step
complete-begin h cs t now r response payload s e u f run n a l =
    let text = normalize_idempotency_response response in
    recorded_answer h cs now r e.payload_hash payload text s.ttl_seconds (t + s.ttl_seconds)
      (complete h t r response s)
      (step-IsTable h (complete_call t r response) s (record { lifetime = refl; unique = u })) a l
      (complete-IsRecorded t (scope_key_of h r) text s e f run n)
