-- ===== src/Idempotency/Backends.antt =====
-- The two backends of the idempotency stores answer alike.
use omni_desk_ai.Shared.{ℕ, ◌≡◌, sym, ◌∙◌, String, Bool, ◌&&◌, none, some, arith, ok}
use omni_desk_ai.Shared.Table.{find, IsUnique, unless, find-delete}
use omni_desk_ai.Idempotency.Defs.{
  Request, Entry, IdempotencyStore, Hashing, entry_scope, has_expired, reply_of, begin_scope,
  scope_key_of, begin,
}
use omni_desk_ai.Idempotency.JsonState.{cleanup, begin_json_scope, begin_json}

begin_scope-reply :
    (now : ℕ) (scope : String) (r : Request) (hash : String) (s : IdempotencyStore)
    → IsUnique entry_scope s.entries
    → (begin_scope now scope r hash s).0
      ≡ elim (unless (has_expired now) (find entry_scope scope s.entries)) [
        | none ↦ ok none
        | some e ↦ reply_of hash e
      ]
unfolding begin_scope
begin_scope-reply now scope r hash s u =
    ground (arith, find-delete entry_scope (has_expired now) scope s.entries u)

begin_json_scope-reply :
    (listed : Entry → Bool) (now : ℕ) (scope : String) (r : Request) (hash : String)
    (s : IdempotencyStore)
    → IsUnique entry_scope s.entries
    → (begin_json_scope listed now scope r hash s).0
      ≡ elim (unless (has_expired now) (find entry_scope scope s.entries)) [
        | none ↦ ok none
        | some e ↦ reply_of hash e
      ]
unfolding begin_json_scope cleanup
begin_json_scope-reply listed now scope r hash s u =
    ground (arith, find-delete entry_scope (λ e. listed e && has_expired now e) scope s.entries u)

-- On the same rows the JSON backend gives a request the same answer as the SQLite backend: leave to
-- go on, the recorded response, a conflict, or that it is in progress. This does not depend on how
-- many of the expired rows the clean-up reaches.
pub begin_json-begin :
    (h : Hashing) (listed : Entry → Bool) (now : ℕ) (r : Request) (payload : String)
    (s : IdempotencyStore)
    → IsUnique entry_scope s.entries
    → (begin_json h listed now r payload s).0 ≡ (begin h now r payload s).0
unfolding begin_json begin
begin_json-begin h listed now r payload s u =
    begin_json_scope-reply listed now (scope_key_of h r) r (h.of_payload payload) s u
    ∙ sym (begin_scope-reply now (scope_key_of h r) r (h.of_payload payload) s u)
