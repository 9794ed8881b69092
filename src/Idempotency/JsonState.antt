-- ===== src/Idempotency/JsonState.antt =====
-- omnidesk_agent/security/idempotency.py and agent_run_idempotency.py: the stores over a JSON state.
-- The state keeps the rows of one namespace under their scope key. `listed` says which rows the
-- listing of `_cleanup` reaches, since `list` cuts it off at a limit. Each call of the state is one
-- transaction of its own, and a method is taken as one step.
use omni_desk_ai.Shared.{
  ℕ, String, Bool, ◌&&◌, Option, none, some, List, [], ◌∷◌, ◌++◌, ◌==◌, if◌then◌else◌, Result, ok,
}
use omni_desk_ai.Shared.Table.{find, update, delete}
use omni_desk_ai.Idempotency.Defs.{
  Request, Entry, IdempotencyStore, Hashing, Response, BeginError, entry_scope, has_expired,
  new_entry, reply_of, complete_entry, scope_key_of, normalize_idempotency_response,
}

-- `_cleanup`
unfoldable pub cleanup : (Entry → Bool) → ℕ → List Entry → List Entry
cleanup listed now t = delete (λ e. listed e && has_expired now e) t

-- `put`: the row under the scope key is replaced
unfoldable pub put : Entry → List Entry → List Entry
put e t = update entry_scope e.scope_key (λ _. e) t

unfoldable pub begin_json_scope :
    (Entry → Bool)
    → ℕ
    → String
    → Request
    → String
    → IdempotencyStore
    → Result BeginError (Option String) × IdempotencyStore
unfolding cleanup new_entry put reply_of
begin_json_scope listed now scope request hash s =
    let t = cleanup listed now s.entries in
    let row = new_entry now scope request hash s.ttl_seconds in
    elim (find entry_scope scope t) [
      | none ↦ (ok none, record s { entries = t ++ row ∷ [] })
      | some e ↦
          if has_expired now e
          then (ok none, record s { entries = put row t })
          else (reply_of hash e, record s { entries = t })
    ]

-- `update_locked`, whose KeyError is caught; the status is not looked at
unfoldable pub complete_json_scope : ℕ → String → String → IdempotencyStore → IdempotencyStore
complete_json_scope now scope text s = record s {
  entries = update entry_scope scope (complete_entry now s.ttl_seconds text) s.entries;
}

-- The row is deleted under any status.
unfoldable pub fail_json_scope : String → IdempotencyStore → IdempotencyStore
fail_json_scope scope s = record s { entries = delete (λ e. e.scope_key == scope) s.entries }

module _ (h : Hashing) where
  unfoldable pub begin_json :
      (Entry → Bool)
      → ℕ
      → Request
      → String
      → IdempotencyStore
      → Result BeginError (Option String) × IdempotencyStore
  unfolding begin_json_scope scope_key_of
  begin_json listed now r payload s =
      begin_json_scope listed now (scope_key_of h r) r (h.of_payload payload) s

  unfoldable pub complete_json : ℕ → Request → Response → IdempotencyStore → IdempotencyStore
  unfolding complete_json_scope scope_key_of normalize_idempotency_response
  complete_json now r response s =
      complete_json_scope now (scope_key_of h r) (normalize_idempotency_response response) s

  unfoldable pub fail_json : Request → IdempotencyStore → IdempotencyStore
  unfolding fail_json_scope scope_key_of
  fail_json r s = fail_json_scope (scope_key_of h r) s
