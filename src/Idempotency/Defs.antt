-- ===== src/Idempotency/Defs.antt =====
-- omnidesk_agent/security/idempotency.py and agent_run_idempotency.py: the SQLite stores.
-- A request is identified by the digest of its scope; the payload and the response are JSON texts.
use Prim.Native.Nat.{max}
use omni_desk_ai.Shared.{
  ℕ, ◌+◌, String, Bool, true, false, ◌&&◌, Option, none, some, List, [], ◌∷◌, ◌++◌, ◌==◌, leb,
  if◌then◌else◌, Result, ok, err,
}
use omni_desk_ai.Shared.Text.{◌+++◌, truthy, or_text}
use omni_desk_ai.Shared.Table.{find, update, delete, count}

-- the columns that only say what the request was
pub data Request : Type 0 where
  side_effect : (route actor key : String) → (resource_id : Option String) → Request
  agent_run : (actor key : String) → (source_device : Option String) → Request

pub data EntryStatus : Type 0 where
  running completed : EntryStatus

-- a row of `side_effect_idempotency` or `agent_run_idempotency`
pub record Entry : Type 0 where
  pub scope_key : String
  pub request : Request
  pub payload_hash : String
  pub status : EntryStatus
  pub response_json : Option String
  pub created_at : ℕ
  pub updated_at : ℕ
  pub expires_at : ℕ

pub record IdempotencyStore : Type 0 where
  pub ttl_seconds : ℕ
  pub entries : List Entry

unfoldable pub new_store : ℕ → IdempotencyStore
new_store ttl = record { ttl_seconds = max 60 ttl; entries = [] }

pub data BeginError : Type 0 where
  conflict in_progress : BeginError

-- sha256 of the canonical JSON of an object of texts, and of a payload
pub record Hashing : Type 0 where
  pub of_fields : List (String × String) → String
  pub of_payload : String → String

-- a response: an object, another JSON value, or the JSON text of the `repr` of anything else
pub data Response : Type 0 where
  object value unprintable : String → Response

-- the JSON text of `normalize_idempotency_response(value)`
unfoldable pub normalize_idempotency_response : Response → String
normalize_idempotency_response (object text) = text
normalize_idempotency_response (value text) = "{\"ok\": true, \"result\": " +++ text +++ "}"
normalize_idempotency_response (unprintable text) =
    "{\"ok\": true, \"result_repr\": " +++ text +++ "}"

abbrev pub entry_scope : Entry → String
entry_scope e = e.scope_key

abbrev pub is_running : EntryStatus → Bool
is_running running = true
is_running completed = false

abbrev pub is_completed : EntryStatus → Bool
is_completed completed = true
is_completed running = false

-- expires_at <= now
abbrev pub has_expired : ℕ → Entry → Bool
has_expired now e = leb e.expires_at now

unfoldable pub new_entry : ℕ → String → Request → String → ℕ → Entry
new_entry now scope request hash ttl = record {
  scope_key = scope;
  request = request;
  payload_hash = hash;
  status = running;
  response_json = none;
  created_at = now;
  updated_at = now;
  expires_at = now + ttl;
}

-- the response that a repeated request gets, if there is one
abbrev pub recorded : Entry → Option String
recorded e = if is_completed e.status then truthy e.response_json else none

-- what a second `begin` is told about the row that it finds
unfoldable pub reply_of : String → Entry → Result BeginError (Option String)
reply_of hash e =
    if e.payload_hash == hash
    then elim (recorded e) [ none ↦ err in_progress | some text ↦ ok (some text) ]
    else err conflict

-- `none` is the permission to go on; a raise rolls the DELETE back.
unfoldable pub begin_scope :
    ℕ
    → String
    → Request
    → String
    → IdempotencyStore
    → Result BeginError (Option String) × IdempotencyStore
unfolding new_entry reply_of
begin_scope now scope request hash s =
    let t = delete (has_expired now) s.entries in
    elim (find entry_scope scope t) [
      | none ↦
          (ok none, record s { entries = t ++ new_entry now scope request hash s.ttl_seconds ∷ [] })
      | some e ↦ elim (reply_of hash e) [
        | ok r ↦ (ok r, record s { entries = t })
        | err x ↦ (err x, s)
      ]
    ]

abbrev pub complete_entry : ℕ → ℕ → String → Entry → Entry
complete_entry now ttl text e = record e {
  status = completed;
  response_json = some text;
  updated_at = now;
  expires_at = now + ttl;
}

-- WHERE scope_key=? AND status='running'
abbrev pub if_running : (Entry → Entry) → Entry → Entry
if_running f e = if is_running e.status then f e else e

unfoldable pub complete_scope : ℕ → String → String → IdempotencyStore → IdempotencyStore
complete_scope now scope text s = record s {
  entries = update entry_scope scope (if_running (complete_entry now s.ttl_seconds text)) s.entries;
}

abbrev pub is_failing : String → Entry → Bool
is_failing scope e = e.scope_key == scope && is_running e.status

unfoldable pub fail_scope : String → IdempotencyStore → IdempotencyStore
fail_scope scope s = record s { entries = delete (is_failing scope) s.entries }

-- the counts of running and of completed requests
unfoldable pub stats : ℕ → IdempotencyStore → (ℕ × ℕ) × IdempotencyStore
stats now s =
    let t = delete (has_expired now) s.entries in
    (
      (count (λ e. is_running e.status) t, count (λ e. is_completed e.status) t),
      record s { entries = t },
    )

unfoldable pub side_effect_scope_key : Hashing → String → String → String → Option String → String
side_effect_scope_key h route actor key resource_id = h.of_fields (
    ("route", route)
    ∷ ("actor", actor)
    ∷ ("resource_id", or_text resource_id "")
    ∷ ("key", key)
    ∷ [])

unfoldable pub agent_run_scope_key : Hashing → String → Option String → String → String
agent_run_scope_key h actor source_device key = h.of_fields (
    ("route", "/agent/run")
    ∷ ("actor", actor)
    ∷ ("source_device", or_text source_device "")
    ∷ ("key", key)
    ∷ [])

-- the digest under which a request is known
unfoldable pub scope_key_of : Hashing → Request → String
unfolding side_effect_scope_key agent_run_scope_key
scope_key_of h (side_effect route actor key resource_id) =
    side_effect_scope_key h route actor key resource_id
scope_key_of h (agent_run actor key source_device) = agent_run_scope_key h actor source_device key

-- The methods of both stores: they differ in the scope alone.
module _ (h : Hashing) where
  unfoldable pub begin :
      ℕ → Request → String → IdempotencyStore → Result BeginError (Option String) × IdempotencyStore
  unfolding begin_scope scope_key_of
  begin now r payload s = begin_scope now (scope_key_of h r) r (h.of_payload payload) s

  unfoldable pub complete : ℕ → Request → Response → IdempotencyStore → IdempotencyStore
  unfolding complete_scope scope_key_of normalize_idempotency_response
  complete now r response s =
      complete_scope now (scope_key_of h r) (normalize_idempotency_response response) s

  unfoldable pub fail : Request → IdempotencyStore → IdempotencyStore
  unfolding fail_scope scope_key_of
  fail r s = fail_scope (scope_key_of h r) s
