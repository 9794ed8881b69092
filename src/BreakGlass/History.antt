-- ===== src/BreakGlass/History.antt =====
-- Sequences of calls on a break-glass store, and what a row of it goes back to.
use omni_desk_ai.Shared.{ℕ, ◌+◌, ◌≤◌, ◌≡◌, ◌≢◌, String, Option, none, some, List, [], ◌∷◌, ◌⊎◌}
use omni_desk_ai.Shared.Strip.{strip}
use omni_desk_ai.BreakGlass.Rules.{
  SessionStatus, active, pending_second_approval, legacy_unapproved, SessionRow, BreakGlassStore,
}
use omni_desk_ai.BreakGlass.Sqlite.{
  open_session, request_delegated, approve_session, revoke_session,
}
use omni_desk_ai.BreakGlass.Stores.{
  pg_open_session, pg_request_delegated, pg_approve_session, pg_revoke_session,
}

-- which of the two stores is in use
pub data Backend : Type 0 where
  sqlite postgres : Backend

-- A call of a method that writes, with the clock that it reads; the arguments stand in the order
-- of the method's, and the metadata last.
pub data BreakGlassCall : Type 0 where
  open_call : ℕ → String → String → String → String → ℕ → String → BreakGlassCall
  request_call : ℕ → String → String → String → String → ℕ → ℕ → String → BreakGlassCall
  approve_call : ℕ → String → String → String → BreakGlassCall
  revoke_call : ℕ → String → String → BreakGlassCall

-- the store after the call
unfoldable pub step : Backend → BreakGlassCall → BreakGlassStore → BreakGlassStore
step sqlite (open_call now id actor reason by ttl meta) s =
    (open_session now id actor reason by ttl meta s).1
step sqlite (request_call now id actor reason by ttl window meta) s =
    (request_delegated now id actor reason by ttl window meta s).1
step sqlite (approve_call now id approver meta) s = (approve_session now id approver meta s).1
step sqlite (revoke_call now id by) s = (revoke_session now id by s).1
step postgres (open_call now id actor reason by ttl meta) s =
    (pg_open_session now id actor reason by ttl meta s).1
step postgres (request_call now id actor reason by ttl window meta) s =
    (pg_request_delegated now id actor reason by ttl window meta s).1
step postgres (approve_call now id approver meta) s = (pg_approve_session now id approver meta s).1
step postgres (revoke_call now id by) s = (pg_revoke_session now id by s).1

unfoldable pub run : Backend → List BreakGlassCall → BreakGlassStore → BreakGlassStore
run b [] s = s
run b (c ∷ cs) s = run b cs (step b c s)

abbrev pub empty : BreakGlassStore
empty = record { rows = []; audit = [] }

-- one of the calls
abbrev pub Has : BreakGlassCall → List BreakGlassCall → Type 0
Has c [] = ⊥
Has c (x ∷ xs) = (c ≡ x) ⊎ Has c xs

-- The call opened the session `id` for its own caller.
pub record IsOpening (id actor approved_by : String) (expires_at : ℕ) (c : BreakGlassCall)
    : Type 0 where
  pub now : ℕ
  pub for_actor : String
  pub by : String
  pub reason : String
  pub ttl : ℕ
  pub meta : String
  pub call : c ≡ open_call now id for_actor reason by ttl meta
  pub same_actor : strip for_actor ≡ actor
  pub same_by : strip by ≡ actor
  pub kept_by : approved_by ≡ actor
  pub some_time : 1 ≤ ttl
  pub within_hour : ttl ≤ 3600
  pub until : expires_at ≡ now + ttl

-- The call asked for the session `id`, for somebody else.
pub record IsRequest (id actor approved_by : String) (ttl_seconds : Option ℕ) (c : BreakGlassCall)
    : Type 0 where
  pub now : ℕ
  pub for_actor : String
  pub by : String
  pub reason : String
  pub ttl : ℕ
  pub window : ℕ
  pub meta : String
  pub call : c ≡ request_call now id for_actor reason by ttl window meta
  pub same_actor : strip for_actor ≡ actor
  pub same_by : strip by ≡ approved_by
  pub distinct : actor ≢ approved_by
  pub lifetime : ttl_seconds ≡ some ttl
  pub some_time : 1 ≤ ttl
  pub within_hour : ttl ≤ 3600

-- The call is the second approval of the session `id`.
pub record IsApproval (id actor approved_by : String) (ttl_seconds : Option ℕ) (expires_at : ℕ)
    (c : BreakGlassCall) : Type 0 where
  pub now : ℕ
  pub approver : String
  pub meta : String
  pub ttl : ℕ
  pub call : c ≡ approve_call now id approver meta
  pub named : strip approver ≢ ""
  pub not_actor : strip approver ≢ actor
  pub not_requester : strip approver ≢ approved_by
  pub lifetime : ttl_seconds ≡ some ttl
  pub until : expires_at ≡ now + ttl

abbrev pub Opens : SessionRow → BreakGlassCall → Type 0
Opens r = IsOpening r.session_id r.actor r.approved_by r.expires_at

abbrev pub Requests : SessionRow → BreakGlassCall → Type 0
Requests r = IsRequest r.session_id r.actor r.approved_by r.ttl_seconds

abbrev pub Approves : SessionRow → BreakGlassCall → Type 0
Approves r = IsApproval r.session_id r.actor r.approved_by r.ttl_seconds r.expires_at

module _ (cs : List BreakGlassCall) where
  abbrev pub Among : (BreakGlassCall → Type 0) → Type 0
  Among P = (c : BreakGlassCall) × Has c cs × P c

  -- what the row goes back to, by its status
  abbrev pub Backs : SessionRow → Option SessionStatus → Type 0
  Backs r (some active) = Among (Opens r) ⊎ (Among (Requests r) × Among (Approves r))
  Backs r (some pending_second_approval) = Among (Requests r)
  Backs r (some legacy_unapproved) = ⊥
  Backs r none = ⊥

  abbrev pub IsBacked : SessionRow → Type 0
  IsBacked r = Backs r r.status
