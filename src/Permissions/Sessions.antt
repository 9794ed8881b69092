-- ===== src/Permissions/Sessions.antt =====
-- Session allows: how long the grant of an approved proposal lasts.
use omni_desk_ai.Shared.{
  ℕ, ◌≡◌, refl, ap, ◌∙◌, String, true, none, List, [], ◌∷◌, arith, eq_iff, Option-cases, Bool-cases,
  Result-cases, inl, inr,
}
use omni_desk_ai.Shared.Member.{mem}
use omni_desk_ai.Approvals.{create}
use omni_desk_ai.Permissions.Defs.{
  Action, PermissionConfig, PermissionManager, Console, allowed, session_key, audit, classified,
  stamped, lacks_requester, remote_or_deny, interactive, ask_console, by_default, auto_allowed,
  by_mode, low_allowed, verify, allow_approved_proposal,
}
use omni_desk_ai.Permissions.Grounds.{PermissionMode-cases, ApprovalMode-cases}

-- calls on the permission manager
pub data PermissionCall : Type 0 where
  verify_call : ℕ → String → Console → Action → PermissionCall
  grant_call : Action → PermissionCall

unfoldable pub step : PermissionCall → PermissionManager → PermissionManager
step (verify_call now id console a) m = (verify now id console a m).1
step (grant_call a) m = (allow_approved_proposal a m).1

unfoldable pub replay : List PermissionCall → PermissionManager → PermissionManager
replay [] m = m
replay (c ∷ cs) m = replay cs (step c m)

-- the key is allowed for the session
abbrev pub Allows : String → PermissionManager → Type 0
Allows k m = mem k m.session_allows ≡ true

remote_or_deny-Allows :
    (k : String) (now : ℕ) (id : String) (a : Action) (m : PermissionManager)
    → Allows k m
    → Allows k (remote_or_deny now id a m).1
unfolding remote_or_deny
remote_or_deny-Allows k now id a m h = elim (Option-cases m.approval_store) [
  | inl e ↦ rw (e, remote_or_deny) h
  | inr (store, e) ↦ elim (Bool-cases (lacks_requester a)) [
    | inl l ↦ rw (e, l, remote_or_deny) h
    | inr l ↦ elim (Result-cases (create now id (stamped a).proposal none store).0) [
      | inl (x, r) ↦ rw (e, l, r, remote_or_deny) h
      | inr (x, r) ↦ rw (e, l, r, remote_or_deny) h
    ]
  ]
]

interactive-Allows :
    (k answer : String) (a : Action) (m : PermissionManager)
    → Allows k m
    → Allows k (interactive answer a m).1
unfolding interactive
interactive-Allows k answer a m h = ground (arith, h)

by_default-Allows :
    (k : String) (console : Console) (a : Action) (m : PermissionManager)
    → Allows k m
    → Allows k (by_default console a m).1
unfolding by_default ask_console
by_default-Allows k console a m h = elim (PermissionMode-cases m.cfg.default_mode) [
  | inl d ↦ rw (d, by_default) h
  | inr (inl d) ↦ elim (Option-cases console.answer) [
    | inl e ↦ ground arith
    | inr (answer, e) ↦ rw (d, e, by_default, ask_console) (interactive-Allows k answer a m h)
  ]
  | inr (inr (inl d)) ↦ rw (d, by_default) h
  | inr (inr (inr d)) ↦ rw (d, by_default) h
]

by_mode-Allows :
    (k : String) (now : ℕ) (id : String) (console : Console) (a : Action) (m : PermissionManager)
    → Allows k m
    → Allows k (by_mode now id console a m).1
unfolding by_mode
by_mode-Allows k now id console a m h = elim (ApprovalMode-cases m.cfg.approval_mode) [
  | inl i ↦ rw (i, by_mode) (by_default-Allows k console a m h)
  | inr (inl i) ↦ rw (i, by_mode) (remote_or_deny-Allows k now id a m h)
  | inr (inr i) ↦ elim (Bool-cases (auto_allowed m.cfg a)) [
    | inl t ↦ rw (i, t, by_mode) h
    | inr t ↦ rw (i, t, by_mode) (remote_or_deny-Allows k now id a m h)
  ]
]

verify-Allows :
    (k : String) (now : ℕ) (id : String) (console : Console) (a : Action) (m : PermissionManager)
    → Allows k m
    → Allows k (verify now id console a m).1
unfolding verify
verify-Allows k now id console a m h =
    let b = classified m.cfg a in
    elim (Bool-cases (low_allowed m.cfg b)) [
      | inl l ↦ rw (l, verify) h
      | inr l ↦ elim (Bool-cases (mem (session_key b) m.session_allows)) [
        | inl e ↦ rw (l, e, verify) h
        | inr e ↦ rw (l, e, verify) (by_mode-Allows k now id console b (audit "proposal" b m) h)
      ]
    ]

step-Allows :
    (k : String) (c : PermissionCall) (m : PermissionManager) → Allows k m → Allows k (step c m)
unfolding step allow_approved_proposal
step-Allows k (verify_call now id console a) m h = verify-Allows k now id console a m h
step-Allows k (grant_call a) m h = ground (arith, h)

replay-Allows :
    (k : String) (cs : List PermissionCall) (m : PermissionManager)
    → Allows k m
    → Allows k (replay cs m)
unfolding replay
replay-Allows k [] m h = h
replay-Allows k (c ∷ cs) m h = replay-Allows k cs (step c m) (step-Allows k c m h)

session_key-classified :
    (cfg : PermissionConfig) (a : Action) → session_key (classified cfg a) ≡ session_key a
unfolding session_key classified
session_key-classified cfg a = ground arith

allowed_by_session :
    (now : ℕ) (id : String) (console : Console) (a : Action) (m : PermissionManager)
    → Allows (session_key a) m
    → (reason : String) × ((verify now id console a m).0 ≡ allowed reason)
unfolding verify
allowed_by_session now id console a m h =
    let b = classified m.cfg a in
    elim (Bool-cases (low_allowed m.cfg b)) [
      | inl l ↦ ("low risk allowed", rw (l, verify) refl)
      | inr l ↦
          let k = ap (λ x. mem x m.session_allows) (session_key-classified m.cfg a) ∙ h in
          ("session allow", rw (l, k, verify) refl)
    ]

-- Once a proposal was granted after its approval, every later action with the same session key is
-- allowed without asking, in every approval mode and for every risk, as often as it comes, whatever
-- verifications and grants come between.
pub allow_approved_proposal-verify :
    (cs : List PermissionCall) (now : ℕ) (id : String) (console : Console) (a b : Action)
    (m : PermissionManager)
    → session_key b ≡ session_key a
    → (reason : String) × ((verify now id console b (replay cs (allow_approved_proposal a m).1)).0
        ≡ allowed reason)
unfolding allow_approved_proposal
allow_approved_proposal-verify cs now id console a b m e =
    allowed_by_session now id console b (replay cs (allow_approved_proposal a m).1) (
      replay-Allows (session_key b) cs (allow_approved_proposal a m).1
        (ground (arith, eq_iff (session_key b) (session_key a), e)))
