-- ===== src/Permissions/Grounds.antt =====
-- On what grounds an action is allowed.
use omni_desk_ai.Shared.{
  ℕ, ◌≡◌, ◌≢◌, ◌⊎◌, ap, ◌∙◌, refl, String, true, none, some, [], ◌∷◌, arith, Option-cases,
  Bool-cases, Result-cases, inl, inr,
}
use omni_desk_ai.Shared.Member.{mem}
use omni_desk_ai.Approvals.{create}
use omni_desk_ai.Permissions.Defs.{
  Action, ApprovalMode, interactive_cli, remote_approval, auto_policy, PermissionMode, allow, ask,
  deny, dry_run, PermissionManager, Console, allowed, session_key, audit, classified, stamped,
  lacks_requester, remote_or_deny, interactive, ask_console, by_default, auto_allowed, by_mode,
  low_allowed, verify,
}

-- a ground for allowing `a`
pub data IsGrounded (console : Console) (a : Action) (m : PermissionManager) : Type 0 where
  low_risk : low_allowed m.cfg a ≡ true → IsGrounded console a m
  session : mem (session_key a) m.session_allows ≡ true → IsGrounded console a m
  policy : m.cfg.approval_mode ≡ auto_policy → auto_allowed m.cfg a ≡ true → IsGrounded console a m
  default :
      m.cfg.approval_mode ≡ interactive_cli → m.cfg.default_mode ≡ allow → IsGrounded console a m
  person :
      m.cfg.approval_mode ≡ interactive_cli
      → m.cfg.default_mode ≡ ask
      → (answer : String) → console.answer ≡ some answer
      → mem answer ("y" ∷ "yes" ∷ "s" ∷ "session" ∷ []) ≡ true
      → IsGrounded console a m

-- The way to an approval never allows by itself.
remote_refuses :
    (now : ℕ) (id : String) (a : Action) (m : PermissionManager) (reason : String)
    → (remote_or_deny now id a m).0 ≢ allowed reason
unfolding remote_or_deny
remote_refuses now id a m reason h = elim (Option-cases m.approval_store) [
  | inl e ↦ ground arith
  | inr (store, e) ↦ elim (Bool-cases (lacks_requester a)) [
    | inl l ↦ ground arith
    | inr l ↦ elim (Result-cases (create now id (stamped a).proposal none store).0) [
      | inl (x, k) ↦ ground arith
      | inr (x, k) ↦ ground arith
    ]
  ]
]

interactive_grounds :
    (answer : String) (a : Action) (m : PermissionManager) (reason : String)
    → (interactive answer a m).0 ≡ allowed reason
    → mem answer ("y" ∷ "yes" ∷ "s" ∷ "session" ∷ []) ≡ true
unfolding interactive
interactive_grounds answer a m reason h = ground arith

no_terminal_refuses :
    (console : Console) (a : Action) (m : PermissionManager) (reason : String)
    → console.answer ≡ none
    → (ask_console console a m).0 ≢ allowed reason
unfolding ask_console
no_terminal_refuses console a m reason e h = ground arith

pub PermissionMode-cases :
    (x : PermissionMode) → (x ≡ allow) ⊎ ((x ≡ ask) ⊎ ((x ≡ deny) ⊎ (x ≡ dry_run)))
PermissionMode-cases allow = inl refl
PermissionMode-cases ask = inr (inl refl)
PermissionMode-cases deny = inr (inr (inl refl))
PermissionMode-cases dry_run = inr (inr (inr refl))

pub ApprovalMode-cases :
    (x : ApprovalMode) → (x ≡ interactive_cli) ⊎ ((x ≡ remote_approval) ⊎ (x ≡ auto_policy))
ApprovalMode-cases interactive_cli = inl refl
ApprovalMode-cases remote_approval = inr (inl refl)
ApprovalMode-cases auto_policy = inr (inr refl)

by_default-IsGrounded :
    (console : Console) (a : Action) (m n : PermissionManager) (reason : String)
    → m.cfg.approval_mode ≡ interactive_cli
    → m.cfg ≡ n.cfg
    → (by_default console a n).0 ≡ allowed reason
    → IsGrounded console a m
unfolding by_default ask_console
by_default-IsGrounded console a m n reason i c h = elim (PermissionMode-cases n.cfg.default_mode) [
  | inl d ↦ default i (ap (λ x. x.default_mode) c ∙ d)
  | inr (inl d) ↦ elim (Option-cases console.answer) [
    | inl e ↦ absurd (no_terminal_refuses console a n reason e (ground arith))
    | inr (answer, e) ↦
        person i (ap (λ x. x.default_mode) c ∙ d) answer e
          (interactive_grounds answer a n reason (ground arith))
  ]
  | inr (inr (inl d)) ↦ ground arith
  | inr (inr (inr d)) ↦ ground arith
]

by_mode-IsGrounded :
    (now : ℕ) (id : String) (console : Console) (a : Action) (m n : PermissionManager)
    (reason : String)
    → m.cfg ≡ n.cfg
    → (by_mode now id console a n).0 ≡ allowed reason
    → IsGrounded console a m
unfolding by_mode
by_mode-IsGrounded now id console a m n reason c h = elim (ApprovalMode-cases n.cfg.approval_mode) [
  | inl i ↦
      by_default-IsGrounded console a m n reason (ap (λ x. x.approval_mode) c ∙ i) c (ground arith)
  | inr (inl i) ↦ absurd (remote_refuses now id a n reason (ground arith))
  | inr (inr i) ↦ elim (Bool-cases (auto_allowed n.cfg a)) [
    | inl t ↦ policy (ap (λ x. x.approval_mode) c ∙ i) (ap (λ x. auto_allowed x a) c ∙ t)
    | inr t ↦ absurd (remote_refuses now id a n reason (ground arith))
  ]
]

-- An action is allowed only on one of five grounds: its risk is low and its source is on the list for
-- low risks; its session key was allowed before; the policy mode allows its risk and its tool; the
-- interactive mode allows by default; or the interactive mode asked and a person at the terminal
-- agreed. The ground is about the action with the dual-approval mark that its risk asks for.
pub verify-IsGrounded :
    (now : ℕ) (id : String) (console : Console) (a : Action) (m : PermissionManager)
    (reason : String)
    → (verify now id console a m).0 ≡ allowed reason
    → IsGrounded console (classified m.cfg a) m
unfolding verify
verify-IsGrounded now id console a m reason h =
    let b = classified m.cfg a in
    elim (Bool-cases (low_allowed m.cfg b)) [
      | inl l ↦ low_risk l
      | inr l ↦ elim (Bool-cases (mem (session_key b) m.session_allows)) [
        | inl k ↦ session k
        | inr k ↦
            by_mode-IsGrounded now id console b m (audit "proposal" b m) reason refl (ground arith)
      ]
    ]
