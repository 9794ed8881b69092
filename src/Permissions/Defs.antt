-- ===== src/Permissions/Defs.antt =====
-- omnidesk_agent/security/permissions.py: `PermissionManager`, which decides on every proposed action.
-- The audit log keeps the events and the proposals they are about; its redaction, its hash chain and
-- the metrics are left out.
use omni_desk_ai.Shared.{
  ℕ, String, Bool, true, not, ◌&&◌, Option, none, some, List, [], ◌∷◌, ◌++◌, ◌==◌, if◌then◌else◌,
  ok, err,
}
use omni_desk_ai.Shared.Text.{◌+++◌, or_text}
use omni_desk_ai.Shared.Strip.{strip}
use omni_desk_ai.Shared.Member.{mem}
use omni_desk_ai.Approvals.{Proposal, ApprovalError, ApprovalStore, create}

-- a proposed action: the keys that the approval stores read, and its risk
pub record Action : Type 0 where
  pub risk : Option String
  pub proposal : Proposal

pub data ApprovalMode : Type 0 where
  interactive_cli remote_approval auto_policy : ApprovalMode

pub data PermissionMode : Type 0 where
  allow ask deny dry_run : PermissionMode

pub record PermissionConfig : Type 0 where
  pub approval_mode : ApprovalMode
  pub default_mode : PermissionMode
  pub no_tty_mode : PermissionMode
  pub allow_low_risk_from : List String
  pub always_ask_tools : List String
  pub require_dual_approval_for_risks : List String

pub record AuditEntry : Type 0 where
  pub event : String
  pub payload : Action

pub record PermissionManager : Type 0 where
  pub cfg : PermissionConfig
  pub approval_store : Option ApprovalStore
  pub session_allows : List String
  pub audit_log : List AuditEntry

-- a terminal that answers: `input(…).strip().lower()`; none for no terminal
pub record Console : Type 0 where
  pub answer : Option String

-- a `PermissionDecision` with its reason, or an exception
pub data Verdict : Type 0 where
  allowed dry_run_only refused : String → Verdict
  approval_required : String → Action → Verdict
  store_error : ApprovalError → Verdict

-- `proposal_dict.get(key, default)`
abbrev pub get_or : Option String → String → String
get_or none d = d
get_or (some v) d = v

abbrev pub risk_of : Action → String
risk_of a = get_or a.risk "medium"

abbrev pub source_of : Action → String
source_of a = get_or a.proposal.source "unknown"

abbrev pub tool_of : Action → String
tool_of a = get_or a.proposal.tool ""

unfoldable pub session_key : Action → String
session_key a =
    source_of a
    +++ "|"
    +++ get_or a.proposal.actor "unknown"
    +++ "|"
    +++ risk_of a
    +++ "|"
    +++ or_text a.proposal.scope_hash (tool_of a +++ "." +++ get_or a.proposal.action "")

abbrev pub audit : String → Action → PermissionManager → PermissionManager
audit event a m = record m { audit_log = m.audit_log ++ record { event = event; payload = a } ∷ [] }

-- the proposal with `requires_dual_approval` set if its risk asks for it
unfoldable pub classified : PermissionConfig → Action → Action
classified cfg a =
    if mem (risk_of a) cfg.require_dual_approval_for_risks
    then record a { proposal = record a.proposal { requires_dual_approval = true } }
    else a

-- the requester is stamped from the actor, if it has a name
unfoldable pub stamped : Action → Action
stamped a =
    let name = strip (or_text a.proposal.actor "") in
    if name == ""
    then a
    else record a { proposal = record a.proposal { created_by = some name; proposer = some name } }

abbrev pub lacks_requester : Action → Bool
lacks_requester a = strip (or_text a.proposal.actor "") == "" && a.proposal.requires_dual_approval

abbrev pub with_store : ApprovalStore → PermissionManager → PermissionManager
with_store store m = record m { approval_store = some store }

-- `now` and `id` are the clock and the uuid of `ApprovalStore.create`.
unfoldable pub remote_or_deny :
    ℕ → String → Action → PermissionManager → Verdict × PermissionManager
unfolding stamped
remote_or_deny now id a m = elim m.approval_store [
  | none ↦ (refused "remote_approval requires ApprovalStore", audit "denied_no_approval_store" a m)
  | some store ↦
      if lacks_requester a
      then (
        refused "dual approval requires an authenticated requester",
        audit "denied_no_requester" a m,
      )
      else let b = stamped a in
        let (reply, store') = create now id b.proposal none store in
        elim reply [
          | err e ↦ (store_error e, with_store store' m)
          | ok aid ↦ (approval_required aid b, audit "approval_required" b (with_store store' m))
        ]
]

-- what the question on the terminal leads to
unfoldable pub interactive : String → Action → PermissionManager → Verdict × PermissionManager
unfolding session_key
interactive answer a m =
    if mem answer ("y" ∷ "yes" ∷ [])
    then (allowed "interactive", audit "allowed_interactive" a m)
    else if mem answer ("s" ∷ "session" ∷ [])
    then (
      allowed "session",
      audit "allowed_session_new" a
          (record m { session_allows = session_key a ∷ m.session_allows }),
    )
    else if mem answer ("d" ∷ "dry-run" ∷ [])
    then (dry_run_only "interactive dry_run", audit "dry_run_interactive" a m)
    else (refused "Denied by user", audit "denied_interactive" a m)

unfoldable pub ask_console : Console → Action → PermissionManager → Verdict × PermissionManager
unfolding interactive
ask_console console a m = elim console.answer [
  | none ↦ elim m.cfg.no_tty_mode [
    | dry_run ↦ (dry_run_only "no tty dry_run", audit "dry_run_no_tty" a m)
    | _ ↦ (refused "Permission required but no TTY available", audit "denied_no_tty" a m)
  ]
  | some answer ↦ interactive answer a m
]

-- `approval_mode` is `interactive_cli`: the default mode decides
unfoldable pub by_default : Console → Action → PermissionManager → Verdict × PermissionManager
unfolding ask_console
by_default console a m = elim m.cfg.default_mode [
  | allow ↦ (allowed "default allow", audit "allowed_default" a m)
  | dry_run ↦ (dry_run_only "default dry_run", audit "dry_run" a m)
  | deny ↦ (refused "Denied by default permission policy", audit "denied_default" a m)
  | ask ↦ ask_console console a m
]

-- risk in {"low", "medium"} and tool not in always_ask_tools
abbrev pub auto_allowed : PermissionConfig → Action → Bool
auto_allowed cfg a =
    mem (risk_of a) ("low" ∷ "medium" ∷ []) && not (mem (tool_of a) cfg.always_ask_tools)

unfoldable pub by_mode :
    ℕ → String → Console → Action → PermissionManager → Verdict × PermissionManager
unfolding remote_or_deny by_default
by_mode now id console a m = elim m.cfg.approval_mode [
  | auto_policy ↦
      if auto_allowed m.cfg a
      then (allowed "auto_policy", audit "allowed_auto_policy" a m)
      else remote_or_deny now id a m
  | remote_approval ↦ remote_or_deny now id a m
  | interactive_cli ↦ by_default console a m
]

abbrev pub low_allowed : PermissionConfig → Action → Bool
low_allowed cfg a = risk_of a == "low" && mem (source_of a) cfg.allow_low_risk_from

unfoldable pub verify :
    ℕ → String → Console → Action → PermissionManager → Verdict × PermissionManager
unfolding session_key classified by_mode
verify now id console a m =
    let b = classified m.cfg a in
    let m' = audit "proposal" b m in
    if low_allowed m.cfg b
    then (allowed "low risk allowed", audit "allowed_low_risk" b m')
    else if mem (session_key b) m.session_allows
    then (allowed "session allow", audit "allowed_session" b m')
    else by_mode now id console b m'

unfoldable pub allow_approved_proposal : Action → PermissionManager → String × PermissionManager
unfolding session_key
allow_approved_proposal a m = (
  session_key a,
  audit "allowed_after_remote_approval" a
      (record m { session_allows = session_key a ∷ m.session_allows }),
)
