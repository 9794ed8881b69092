-- ===== src/Outbound/Provider.antt =====
-- channels/provider_errors.py and channels/idempotency.py: how a failed send is read, and what a
-- provider promises about repeated sends.
use omni_desk_ai.Shared.{
  ℕ, ◌≡◌, String, Bool, true, false, ◌&&◌, ◌||◌, Option, none, some, List, [], ◌∷◌, leb,
  if◌then◌else◌, is_some, ◌==◌, arith, All, All,
}
use text.Mathlib.Text.{find?}

-- An exception: the status that `_status_code` finds on it, `str(exc)`, and that in lower case.
pub record Failure : Type 0 where
  pub status_code : Option ℕ
  pub text : String
  pub lower : String

pub record ChannelErrorInfo : Type 0 where
  pub category : String
  pub retryable : Bool
  pub dead_letter_now : Bool
  pub alert : Bool
  pub status_code : Option ℕ

-- `needle in text`
abbrev pub contains : String → String → Bool
contains text needle = is_some (find? text needle)

abbrev pub between : ℕ → ℕ → Option ℕ → Bool
between lo hi none = false
between lo hi (some n) = leb lo n && leb n hi

abbrev pub info : String → Bool → Bool → Bool → Option ℕ → ChannelErrorInfo
info category retryable dead alert code = record {
  category = category;
  retryable = retryable;
  dead_letter_now = dead;
  alert = alert;
  status_code = code;
}

-- the first rule whose test holds
unfoldable pub pick : {A : Type 0} → List (Bool × A) → A → A
pick [] default = default
pick ((test, a) ∷ rules) default = let later = pick rules default in if test then a else later

-- the tests of `classify_channel_error` and what each returns, in their order
abbrev pub rules : Failure → List (Bool × ChannelErrorInfo)
rules exc =
    let has = contains exc.lower in
    let code = exc.status_code in
    (
      between 429 429 code || (has "rate limit" || has "too many requests"),
      info "rate_limit" true false false code,
    )
    ∷ (between 500 599 code, info "provider_5xx" true false false code)
    ∷ (has "timeout" || has "timed out", info "timeout" true false false code)
    ∷ (
      has "network error" || (has "connection reset" || has "transport error"),
      info "network_error" true false false code,
    )
    ∷ (
      (between 401 401 code || between 403 403 code) || (has "unauthorized" || has "forbidden"),
      info "auth_error" false true true code,
    )
    ∷ (
      between 400 400 code || (has "invalid recipient" || has "recipient invalid"),
      info "bad_request" false true false code,
    )
    ∷ (has "unsupported", info "unsupported_payload" false true false code)
    ∷ (has "unknown channel" || has "adapter", info "config_error" false true true code)
    ∷ (
      has "template" || (has "session window" || has "policy"),
      info "policy_error" false true true code,
    )
    ∷ []

unfoldable pub classify_channel_error : Failure → ChannelErrorInfo
unfolding pick
classify_channel_error exc = pick (rules exc) (info "unknown" true false false exc.status_code)

-- What every rule and the default return, the call returns.
pub pick_lem :
    {A : Type 0} (P : A → Type 0) (default : A) (rules : List (Bool × A))
    → All (λ r. P r.1) rules
    → P default
    → P (pick rules default)
unfolding pick
pick_lem P default [] h d = d
pick_lem P default ((true, a) ∷ rules) h d = h.0
pick_lem P default ((false, a) ∷ rules) h d = pick_lem P default rules h.1 d

pub data IdempotencyMode : Type 0 where
  native best_effort no_mode : IdempotencyMode

pub record ProviderIdempotencyCapability : Type 0 where
  pub channel : String
  pub mode : IdempotencyMode
  pub request_header : Option String
  pub client_request_header : Option String
  pub duplicate_risk : Bool

unfoldable pub member : String → List String → Bool
member s [] = false
member s (x ∷ xs) = x == s || member s xs

-- the keys of PROVIDER_IDEMPOTENCY, whose values differ only in the channel
abbrev pub provider_channels : List String
provider_channels =
    "telegram" ∷ "whatsapp_cloud" ∷ "meta_graph" ∷ "line" ∷ "wechat_official" ∷ "dingtalk" ∷ "lark"
    ∷ "feishu" ∷ "x" ∷ "slack" ∷ "discord" ∷ "google_chat" ∷ "signal" ∷ "imessage"
    ∷ "microsoft_teams" ∷ "teams" ∷ "matrix" ∷ "qq" ∷ []

unfoldable pub capability_for : String → ProviderIdempotencyCapability
capability_for channel =
    if member channel provider_channels
    then record {
      channel = channel;
      mode = best_effort;
      request_header = some "X-Omnidesk-Idempotency-Key";
      client_request_header = some "X-Omnidesk-Client-Request-Id";
      duplicate_risk = true;
    }
    else record {
      channel = channel;
      mode = no_mode;
      request_header = none;
      client_request_header = none;
      duplicate_risk = true;
    }

abbrev pub is_native : IdempotencyMode → Bool
is_native native = true
is_native _ = false

-- no provider of the table has native idempotency
pub capability_for-not_native : (channel : String) → is_native (capability_for channel).mode ≡ false
unfolding capability_for
capability_for-not_native channel = ground arith
