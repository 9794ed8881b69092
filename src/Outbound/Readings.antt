-- ===== src/Outbound/Readings.antt =====
-- How a round of the dispatcher reads the outcome of a delivery, without the rules' categories.
use omni_desk_ai.Shared.{
  ltb, leb, if◌then◌else◌, is_some, ◌||◌, ◌&&◌, ℕ, ◌≡◌, refl, String, Bool, true, false, Option,
  none, some, List, [], ◌∷◌, ok, err, Result,
}
use text.Mathlib.Text.{find?}
use omni_desk_ai.Outbound.Defs.{Status, Message, sent, ambiguous, dead_letter, retry}
use omni_desk_ai.Outbound.Provider.{
  Failure, ChannelErrorInfo, classify_channel_error, info, pick, member,
}
use omni_desk_ai.Outbound.Dispatch.{Delivery, is_uncertain}

-- what the rules of a failure lead to
unfoldable pub settled_as : Message → ChannelErrorInfo → Status
unfolding is_uncertain
settled_as m info =
    if is_uncertain info
    then ambiguous
    else if info.retryable && ltb m.retry_count m.max_retries
    then retry
    else dead_letter

abbrev has_status : ℕ → ℕ → Failure → Bool
has_status lo hi exc = elim exc.status_code [ none ↦ false | some n ↦ leb lo n && leb n hi ]

abbrev says : String → Failure → Bool
says needle exc = is_some (find? exc.lower needle)

-- The provider refused the send for now.
abbrev is_limited : Failure → Bool
is_limited exc = has_status 429 429 exc || (says "rate limit" exc || says "too many requests" exc)

-- The send may have reached the provider.
abbrev may_have_arrived : Failure → Bool
may_have_arrived exc =
    has_status 500 599 exc
    || ((says "timeout" exc || says "timed out" exc)
        || (says "network error" exc
            || (says "connection reset" exc || says "transport error" exc)))

-- The send fails however often it is tried.
abbrev is_permanent : Failure → Bool
is_permanent exc =
    ((has_status 401 401 exc || has_status 403 403 exc)
      || (says "unauthorized" exc || says "forbidden" exc))
    || ((has_status 400 400 exc || (says "invalid recipient" exc || says "recipient invalid" exc))
        || (says "unsupported" exc
            || ((says "unknown channel" exc || says "adapter" exc)
                || (says "template" exc || (says "session window" exc || says "policy" exc)))))

-- The specification of a round, without categories, the provider's mode and the dead-letter flag.
unfoldable pub settled_status : Message → Result Failure Delivery → Status
settled_status m (ok d) = sent
settled_status m (err exc) =
    let again = if ltb m.retry_count m.max_retries then retry else dead_letter in
    if is_limited exc
    then again
    else if may_have_arrived exc
    then ambiguous
    else if is_permanent exc
    then dead_letter
    else again

-- the rules of the classification, with any tests
abbrev rule_list :
    Option ℕ
    → Bool
    → Bool
    → Bool
    → Bool
    → Bool
    → Bool
    → Bool
    → Bool
    → Bool
    → List (Bool × ChannelErrorInfo)
rule_list c b1 b2 b3 b4 b5 b6 b7 b8 b9 =
    (b1, info "rate_limit" true false false c)
    ∷ (b2, info "provider_5xx" true false false c)
    ∷ (b3, info "timeout" true false false c)
    ∷ (b4, info "network_error" true false false c)
    ∷ (b5, info "auth_error" false true true c)
    ∷ (b6, info "bad_request" false true false c)
    ∷ (b7, info "unsupported_payload" false true false c)
    ∷ (b8, info "config_error" false true true c)
    ∷ (b9, info "policy_error" false true true c)
    ∷ []

settled_pick :
    (m : Message) (c : Option ℕ) (b1 b2 b3 b4 b5 b6 b7 b8 b9 : Bool)
    → settled_as m
        (pick (rule_list c b1 b2 b3 b4 b5 b6 b7 b8 b9) (info "unknown" true false false c))
      ≡ (let again = if ltb m.retry_count m.max_retries then retry else dead_letter in
          if b1
          then again
          else if b2 || (b3 || b4)
          then ambiguous
          else if b5 || (b6 || (b7 || (b8 || b9)))
          then dead_letter
          else again)
unfolding settled_as pick member
settled_pick m c true b2 b3 b4 b5 b6 b7 b8 b9 = refl
settled_pick m c false true b3 b4 b5 b6 b7 b8 b9 = refl
settled_pick m c false false true b4 b5 b6 b7 b8 b9 = refl
settled_pick m c false false false true b5 b6 b7 b8 b9 = refl
settled_pick m c false false false false true b6 b7 b8 b9 = refl
settled_pick m c false false false false false true b7 b8 b9 = refl
settled_pick m c false false false false false false true b8 b9 = refl
settled_pick m c false false false false false false false true b9 = refl
settled_pick m c false false false false false false false false true = refl
settled_pick m c false false false false false false false false false = refl

pub classify-settled :
    (m : Message) (exc : Failure)
    → settled_as m (classify_channel_error exc) ≡ settled_status m (err exc)
unfolding classify_channel_error settled_status
classify-settled m exc = settled_pick m exc.status_code _ _ _ _ _ _ _ _ _
