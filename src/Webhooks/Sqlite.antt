-- ===== src/Webhooks/Sqlite.antt =====
-- `WebhookSecurity`: the methods over SQLite. `sha256` is hashlib's hexdigest, and a body is its text.
use omni_desk_ai.Shared.{
  ℕ, zero, suc, ◌+◌, ◌-◌, ◌/◌, String, Bool, true, false, ◌&&◌, Option, none, some, List, [], ◌∷◌,
  ◌++◌, ◌==◌, ltb, leb, if◌then◌else◌, Result, ok, err, is_some,
}
use Prim.Native.Nat.{max}
use omni_desk_ai.Shared.Text.{◌+++◌, or_text}
use omni_desk_ai.Shared.Table.{find, delete}

pub record WebhookSecurityConfig : Type 0 where
  pub replay_ttl_seconds : ℕ
  pub seen_retention_seconds : ℕ
  pub rate_limit_window_seconds : ℕ
  pub rate_limit_max_requests : ℕ

-- a row of webhook_seen
pub record SeenRow : Type 0 where
  pub digest : String
  pub channel : String
  pub created_at : ℕ

-- a row of webhook_rate
pub record RateRow : Type 0 where
  pub key : String
  pub bucket : ℕ
  pub count : ℕ

-- a row of webhook_nonce
pub record NonceRow : Type 0 where
  pub digest : String
  pub channel : String
  pub expires_at : ℕ

pub record WebhookSecurity : Type 0 where
  pub cfg : WebhookSecurityConfig
  pub seen : List SeenRow
  pub rate : List RateRow
  pub nonces : List NonceRow

-- the arguments of `guard`
pub record WebhookDelivery : Type 0 where
  pub channel : String
  pub body : String
  pub source_key : String
  pub message_id : Option String
  pub timestamp : Option ℕ

pub data WebhookError : Type 0 where
  permission_error : WebhookError
  zero_division_error : WebhookError  -- a window of 0 seconds

abbrev pub seen_digest : SeenRow → String
seen_digest r = r.digest

abbrev pub nonce_key : NonceRow → String
nonce_key r = r.digest

-- abs(a - b)
abbrev pub distance : ℕ → ℕ → ℕ
distance a b = if leb b a then a - b else b - a

unfoldable pub webhook_digest : (String → String) → String → String → Option String → String
webhook_digest sha256 channel body message_id = sha256 (channel +++ ":" +++ or_text message_id body)

unfoldable pub nonce_digest : (String → String) → String → String → String
nonce_digest sha256 channel nonce = sha256 ("nonce:" +++ channel +++ ":" +++ nonce)

unfoldable pub check_timestamp :
    WebhookSecurityConfig → ℕ → Option ℕ → Result WebhookError (Unit {0})
check_timestamp cfg now none = ok tt
check_timestamp cfg now (some at) =
    if ltb cfg.replay_ttl_seconds (distance now at) then err permission_error else ok tt

-- int(time.time() // window)
abbrev pub bucket_of : ℕ → ℕ → Result WebhookError ℕ
bucket_of now zero = err zero_division_error
bucket_of now (suc w) = ok (now / suc w)

abbrev pub is_rate : String → ℕ → RateRow → Bool
is_rate key bucket r = r.key == key && (leb r.bucket bucket && leb bucket r.bucket)

-- INSERT … ON CONFLICT(key, bucket) DO UPDATE SET count = count + 1
unfoldable pub count_up : String → ℕ → List RateRow → List RateRow
count_up key bucket [] = record { key = key; bucket = bucket; count = 1 } ∷ []
count_up key bucket (r ∷ t) =
    let rest = count_up key bucket t in
    if is_rate key bucket r then record r { count = r.count + 1 } ∷ t else r ∷ rest

-- SELECT count, 0 without a row
unfoldable pub count_at : String → ℕ → List RateRow → ℕ
count_at key bucket [] = 0
count_at key bucket (r ∷ t) =
    let rest = count_at key bucket t in if is_rate key bucket r then r.count else rest

-- A refusal is raised inside the transaction, which rolls the count back.
unfoldable pub check_rate :
    ℕ → String → String → WebhookSecurity → Result WebhookError (Unit {0}) × WebhookSecurity
unfolding count_at count_up
check_rate now channel source_key s =
    let key = channel +++ ":" +++ source_key in
    elim (bucket_of now s.cfg.rate_limit_window_seconds) [
      | err e ↦ (err e, s)
      | ok bucket ↦
          let t = count_up key bucket s.rate in
          if ltb s.cfg.rate_limit_max_requests (count_at key bucket t)
          then (err permission_error, s)
          else (ok tt, record s { rate = t })
    ]

abbrev pub retention : WebhookSecurityConfig → ℕ
retention cfg = max cfg.replay_ttl_seconds cfg.seen_retention_seconds

-- created_at < now - retention
abbrev pub is_forgotten : WebhookSecurityConfig → ℕ → SeenRow → Bool
is_forgotten cfg now r = ltb (r.created_at + retention cfg) now

-- the two statements of `_mark_seen`, and whether the row was inserted; the DELETE stays when the
-- INSERT violates the PRIMARY KEY
unfoldable pub mark_rows :
    WebhookSecurityConfig → ℕ → String → String → List SeenRow → Bool × List SeenRow
mark_rows cfg now channel digest rows =
    let t = delete (is_forgotten cfg now) rows in
    let r : SeenRow = record { digest = digest; channel = channel; created_at = now } in
    if is_some (find seen_digest digest t) then (false, t) else (true, t ++ r ∷ [])

unfoldable pub mark_seen : ℕ → String → String → WebhookSecurity → Bool × WebhookSecurity
unfolding mark_rows
mark_seen now channel digest s =
    let (inserted, t) = mark_rows s.cfg now channel digest s.seen in
    (inserted, record s { seen = t })

-- the end of `guard`: the delivery is recorded, or is a duplicate
unfoldable pub record_delivery :
    ℕ → String → String → WebhookSecurity → Result WebhookError String × WebhookSecurity
unfolding mark_seen
record_delivery now channel digest s =
    let (inserted, s1) = mark_seen now channel digest s in
    if inserted then (ok digest, s1) else (err permission_error, s1)

-- the digest that is answered
unfoldable pub guard :
    (String → String)
    → ℕ
    → WebhookDelivery
    → WebhookSecurity
    → Result WebhookError String × WebhookSecurity
unfolding check_timestamp check_rate record_delivery webhook_digest
guard sha256 now d s = elim (check_timestamp s.cfg now d.timestamp) [
  | err e ↦ (err e, s)
  | ok _ ↦
      let (r, s1) = check_rate now d.channel d.source_key s in
      elim r [
        | err e ↦ (err e, s1)
        | ok _ ↦
            record_delivery now d.channel (webhook_digest sha256 d.channel d.body d.message_id) s1
      ]
]

-- A replay is raised inside the transaction, which rolls the DELETE back.
unfoldable pub claim_nonce :
    (String → String)
    → ℕ
    → String
    → String
    → ℕ
    → WebhookSecurity
    → Result WebhookError (Unit {0}) × WebhookSecurity
unfolding nonce_digest
claim_nonce sha256 now channel nonce ttl s =
    let digest = nonce_digest sha256 channel nonce in
    let t = delete (λ r. ltb r.expires_at now) s.nonces in
    let r : NonceRow = record {
      digest = digest;
      channel = channel;
      expires_at = now + max 1 ttl;
    } in
    if is_some (find nonce_key digest t)
    then (err permission_error, s)
    else (ok tt, record s { nonces = t ++ r ∷ [] })
