-- ===== src/Webhooks/Stores.antt =====
-- omnidesk_agent/repositories/postgres_state.py: `PostgresWebhookSecurity`, and the choice of a store.
-- The rows of webhook_seen and webhook_nonce are only inserted and replaced, so that their column
-- updated_at is their created_at. Which stale rows a purge takes is Postgres's choice; here the
-- first ones go.
use omni_desk_ai.Shared.{
  ℕ, zero, suc, ◌+◌, ◌*◌, String, Bool, true, false, none, some, List, [], ◌∷◌, ◌++◌, ltb,
  if◌then◌else◌, Result, ok, err,
}
use Prim.Native.Nat.{max}
use omni_desk_ai.Shared.Text.{◌+++◌, decimal}
use omni_desk_ai.Shared.Table.{find, update}
use omni_desk_ai.Webhooks.Sqlite.{
  WebhookSecurityConfig, SeenRow, WebhookSecurity, WebhookDelivery, WebhookError, permission_error,
  seen_digest, webhook_digest, nonce_digest, check_timestamp, bucket_of, retention, is_forgotten,
}

-- a row of the namespace webhook_rate, with its column updated_at
pub record PgRateRow : Type 0 where
  pub key : String
  pub count : ℕ
  pub bucket : ℕ
  pub updated_at : ℕ

-- a row of the namespace webhook_nonce
pub record PgNonceRow : Type 0 where
  pub digest : String
  pub channel : String
  pub created_at : ℕ
  pub expires_at : ℕ

pub record PostgresWebhookSecurity : Type 0 where
  pub cfg : WebhookSecurityConfig
  pub next_purge_at : ℕ
  pub seen : List SeenRow
  pub rate : List PgRateRow
  pub nonces : List PgNonceRow

abbrev pub rate_key : PgRateRow → String
rate_key r = r.key

abbrev pub pg_nonce_digest : PgNonceRow → String
pg_nonce_digest r = r.digest

module _ {R : Type 0} where
  -- `insert_once_or_replace_stale`; `stale` is the test of the row that is there
  unfoldable pub insert_or_replace_stale : (R → String) → (R → Bool) → R → List R → Bool × List R
  insert_or_replace_stale key stale r t = elim (find key (key r) t) [
    | none ↦ (true, t ++ r ∷ [])
    | some x ↦ if stale x then (true, update key (key r) (λ _. r) t) else (false, t)
  ]

  -- `delete_stale`
  unfoldable pub delete_stale : (R → Bool) → ℕ → List R → List R
  delete_stale stale n [] = []
  delete_stale stale zero (r ∷ t) = r ∷ t
  delete_stale stale (suc n) (r ∷ t) =
      let taken = delete_stale stale n t in
      let kept = delete_stale stale (suc n) t in if stale r then taken else r ∷ kept

abbrev pub is_old_rate : WebhookSecurityConfig → ℕ → PgRateRow → Bool
is_old_rate cfg now r = ltb (r.updated_at + 2 * cfg.rate_limit_window_seconds) now

abbrev pub is_old_nonce : WebhookSecurityConfig → ℕ → PgNonceRow → Bool
is_old_nonce cfg now r = ltb (r.created_at + retention cfg) now

-- at most once a minute, 1000 rows of each namespace
unfoldable pub purge_expired : ℕ → PostgresWebhookSecurity → PostgresWebhookSecurity
purge_expired now s = if ltb now s.next_purge_at then s else record s {
  next_purge_at = now + 60;
  seen = delete_stale (is_forgotten s.cfg now) 1000 s.seen;
  rate = delete_stale (is_old_rate s.cfg now) 1000 s.rate;
  nonces = delete_stale (is_old_nonce s.cfg now) 1000 s.nonces;
}

abbrev pub counted : ℕ → PgRateRow → PgRateRow
counted now r = record r { count = r.count + 1; updated_at = now }

-- the row of the key, inserted or counted up, and the table with it
unfoldable pub count_request : ℕ → String → ℕ → List PgRateRow → ℕ × List PgRateRow
count_request now key bucket t = elim (find rate_key key t) [
  | none ↦ (1, t ++ record { key = key; count = 1; bucket = bucket; updated_at = now } ∷ [])
  | some r ↦ (r.count + 1, update rate_key key (counted now) t)
]

-- The count is committed before a refusal is raised.
unfoldable pub pg_check_rate :
    ℕ
    → String
    → String
    → PostgresWebhookSecurity
    → Result WebhookError (Unit {0}) × PostgresWebhookSecurity
unfolding count_request
pg_check_rate now channel source_key s = elim (bucket_of now s.cfg.rate_limit_window_seconds) [
  | err e ↦ (err e, s)
  | ok bucket ↦
      let key = channel +++ ":" +++ source_key +++ ":" +++ decimal bucket in
      let (n, t) = count_request now key bucket s.rate in
      if ltb s.cfg.rate_limit_max_requests n
      then (err permission_error, record s { rate = t })
      else (ok tt, record s { rate = t })
]

-- the end of `guard`
unfoldable pub pg_record_delivery :
    ℕ
    → String
    → String
    → PostgresWebhookSecurity
    → Result WebhookError String × PostgresWebhookSecurity
unfolding insert_or_replace_stale
pg_record_delivery now channel digest s =
    let x : SeenRow = record { digest = digest; channel = channel; created_at = now } in
    let (inserted, t) = insert_or_replace_stale seen_digest (is_forgotten s.cfg now) x s.seen in
    if inserted
    then (ok digest, record s { seen = t })
    else (err permission_error, record s { seen = t })

unfoldable pub pg_guard :
    (String → String)
    → ℕ
    → WebhookDelivery
    → PostgresWebhookSecurity
    → Result WebhookError String × PostgresWebhookSecurity
unfolding purge_expired pg_check_rate pg_record_delivery
pg_guard sha256 now d s = elim (check_timestamp s.cfg now d.timestamp) [
  | err e ↦ (err e, s)
  | ok _ ↦
      let (r, s1) = pg_check_rate now d.channel d.source_key (purge_expired now s) in
      elim r [
        | err e ↦ (err e, s1)
        | ok _ ↦
            pg_record_delivery now d.channel (webhook_digest sha256 d.channel d.body d.message_id)
              s1
      ]
]

-- A nonce counts as stale by the lifetime of the new claim, not by its own.
unfoldable pub pg_claim_nonce :
    (String → String)
    → ℕ
    → String
    → String
    → ℕ
    → PostgresWebhookSecurity
    → Result WebhookError (Unit {0}) × PostgresWebhookSecurity
unfolding insert_or_replace_stale
pg_claim_nonce sha256 now channel nonce ttl_seconds s =
    let ttl = max 1 ttl_seconds in
    let digest = nonce_digest sha256 channel nonce in
    let x : PgNonceRow = record {
      digest = digest;
      channel = channel;
      created_at = now;
      expires_at = now + ttl;
    } in
    let (claimed, t) =
      insert_or_replace_stale pg_nonce_digest (λ r. ltb (r.created_at + ttl) now) x s.nonces in
    if claimed then (ok tt, record s { nonces = t }) else (err permission_error, s)

-- either implementation, as the runtime holds it
pub data WebhookStore : Type 0 where
  over_sqlite : WebhookSecurity → WebhookStore
  over_postgres : PostgresWebhookSecurity → WebhookStore
