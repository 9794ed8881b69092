-- ===== src/Webhooks/Examples.antt =====
-- Deliveries on concrete data, and the theorems at inputs that meet their hypotheses.
use omni_desk_ai.Shared.{◌-◌, ◌≤◌, ◌≡◌, ◌≢◌, refl, String, none, some, List, [], ◌∷◌, ok, arith}
use omni_desk_ai.Shared.Table.{find, delete}
use omni_desk_ai.Webhooks.Sqlite.{
  WebhookSecurityConfig, WebhookSecurity, WebhookDelivery, check_timestamp, check_rate, count_at,
  count_up, mark_rows, mark_seen, record_delivery, webhook_digest, guard,
}
use omni_desk_ai.Webhooks.Stores.{
  PostgresWebhookSecurity, over_postgres, insert_or_replace_stale, purge_expired, delete_stale,
  count_request, pg_check_rate, pg_record_delivery, pg_guard,
}
use omni_desk_ai.Webhooks.History.{WebhookCall, guard_call, nonce_call, receive, run, receive_once}
use omni_desk_ai.Webhooks.Rates.{accepted, accepted-le}

abbrev sha256 : String → String
sha256 s = s

abbrev cfg : WebhookSecurityConfig
cfg = record {
  replay_ttl_seconds = 300;
  seen_retention_seconds = 604800;
  rate_limit_window_seconds = 60;
  rate_limit_max_requests = 2;
}

abbrev store : PostgresWebhookSecurity
store = record { cfg = cfg; next_purge_at = 0; seen = []; rate = []; nonces = [] }

abbrev sqlite_store : WebhookSecurity
sqlite_store = record { cfg = cfg; seen = []; rate = []; nonces = [] }

abbrev delivery : String → WebhookDelivery
delivery id = record {
  channel = "lark";
  body = "{}";
  source_key = "u";
  message_id = some id;
  timestamp = none;
}

accepts_first : (receive sha256 1000 (delivery "1") (over_postgres store)).0 ≡ ok "lark:1"
unfolding receive pg_guard check_timestamp purge_expired delete_stale pg_check_rate count_request
    pg_record_delivery insert_or_replace_stale webhook_digest find
accepts_first = refl

abbrev between : List WebhookCall
between =
    guard_call 1001 (delivery "2")
    ∷ nonce_call 1070 "x" "n" 60
    ∷ guard_call 600000 (delivery "3")
    ∷ []

receive_once_example :
    (receive sha256 600100
      (delivery "1")
      (run sha256 between (receive sha256 1000 (delivery "1") (over_postgres store)).1)).0
    ≢ ok "lark:1"
receive_once_example =
    receive_once sha256 1000 600100 (delivery "1") (delivery "1") between (over_postgres store)
      accepts_first refl (omega arith) (omega arith) "lark:1"

-- of three deliveries in one window two are accepted
abbrev three : List WebhookCall
three =
    guard_call 1000 (delivery "1")
    ∷ guard_call 1001 (delivery "2")
    ∷ guard_call 1002 (delivery "3")
    ∷ []

accepts_two : accepted sha256 "lark:u" 16 three sqlite_store ≡ 2
unfolding accepted guard check_timestamp check_rate count_at count_up record_delivery mark_seen
    mark_rows webhook_digest find delete
accepts_two = refl

accepted-le_example :
    accepted sha256 "lark:u" 16 three sqlite_store ≤ 2 - count_at "lark:u" 16 sqlite_store.rate
accepted-le_example = accepted-le sha256 "lark:u" 16 three sqlite_store
