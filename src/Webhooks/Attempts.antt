-- ===== src/Webhooks/Attempts.antt =====
-- One attempt of a delivery, over either implementation, as a step on the deliveries that were seen.
use omni_desk_ai.Shared.{
  ℕ, ◌≡◌, refl, ◌∙◌, String, List, Bool-cases, Result-cases, inl, inr, Result, ltb,
}
use mathlib.Core.Path.{subst}
use omni_desk_ai.Shared.Text.{◌+++◌, decimal}
use omni_desk_ai.Webhooks.Sqlite.{
  WebhookSecurityConfig, SeenRow, WebhookSecurity, WebhookDelivery, WebhookError, seen_digest,
  is_forgotten, mark_rows, mark_seen, record_delivery, webhook_digest, check_timestamp, check_rate,
  bucket_of, count_at, count_up, guard,
}
use omni_desk_ai.Webhooks.Stores.{
  PostgresWebhookSecurity, insert_or_replace_stale, purge_expired, count_request,
  pg_record_delivery, pg_check_rate, pg_guard,
}
use omni_desk_ai.Webhooks.Replays.{
  IsSeenStep, refused-IsSeenStep, reply, seen_row, mark_rows-IsSeenStep, insert-IsSeenStep,
  IsSeenStep-after, Keeps, delete_stale-Keeps,
}

-- Neither the configuration nor the deliveries that were seen change.
abbrev SameSeen : WebhookSecurity → WebhookSecurity → Type 0
SameSeen s u = (u.seen ≡ s.seen) × (u.cfg ≡ s.cfg)

check_rate-SameSeen :
    (now : ℕ) (channel source : String) (s : WebhookSecurity)
    → SameSeen s (check_rate now channel source s).1
unfolding check_rate
check_rate-SameSeen now channel source s =
    elim (Result-cases (bucket_of now s.cfg.rate_limit_window_seconds)) [
      | inr (e, h) ↦ rw (check_rate, h) (refl, refl)
      | inl (b, h) ↦
          let key = channel +++ ":" +++ source in
          elim (Bool-cases
            (ltb s.cfg.rate_limit_max_requests (count_at key b (count_up key b s.rate)))) [
              | inl k ↦ rw (check_rate, h, k) (refl, refl)
              | inr k ↦ rw (check_rate, h, k) (refl, refl)
            ]
    ]

-- The same configuration, and rows that keep what is remembered.
moved :
    (cfg cfg1 : WebhookSecurityConfig) (now : ℕ) (digest : String) (t t1 : List SeenRow)
    {u : List SeenRow} {r : Result WebhookError String}
    → cfg1 ≡ cfg
    → Keeps cfg now t t1
    → IsSeenStep cfg1 now digest t1 u r
    → IsSeenStep cfg now digest t u r
moved cfg cfg1 now digest t t1 {u} {r} p k s =
    IsSeenStep-after cfg now digest t t1 u r k (subst (λ c. IsSeenStep c now digest t1 u r) p s)

record_delivery-IsSeenStep :
    (now : ℕ) (channel digest : String) (s : WebhookSecurity)
    → ((record_delivery now channel digest s).1.cfg ≡ s.cfg)
      × IsSeenStep s.cfg now digest s.seen
          (record_delivery now channel digest s).1.seen
          (record_delivery now channel digest s).0
unfolding record_delivery mark_seen
record_delivery-IsSeenStep now channel digest s =
    let r = mark_rows s.cfg now channel digest s.seen in
    let m = mark_rows-IsSeenStep s.cfg now channel digest s.seen in
    elim (Bool-cases r.0) [
      | inl e ↦
          rw (record_delivery, mark_seen, e)
            (refl, subst (λ b. IsSeenStep s.cfg now digest s.seen r.1 (reply digest b)) e m)
      | inr e ↦
          rw (record_delivery, mark_seen, e)
            (refl, subst (λ b. IsSeenStep s.cfg now digest s.seen r.1 (reply digest b)) e m)
    ]

pg_record_delivery-IsSeenStep :
    (now : ℕ) (channel digest : String) (s : PostgresWebhookSecurity)
    → ((pg_record_delivery now channel digest s).1.cfg ≡ s.cfg)
      × IsSeenStep s.cfg now digest s.seen
          (pg_record_delivery now channel digest s).1.seen
          (pg_record_delivery now channel digest s).0
unfolding pg_record_delivery
pg_record_delivery-IsSeenStep now channel digest s =
    let r =
      insert_or_replace_stale seen_digest (is_forgotten s.cfg now) (seen_row now channel digest)
        s.seen in
    let m = insert-IsSeenStep s.cfg now channel digest s.seen s.seen (λ j x f h. f) in
    elim (Bool-cases r.0) [
      | inl e ↦
          rw (pg_record_delivery, e)
            (refl, subst (λ b. IsSeenStep s.cfg now digest s.seen r.1 (reply digest b)) e m)
      | inr e ↦
          rw (pg_record_delivery, e)
            (refl, subst (λ b. IsSeenStep s.cfg now digest s.seen r.1 (reply digest b)) e m)
    ]

-- what the purge and the rate check leave
abbrev PgSameSeen : ℕ → PostgresWebhookSecurity → PostgresWebhookSecurity → Type 0
PgSameSeen now s u = Keeps s.cfg now s.seen u.seen × (u.cfg ≡ s.cfg)

purge_expired-PgSameSeen :
    (now : ℕ) (s : PostgresWebhookSecurity) → PgSameSeen now s (purge_expired now s)
unfolding purge_expired
purge_expired-PgSameSeen now s = elim (Bool-cases (ltb now s.next_purge_at)) [
  | inl e ↦ rw (purge_expired, e) ((λ j x f h. f), refl)
  | inr e ↦ rw (purge_expired, e) (delete_stale-Keeps s.cfg now 1000 s.seen, refl)
]

pg_check_rate-PgSameSeen :
    (now : ℕ) (channel source : String) (s : PostgresWebhookSecurity)
    → ((pg_check_rate now channel source s).1.seen ≡ s.seen)
      × ((pg_check_rate now channel source s).1.cfg ≡ s.cfg)
unfolding pg_check_rate
pg_check_rate-PgSameSeen now channel source s =
    elim (Result-cases (bucket_of now s.cfg.rate_limit_window_seconds)) [
      | inr (e, h) ↦ rw (pg_check_rate, h) (refl, refl)
      | inl (b, h) ↦
          let key = channel +++ ":" +++ source +++ ":" +++ decimal b in
          elim (Bool-cases (ltb s.cfg.rate_limit_max_requests (count_request now key b s.rate).0)) [
            | inl k ↦ rw (pg_check_rate, h, k) (refl, refl)
            | inr k ↦ rw (pg_check_rate, h, k) (refl, refl)
          ]
    ]

module _ (sha256 : String → String) where
  abbrev pub digest_of : WebhookDelivery → String
  digest_of d = webhook_digest sha256 d.channel d.body d.message_id

  pub guard-IsSeenStep :
      (now : ℕ) (d : WebhookDelivery) (s : WebhookSecurity)
      → ((guard sha256 now d s).1.cfg ≡ s.cfg)
        × IsSeenStep s.cfg now
            (digest_of d)
            s.seen
            (guard sha256 now d s).1.seen
            (guard sha256 now d s).0
  unfolding guard
  guard-IsSeenStep now d s = elim (Result-cases (check_timestamp s.cfg now d.timestamp)) [
    | inr (e, h) ↦
        rw (guard, h)
          (refl, refused-IsSeenStep s.cfg now (digest_of d) s.seen s.seen e (λ j x f k. f))
    | inl (x, h) ↦
        let c = check_rate-SameSeen now d.channel d.source_key s in
        elim (Result-cases (check_rate now d.channel d.source_key s).0) [
          | inr (e, k) ↦
              rw (guard, h, k)
                (
                  c.1,
                  refused-IsSeenStep s.cfg now (digest_of d) s.seen
                      (check_rate now d.channel d.source_key s).1.seen e (λ j x f i. rw c.0 f),
                )
          | inl (y, k) ↦
              let s1 = (check_rate now d.channel d.source_key s).1 in
              let m = record_delivery-IsSeenStep now d.channel (digest_of d) s1 in
              rw (guard, h, k)
                (
                  m.0 ∙ c.1,
                  moved s.cfg s1.cfg now (digest_of d) s.seen s1.seen c.1 (λ j x f i. rw c.0 f) m.1,
                )
        ]
  ]

  pub pg_guard-IsSeenStep :
      (now : ℕ) (d : WebhookDelivery) (s : PostgresWebhookSecurity)
      → ((pg_guard sha256 now d s).1.cfg ≡ s.cfg)
        × IsSeenStep s.cfg now
            (digest_of d)
            s.seen
            (pg_guard sha256 now d s).1.seen
            (pg_guard sha256 now d s).0
  unfolding pg_guard
  pg_guard-IsSeenStep now d s = elim (Result-cases (check_timestamp s.cfg now d.timestamp)) [
    | inr (e, h) ↦
        rw (pg_guard, h)
          (refl, refused-IsSeenStep s.cfg now (digest_of d) s.seen s.seen e (λ j x f k. f))
    | inl (x, h) ↦
        let p = purge_expired now s in
        let q = purge_expired-PgSameSeen now s in
        let c = pg_check_rate-PgSameSeen now d.channel d.source_key p in
        let s1 = (pg_check_rate now d.channel d.source_key p).1 in
        let keeps : Keeps s.cfg now s.seen s1.seen = λ j y f i. rw c.0 (q.0 j y f i) in
        elim (Result-cases (pg_check_rate now d.channel d.source_key p).0) [
          | inr (e, k) ↦
              rw (pg_guard, h, k)
                (c.1 ∙ q.1, refused-IsSeenStep s.cfg now (digest_of d) s.seen s1.seen e keeps)
          | inl (y, k) ↦
              let m = pg_record_delivery-IsSeenStep now d.channel (digest_of d) s1 in
              rw (pg_guard, h, k)
                (
                  m.0 ∙ c.1 ∙ q.1,
                  moved s.cfg s1.cfg now (digest_of d) s.seen s1.seen (c.1 ∙ q.1) keeps m.1,
                )
        ]
  ]
