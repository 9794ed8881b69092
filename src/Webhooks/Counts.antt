-- ===== src/Webhooks/Counts.antt =====
-- The counters of the rate limit over SQLite: what a request adds, and when it is refused.
use omni_desk_ai.Shared.{
  ℕ, ◌+◌, ◌≤◌, ◌≡◌, refl, String, Bool, true, false, ◌&&◌, List, [], ◌∷◌, ◌==◌, eq_iff, arith,
  Bool-cases, Result-cases, inl, inr, Result, ok, err, if◌then◌else◌, ltb, leb,
}
use omni_desk_ai.Shared.Text.{◌+++◌}
use omni_desk_ai.Webhooks.Sqlite.{
  WebhookSecurity, RateRow, WebhookDelivery, WebhookError, permission_error, count_up, count_at,
  bucket_of, check_rate, mark_seen, record_delivery,
}

abbrev pub same_rate : String → ℕ → String → ℕ → Bool
same_rate k b key bucket = k == key && (leb b bucket && leb bucket b)

pub same_rate-eq :
    (k : String) (b : ℕ) (key : String) (bucket : ℕ)
    → same_rate k b key bucket ≡ true
    → (k ≡ key) × (b ≡ bucket)
same_rate-eq k b key bucket h = ground (arith, eq_iff k key)

-- A request is counted at its own key and bucket only.
pub count_at-count_up :
    (k : String) (b : ℕ) (key : String) (bucket : ℕ) (t : List RateRow)
    → count_at key bucket (count_up k b t)
      ≡ count_at key bucket t + (if same_rate k b key bucket then 1 else 0)
unfolding count_at count_up
count_at-count_up k b key bucket [] = ground arith
count_at-count_up k b key bucket (r ∷ t) =
    ground
      (arith, eq_iff r.key k, eq_iff r.key key, eq_iff k key, count_at-count_up k b key bucket t)

abbrev pub source_of_delivery : WebhookDelivery → String
source_of_delivery d = d.channel +++ ":" +++ d.source_key

-- The request was counted in the window `b`, within the limit.
pub record IsCounted (now : ℕ) (d : WebhookDelivery) (s u : WebhookSecurity) : Type 0 where
  pub bucket : ℕ
  pub window : bucket_of now s.cfg.rate_limit_window_seconds ≡ ok bucket
  pub counts : u.rate ≡ count_up (source_of_delivery d) bucket s.rate
  pub within : count_at (source_of_delivery d) bucket u.rate ≤ s.cfg.rate_limit_max_requests

pub data IsRated (now : ℕ) (d : WebhookDelivery) (s u : WebhookSecurity)
    (r : Result WebhookError (Unit {0})) : Type 0 where
  refused : (e : WebhookError) → r ≡ err e → u ≡ s → IsRated now d s u r
  counted : r ≡ ok tt → u.cfg ≡ s.cfg → IsCounted now d s u → IsRated now d s u r

not_over : (a b : ℕ) → ltb a b ≡ false → b ≤ a
not_over a b h = ground arith

pub check_rate-IsRated :
    (now : ℕ) (d : WebhookDelivery) (s : WebhookSecurity)
    → IsRated now d s
        (check_rate now d.channel d.source_key s).1
        (check_rate now d.channel d.source_key s).0
unfolding check_rate
check_rate-IsRated now d s = elim (Result-cases (bucket_of now s.cfg.rate_limit_window_seconds)) [
  | inr (e, h) ↦ rw (check_rate, h) (refused e refl refl)
  | inl (b, h) ↦
      let key = source_of_delivery d in
      let t = count_up key b s.rate in
      let n = count_at key b t in
      elim (Bool-cases (ltb s.cfg.rate_limit_max_requests n)) [
        | inl k ↦ rw (check_rate, h, k) (refused permission_error refl refl)
        | inr k ↦
            rw (check_rate, h, k)
              (counted refl refl (record {
                bucket = b;
                window = h;
                counts = refl;
                within = not_over s.cfg.rate_limit_max_requests n k;
              }))
      ]
]

pub record_delivery-rate :
    (now : ℕ) (channel digest : String) (s : WebhookSecurity)
    → ((record_delivery now channel digest s).1.rate ≡ s.rate)
      × ((record_delivery now channel digest s).1.cfg ≡ s.cfg)
unfolding record_delivery mark_seen
record_delivery-rate now channel digest s = ground arith
