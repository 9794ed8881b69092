-- ===== src/Webhooks/Rates.antt =====
-- The limit on the deliveries of one source in one window, over SQLite.
use omni_desk_ai.Shared.{
  ℕ, ◌+◌, ◌-◌, ◌≤◌, ◌≡◌, refl, sym, ap, ◌∙◌, String, Bool, true, false, ◌&&◌, List, [], ◌∷◌, arith,
  Bool-cases, Result-cases, inl, inr, ◌⊎◌, Result, ok, err, if◌then◌else◌,
}
use mathlib.Core.Path.{subst}
use omni_desk_ai.Webhooks.Sqlite.{
  WebhookSecurity, WebhookDelivery, WebhookError, count_at, bucket_of, check_timestamp, check_rate,
  webhook_digest, guard, claim_nonce,
}
use omni_desk_ai.Webhooks.Counts.{
  same_rate, same_rate-eq, count_at-count_up, source_of_delivery, IsCounted, refused, counted,
  check_rate-IsRated, record_delivery-rate,
}
use omni_desk_ai.Webhooks.History.{WebhookCall, guard_call, nonce_call}

module _ (sha256 : String → String) where
  -- the delivery was refused and not counted, or it was counted
  abbrev IsLimited :
      ℕ → WebhookDelivery → WebhookSecurity → WebhookSecurity → Result WebhookError String → Type 0
  IsLimited now d s u r =
      ((e : WebhookError) × (r ≡ err e) × (u.rate ≡ s.rate)) ⊎ IsCounted now d s u

  guard-IsLimited :
      (now : ℕ) (d : WebhookDelivery) (s : WebhookSecurity)
      → ((guard sha256 now d s).1.cfg ≡ s.cfg)
        × IsLimited now d s (guard sha256 now d s).1 (guard sha256 now d s).0
  unfolding guard
  guard-IsLimited now d s = elim (Result-cases (check_timestamp s.cfg now d.timestamp)) [
    | inr (e, h) ↦ rw (guard, h) (refl, inl (e, refl, refl))
    | inl (x, h) ↦
        let s1 = (check_rate now d.channel d.source_key s).1 in
        elim (check_rate-IsRated now d s) [
          | refused e k same ↦
              rw (guard, h, k) (ap (λ u. u.cfg) same, inl (e, refl, ap (λ u. u.rate) same))
          | counted k c i ↦
              let digest = webhook_digest sha256 d.channel d.body d.message_id in
              let w = record_delivery-rate now d.channel digest s1 in
              rw (guard, h, k)
                (
                  w.1 ∙ c,
                  inr (record {
                    bucket = i.bucket;
                    window = i.window;
                    counts = w.0 ∙ i.counts;
                    within =
                        subst
                          (λ t.
                            count_at (source_of_delivery d) i.bucket t
                            ≤ s.cfg.rate_limit_max_requests)
                          (sym w.0) i.within;
                  }),
                )
        ]
  ]

  abbrev is_ok : Result WebhookError String → Bool
  is_ok (ok _) = true
  is_ok (err _) = false

  abbrev in_window : String → ℕ → ℕ → ℕ → WebhookDelivery → Bool
  in_window key bucket now window d = elim (bucket_of now window) [
    | err _ ↦ false
    | ok b ↦ same_rate (source_of_delivery d) b key bucket
  ]

  -- the store after a call
  unfoldable pub call_guard : WebhookCall → WebhookSecurity → WebhookSecurity
  call_guard (guard_call now d) s = (guard sha256 now d s).1
  call_guard (nonce_call now channel nonce ttl) s = (claim_nonce sha256 now channel nonce ttl s).1

  -- whether the call is an accepted delivery of the source, in the window
  unfoldable pub accepts : String → ℕ → WebhookCall → WebhookSecurity → ℕ
  accepts key bucket (guard_call now d) s =
      if in_window key bucket now s.cfg.rate_limit_window_seconds d
        && is_ok (guard sha256 now d s).0
      then 1
      else 0
  accepts key bucket (nonce_call now channel nonce ttl) s = 0

  -- the number of deliveries of the source that are accepted in the window
  unfoldable pub accepted : String → ℕ → List WebhookCall → WebhookSecurity → ℕ
  unfolding accepts call_guard
  accepted key bucket [] s = 0
  accepted key bucket (c ∷ cs) s = accepts key bucket c s + accepted key bucket cs (call_guard c s)

  -- What a call adds to the count is within the limit.
  abbrev IsWithin : String → ℕ → ℕ → WebhookSecurity → WebhookSecurity → Type 0
  IsWithin key bucket n s u =
      (count_at key bucket s.rate ≤ count_at key bucket u.rate)
      × ((n ≡ 0)
          ⊎ ((n ≡ 1)
              × (count_at key bucket u.rate ≡ count_at key bucket s.rate + 1)
              × (count_at key bucket u.rate ≤ s.cfg.rate_limit_max_requests)))

  counted-IsWithin :
      (key : String) (bucket now : ℕ) (d : WebhookDelivery) (s u : WebhookSecurity)
      → IsCounted now d s u
      → IsWithin key bucket
          (if in_window key bucket now s.cfg.rate_limit_window_seconds d then 1 else 0)
          s
          u
  counted-IsWithin key bucket now d s u i =
      let q =
        ap (count_at key bucket) i.counts
        ∙ count_at-count_up (source_of_delivery d) i.bucket key bucket s.rate in
      elim (Bool-cases (same_rate (source_of_delivery d) i.bucket key bucket)) [
        | inl e ↦
            let (k, b) = same_rate-eq (source_of_delivery d) i.bucket key bucket e in
            let n : count_at key bucket u.rate ≡ count_at key bucket s.rate + 1 = q ∙ rw e refl in
            let l : count_at key bucket u.rate ≤ s.cfg.rate_limit_max_requests =
              subst (λ x. count_at key x u.rate ≤ s.cfg.rate_limit_max_requests) b
                (subst (λ x. count_at x i.bucket u.rate ≤ s.cfg.rate_limit_max_requests) k
                  i.within) in
            rw (in_window, i.window, e) (omega (arith, n), inr (refl, n, l))
        | inr e ↦
            let n : count_at key bucket u.rate ≡ count_at key bucket s.rate + 0 = q ∙ rw e refl in
            rw (in_window, i.window, e) (omega (arith, n), inl refl)
      ]

  refused-none :
      (a : Bool) {r : Result WebhookError String} {e : WebhookError}
      → r ≡ err e
      → ◌≡◌ {A = ℕ} (if a && is_ok r then 1 else 0) 0
  refused-none a h = ground arith

  -- A delivery that is counted need not be accepted.
  fewer :
      (key : String) (bucket : ℕ) (a b : Bool) (s u : WebhookSecurity)
      → IsWithin key bucket (if a then 1 else 0) s u
      → IsWithin key bucket (if a && b then 1 else 0) s u
  fewer key bucket false b s u w = w
  fewer key bucket true true s u w = w
  fewer key bucket true false s u w = (w.0, inl refl)

  claim_nonce-rate :
      (now : ℕ) (channel nonce : String) (ttl : ℕ) (s : WebhookSecurity)
      → ((claim_nonce sha256 now channel nonce ttl s).1.cfg ≡ s.cfg)
        × ((claim_nonce sha256 now channel nonce ttl s).1.rate ≡ s.rate)
  unfolding claim_nonce
  claim_nonce-rate now channel nonce ttl s = ground arith

  call_guard-IsWithin :
      (key : String) (bucket : ℕ) (c : WebhookCall) (s : WebhookSecurity)
      → ((call_guard c s).cfg ≡ s.cfg)
        × IsWithin key bucket (accepts key bucket c s) s (call_guard c s)
  unfolding call_guard accepts
  call_guard-IsWithin key bucket (guard_call now d) s =
      let (g, l) = guard-IsLimited now d s in
      elim l [
        | inl (e, k, r) ↦ (
          g,
          (
            omega (arith, ap (count_at key bucket) r),
            inl (refused-none (in_window key bucket now s.cfg.rate_limit_window_seconds d) k),
          ),
        )
        | inr i ↦
            let w = counted-IsWithin key bucket now d s (guard sha256 now d s).1 i in
            (
              g,
              fewer key bucket (in_window key bucket now s.cfg.rate_limit_window_seconds d)
                  (is_ok (guard sha256 now d s).0) s (guard sha256 now d s).1 w,
            )
      ]
  call_guard-IsWithin key bucket (nonce_call now channel nonce ttl) s =
      let (c, r) = claim_nonce-rate now channel nonce ttl s in
      (c, (omega (arith, ap (count_at key bucket) r), inl refl))

  -- Over SQLite, however calls of guard and claim_nonce are mixed and whatever clocks they read, the
  -- deliveries of one channel and source that are accepted in one window of the rate limit are at
  -- most the limit, less what the window has counted before.
  pub accepted-le :
      (key : String) (bucket : ℕ) (cs : List WebhookCall) (s : WebhookSecurity)
      → accepted key bucket cs s ≤ s.cfg.rate_limit_max_requests - count_at key bucket s.rate
  unfolding accepted
  accepted-le key bucket [] s = omega arith
  accepted-le key bucket (c ∷ cs) s =
      let (g, w) = call_guard-IsWithin key bucket c s in
      let r =
        subst
          (λ x.
            accepted key bucket cs (call_guard c s)
            ≤ x.rate_limit_max_requests - count_at key bucket (call_guard c s).rate)
          g (accepted-le key bucket cs (call_guard c s)) in
      elim w.1 [ inl n ↦ omega (arith, r, n, w.0) | inr (n, e, l) ↦ omega (arith, r, n, e, l) ]
