-- ===== src/Webhooks/History.antt =====
-- Sequences of deliveries and nonces, over either implementation.
use omni_desk_ai.Shared.{
  ℕ, ◌+◌, ◌≤◌, ◌≡◌, ◌≢◌, sym, ap, ◌∙◌, String, some, List, [], ◌∷◌, arith, All, Result, ok,
}
use mathlib.Core.Path.{subst}
use omni_desk_ai.Shared.Table.{find}
use omni_desk_ai.Webhooks.Sqlite.{
  WebhookSecurityConfig, SeenRow, WebhookSecurity, WebhookDelivery, WebhookError, seen_digest,
  retention, guard, claim_nonce,
}
use omni_desk_ai.Webhooks.Stores.{
  PostgresWebhookSecurity, WebhookStore, over_sqlite, over_postgres, pg_guard, pg_claim_nonce,
}
use omni_desk_ai.Webhooks.Replays.{IsSeenStep}
use omni_desk_ai.Webhooks.Attempts.{digest_of, guard-IsSeenStep, pg_guard-IsSeenStep}

abbrev pub seen_of : WebhookStore → List SeenRow
seen_of (over_sqlite s) = s.seen
seen_of (over_postgres s) = s.seen

abbrev pub cfg_of : WebhookStore → WebhookSecurityConfig
cfg_of (over_sqlite s) = s.cfg
cfg_of (over_postgres s) = s.cfg

-- A call of `guard` or `claim_nonce`, with the clock that it reads.
pub data WebhookCall : Type 0 where
  guard_call : ℕ → WebhookDelivery → WebhookCall
  nonce_call : ℕ → String → String → ℕ → WebhookCall

abbrev pub time_of : WebhookCall → ℕ
time_of (guard_call now _) = now
time_of (nonce_call now _ _ _) = now

module _ (sha256 : String → String) where
  unfoldable pub receive :
      ℕ → WebhookDelivery → WebhookStore → Result WebhookError String × WebhookStore
  receive now d (over_sqlite s) = let (r, u) = guard sha256 now d s in (r, over_sqlite u)
  receive now d (over_postgres s) = let (r, u) = pg_guard sha256 now d s in (r, over_postgres u)

  unfoldable pub step : WebhookCall → WebhookStore → WebhookStore
  unfolding receive
  step (guard_call now d) s = (receive now d s).1
  step (nonce_call now channel nonce ttl) (over_sqlite s) =
      over_sqlite (claim_nonce sha256 now channel nonce ttl s).1
  step (nonce_call now channel nonce ttl) (over_postgres s) =
      over_postgres (pg_claim_nonce sha256 now channel nonce ttl s).1

  unfoldable pub run : List WebhookCall → WebhookStore → WebhookStore
  unfolding step
  run [] s = s
  run (c ∷ cs) s = run cs (step c s)

  receive-IsSeenStep :
      (now : ℕ) (d : WebhookDelivery) (s : WebhookStore)
      → (cfg_of (receive now d s).1 ≡ cfg_of s)
        × IsSeenStep
            (cfg_of s)
            now
            (digest_of sha256 d)
            (seen_of s)
            (seen_of (receive now d s).1)
            (receive now d s).0
  unfolding receive
  receive-IsSeenStep now d (over_sqlite s) = guard-IsSeenStep sha256 now d s
  receive-IsSeenStep now d (over_postgres s) = pg_guard-IsSeenStep sha256 now d s

  -- A nonce has rows of its own.
  claim_nonce-same :
      (now : ℕ) (channel nonce : String) (ttl : ℕ) (s : WebhookSecurity)
      → ((claim_nonce sha256 now channel nonce ttl s).1.cfg ≡ s.cfg)
        × ((claim_nonce sha256 now channel nonce ttl s).1.seen ≡ s.seen)
  unfolding claim_nonce
  claim_nonce-same now channel nonce ttl s = ground arith

  pg_claim_nonce-same :
      (now : ℕ) (channel nonce : String) (ttl : ℕ) (s : PostgresWebhookSecurity)
      → ((pg_claim_nonce sha256 now channel nonce ttl s).1.cfg ≡ s.cfg)
        × ((pg_claim_nonce sha256 now channel nonce ttl s).1.seen ≡ s.seen)
  unfolding pg_claim_nonce
  pg_claim_nonce-same now channel nonce ttl s = ground arith

  -- A row is kept by a call at a time when it is remembered.
  step-keeps :
      (c : WebhookCall) (s : WebhookStore) (j : String) (x : SeenRow)
      → find seen_digest j (seen_of s) ≡ some x
      → time_of c ≤ x.created_at + retention (cfg_of s)
      → (cfg_of (step c s) ≡ cfg_of s) × (find seen_digest j (seen_of (step c s)) ≡ some x)
  unfolding step
  step-keeps (guard_call now d) s j x f h =
      let i = receive-IsSeenStep now d s in (i.0, i.1.kept j x f h)
  step-keeps (nonce_call now channel nonce ttl) (over_sqlite s) j x f h =
      let i = claim_nonce-same now channel nonce ttl s in (i.0, ap (find seen_digest j) i.1 ∙ f)
  step-keeps (nonce_call now channel nonce ttl) (over_postgres s) j x f h =
      let i = pg_claim_nonce-same now channel nonce ttl s in (i.0, ap (find seen_digest j) i.1 ∙ f)

  run-keeps :
      (cs : List WebhookCall) (s : WebhookStore) (j : String) (x : SeenRow)
      (cfg : WebhookSecurityConfig)
      → cfg_of s ≡ cfg
      → find seen_digest j (seen_of s) ≡ some x
      → All (λ c. time_of c ≤ x.created_at + retention cfg) cs
      → (cfg_of (run cs s) ≡ cfg) × (find seen_digest j (seen_of (run cs s)) ≡ some x)
  unfolding run
  run-keeps [] s j x cfg e f a = (e, f)
  run-keeps (c ∷ cs) s j x cfg e f a =
      let k =
        step-keeps c s j x f (subst (λ g. time_of c ≤ x.created_at + retention g) (sym e) a.0) in
      run-keeps cs (step c s) j x cfg (k.0 ∙ e) k.1 a.1

  -- Over SQLite or Postgres: a delivery that `guard` accepted is not accepted again, whatever other
  -- deliveries and nonces come between, as long as their times and its own lie within the retention
  -- time from the first. It is the same delivery if the digests of its channel and of its message id,
  -- or body without one, are the same.
  pub receive_once :
      (t now : ℕ) (d d2 : WebhookDelivery) (cs : List WebhookCall) (s : WebhookStore)
      {digest : String}
      → (receive t d s).0 ≡ ok digest
      → digest_of sha256 d2 ≡ digest_of sha256 d
      → All (λ c. time_of c ≤ t + retention (cfg_of s)) cs
      → now ≤ t + retention (cfg_of s)
      → (answer : String) → (receive now d2 (run cs (receive t d s).1)).0 ≢ ok answer
  receive_once t now d d2 cs s {digest} h e a b =
      let (g, i) = receive-IsSeenStep t d s in
      let (x, f, at) = i.fresh digest h in
      let u = run cs (receive t d s).1 in
      let k =
        run-keeps cs (receive t d s).1 (digest_of sha256 d) x (cfg_of s) g f
          (subst (λ m. All (λ c. time_of c ≤ m + retention (cfg_of s)) cs) (sym at) a) in
      let w = subst (λ m. now ≤ m + retention (cfg_of s)) (sym at) b in
      (receive-IsSeenStep now d2 u).1.once x (ap (λ i. find seen_digest i (seen_of u)) e ∙ k.1)
        (subst (λ g2. now ≤ x.created_at + retention g2) (sym k.0) w)
