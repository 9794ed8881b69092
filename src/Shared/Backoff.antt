-- ===== src/Shared/Backoff.antt =====
-- The retry delay that the job queue and the outbound store both write out:
-- `now + self.base_retry_seconds * (2 ** max(0, retry_count - 1))`.
-- Times and seconds are whole numbers of one unit; `-` on ℕ is `max(0, …)`.
use Prim.Native.Nat.{ℕ, ◌+◌, ◌-◌, ◌*◌, ◌^◌}

unfoldable pub retry_at : ℕ → ℕ → ℕ → ℕ
retry_at now base retry_count = now + base * 2 ^ (retry_count - 1)
