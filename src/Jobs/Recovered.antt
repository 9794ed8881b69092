-- ===== src/Jobs/Recovered.antt =====
-- What `recover_stale_running` promises of each job, in terms of its lease and its retries.
use omni_desk_ai.Shared.{
  ℕ, ◌+◌, ◌≤◌, ◌<◌, ◌≡◌, refl, sym, ◌∙◌, String, true, none, some, List, [], ◌∷◌, map, arith,
  Bool-cases, Option-cases, inl, inr, eq_iff,
}
use mathlib.Core.Bool.{false≢true}
use omni_desk_ai.Shared.Table.{find}
use omni_desk_ai.Shared.Backoff.{retry_at}
use omni_desk_ai.Jobs.Defs.{
  Job, JobQueue, running, retry, dead_letter, job_id, is_stale, recover_stale_running,
}
use omni_desk_ai.Jobs.Invariant.{IsValid}
use omni_desk_ai.Jobs.Recovery.{recovered, recover_each, recover_stale_running-eq-map}

-- A worker holds the job, since at least the lease.
pub record IsOver (now lease : ℕ) (j : Job) : Type 0 where
  pub since : ℕ
  pub held : j.status ≡ running
  pub locked : j.locked_at ≡ some since
  pub over : since + lease ≤ now

-- `j'` is `j` after one more failed attempt, released: it is to be retried after the backoff while
-- it is within its limit of retries, and dead beyond.
pub record IsGivenBack (now base : ℕ) (j j' : Job) : Type 0 where
  pub same_id : j'.id ≡ j.id
  pub same_payload : j'.payload_json ≡ j.payload_json
  pub same_limit : j'.max_retries ≡ j.max_retries
  pub counted : j'.retry_count ≡ j.retry_count + 1
  pub released : j'.locked_at ≡ none
  pub retried :
      j.retry_count < j.max_retries
      → (j'.status ≡ retry) × (j'.next_retry_at ≡ retry_at now base (j.retry_count + 1))
  pub dead : j.max_retries ≤ j.retry_count → (j'.status ≡ dead_letter) × (j'.next_retry_at ≡ 0)

-- What a recovery does with a job: one whose lease is over is given back, any other is kept.
pub data IsRecovered (now base lease : ℕ) (j j' : Job) : Type 0 where
  given_back : IsOver now lease j → IsGivenBack now base j j' → IsRecovered now base lease j j'
  kept : ¬ IsOver now lease j → j' ≡ j → IsRecovered now base lease j j'

is_stale-IsOver : (now lease : ℕ) (j : Job) → is_stale now lease j ≡ true → IsOver now lease j
is_stale-IsOver now lease j h = elim (Option-cases j.locked_at) [
  | inl e ↦ ground arith
  | inr (at, e) ↦ record { since = at; held = ground arith; locked = e; over = ground arith }
]

IsOver-is_stale : (now lease : ℕ) (j : Job) → IsOver now lease j → is_stale now lease j ≡ true
IsOver-is_stale now lease j o = ground (arith, o.held, o.locked, o.over)

recovered-IsGivenBack :
    (now base lease : ℕ) (j : Job) → IsGivenBack now base j (recovered now base lease j)
recovered-IsGivenBack now base lease j = record {
  same_id = ground arith;
  same_payload = ground arith;
  same_limit = ground arith;
  counted = ground arith;
  released = ground arith;
  retried = λ h. ground (arith, h);
  dead = λ h. ground (arith, h);
}

recover_each-IsRecovered :
    (now base lease : ℕ) (j : Job) → IsRecovered now base lease j (recover_each now base lease j)
recover_each-IsRecovered now base lease j = elim (Bool-cases (is_stale now lease j)) [
  | inl s ↦
      rw (s, recover_each)
        (given_back (is_stale-IsOver now lease j s) (recovered-IsGivenBack now base lease j))
  | inr s ↦
      rw (s, recover_each) (kept (λ o. false≢true (sym s ∙ IsOver-is_stale now lease j o)) refl)
]

id-recover_each : (now base lease : ℕ) (j : Job) → (recover_each now base lease j).id ≡ j.id
id-recover_each now base lease j = ground arith

find-map :
    (f : Job → Job) (id : String) (t : List Job) {row : Job}
    → ((j : Job) → (f j).id ≡ j.id)
    → find job_id id t ≡ some row
    → find job_id id (map f t) ≡ some (f row)
unfolding find
find-map f id [] keep e = ground arith
find-map f id (j ∷ t) {row} keep e =
    ground (arith, keep j, eq_iff j.id id, find-map f id t {row = row} keep)

-- A recovery on a valid queue gives every job back whose worker has held it for the lease or longer,
-- with one more attempt counted and the lock released: to retry after the backoff while it has
-- retries left, to the dead letters otherwise. Every other job is kept as it is.
pub recover_stale_running-IsRecovered :
    (now lease : ℕ) (q : JobQueue) (id : String) {row : Job}
    → IsValid q
    → find job_id id q.jobs ≡ some row
    → (row' : Job) × (find job_id id (recover_stale_running now lease q).1.jobs ≡ some row')
      × IsRecovered now q.base_retry_seconds lease row row'
recover_stale_running-IsRecovered now lease q id {row} v e =
    let base = q.base_retry_seconds in
    rw (recover_stale_running-eq-map now lease q v) (
      recover_each now base lease row,
      find-map (recover_each now base lease) id q.jobs (id-recover_each now base lease) e,
      recover_each-IsRecovered now base lease row,
    )
