-- ===== src/Jobs/Dedupe.antt =====
-- `enqueue` and its dedupe key.
use omni_desk_ai.Shared.{
  ℕ, ◌≡◌, ◌≢◌, refl, ◌∙◌, sym, ap, String, false, Option, some, arith, ok, Option-cases, inl, inr,
  eq_iff, eq_refl,
}
use text.Mathlib.TextLemmas.{append_assoc, append-ne-nil_of_right_ne-nil, append-eq-nil_iff}
use mathlib.Core.Bool.{false≢true}
use omni_desk_ai.Shared.Table.{find, find-append}
use omni_desk_ai.Shared.Text.{◌+++◌}
use omni_desk_ai.Jobs.Defs.{
  Job, JobQueue, ChannelMessage, Enqueued, job_dedupe_key, insert_job, enqueue, dedupe_key_of,
  source_of,
}

-- The row that answers for the key of `j`.
insert_job_known :
    (j : Job) (q : JobQueue) {row : Job}
    → find job_dedupe_key j.dedupe_key q.jobs ≡ some row
    → insert_job j q
      ≡ (ok (record { job_id = row.id; created = false; dedupe_key = j.dedupe_key }), q)
unfolding insert_job
insert_job_known j q e = ground arith

insert_job_row :
    (j : Job) (q : JobQueue) {r : Enqueued}
    → (insert_job j q).0 ≡ ok r
    → (row : Job) × (find job_dedupe_key j.dedupe_key (insert_job j q).1.jobs ≡ some row)
      × (row.id ≡ r.job_id)
      × (j.dedupe_key ≡ r.dedupe_key)
unfolding insert_job
insert_job_row j q {r} e = elim (Option-cases (find job_dedupe_key j.dedupe_key q.jobs)) [
  | inl n ↦ (
    j,
    ground (arith, find-append job_dedupe_key j.dedupe_key q.jobs j, eq_refl j.dedupe_key),
    ground arith,
    ground arith,
  )
  | inr (row, f) ↦ (row, ground arith, ground arith, ground arith)
]

insert_job_duplicate :
    (j j' : Job) (q : JobQueue) {r : Enqueued}
    → (insert_job j q).0 ≡ ok r
    → j.dedupe_key ≡ j'.dedupe_key
    → insert_job j' (insert_job j q).1 ≡ (
      ok (record { job_id = r.job_id; created = false; dedupe_key = r.dedupe_key }),
      (insert_job j q).1,
    )
insert_job_duplicate j j' q {r} e k =
    let (row, found, same_id, same_key) = insert_job_row j q e in
    insert_job_known j' (insert_job j q).1 {row = row} (rw (← k) found) ∙ cc (same_id, k, same_key)

-- A message delivered twice is queued once: after `enqueue` returned a job id, a second call with the
-- same message and source, at any time and with any uuid, returns that id with `created` false, and
-- leaves the queue as it is.
pub enqueue-enqueue :
    (sha256 : String → String) (to_json : ChannelMessage → String) (now now' : ℕ) (id id' : String)
    → (source : Option String) (m : ChannelMessage) (q : JobQueue) {r : Enqueued}
    → (enqueue sha256 to_json now id source m q).0 ≡ ok r
    → enqueue sha256 to_json now' id' source m (enqueue sha256 to_json now id source m q).1 ≡ (
      ok (record { job_id = r.job_id; created = false; dedupe_key = r.dedupe_key }),
      (enqueue sha256 to_json now id source m q).1,
    )
unfolding enqueue
enqueue-enqueue sha256 to_json now now' id id' source m q e = insert_job_duplicate _ _ q e refl

dedupe_key_of_id :
    (sha256 : String → String) (channel source id payload : String)
    → id ≢ ""
    → dedupe_key_of sha256 channel source (some id) payload
      ≡ sha256 (channel +++ ":" +++ source +++ ":" +++ id)
unfolding dedupe_key_of
dedupe_key_of_id sha256 channel source id payload n = ground (arith, eq_iff id "")

-- The parts of the seed are joined by colons and not escaped, so two messages whose source and id
-- split the same text differently have one dedupe key, whatever the hash and the payloads.
pub dedupe_key_of_collides :
    (sha256 : String → String) (channel source part id payload payload' : String)
    → id ≢ ""
    → dedupe_key_of sha256 channel (source +++ ":" +++ part) (some id) payload
      ≡ dedupe_key_of sha256 channel source (some (part +++ ":" +++ id)) payload'
dedupe_key_of_collides sha256 channel source part id payload payload' n =
    dedupe_key_of_id sha256 channel (source +++ ":" +++ part) id payload n
    ∙ ap (λ s. sha256 (channel +++ ":" +++ s))
        (append_assoc source (":" +++ part) (":" +++ id)
          ∙ ap (λ s. source +++ s) (append_assoc ":" part (":" +++ id)))
    ∙ sym (
        dedupe_key_of_id sha256 channel source (part +++ ":" +++ id) payload'
          (append-ne-nil_of_right_ne-nil part (append-ne-nil_of_right_ne-nil ":" n)))

colon-ne : (s : String) → ":" +++ s ≢ ""
colon-ne s p = false≢true ((eq_iff ":" "").1 (append-eq-nil_iff.0 p).0)

source_of-some : (s : String) (m : ChannelMessage) → s ≢ "" → source_of (some s) m ≡ s
source_of-some s m n = ground (arith, eq_iff s "")

module _ (sha256 : String → String) (to_json : ChannelMessage → String) where
  -- So a message whose id is `part:mid` is lost, without an error, if its source is `source` and a
  -- message `mid` of the source `source:part` was queued on the same channel: the call reports the
  -- other message's job and leaves the queue as it is.
  pub enqueue_drops_other :
      (now now' : ℕ) (id id' source part mid : String) (m m' : ChannelMessage) (q : JobQueue)
      → {r : Enqueued} → source ≢ ""
      → mid ≢ ""
      → m.channel ≡ m'.channel
      → m.message_id ≡ some mid
      → m'.message_id ≡ some (part +++ ":" +++ mid)
      → (enqueue sha256 to_json now id (some (source +++ ":" +++ part)) m q).0 ≡ ok r
      → enqueue sha256 to_json now' id'
          (some source)
          m'
          (enqueue sha256 to_json now id (some (source +++ ":" +++ part)) m q).1
        ≡ (
          ok (record { job_id = r.job_id; created = false; dedupe_key = r.dedupe_key }),
          (enqueue sha256 to_json now id (some (source +++ ":" +++ part)) m q).1,
        )
  unfolding enqueue
  enqueue_drops_other now now' id id' source part mid m m' q ns nm c e e' done =
      insert_job_duplicate _ _ q done (
        simp
          (
            c,
            e,
            e',
            source_of-some source m' ns,
            source_of-some (source +++ ":" +++ part) m
                (append-ne-nil_of_right_ne-nil source (colon-ne part)),
          )
          (dedupe_key_of_collides sha256 m'.channel source part mid (to_json m) (to_json m') nm))
