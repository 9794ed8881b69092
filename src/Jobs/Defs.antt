-- ===== src/Jobs/Defs.antt =====
-- The rows, the state and the methods of `JobQueue` that move a job from its queueing to its end.
use omni_desk_ai.Shared.{
  ℕ, ◌+◌, String, Bool, true, false, ◌&&◌, Option, none, some, List, [], ◌∷◌, ◌++◌, ltb, leb,
  if◌then◌else◌, Result, ok, err, length, is_some,
}
use omni_desk_ai.Shared.Table.{find, update, select, oldest}
use omni_desk_ai.Shared.Text.{◌+++◌, cut, decimal, truthy, or_text}
use omni_desk_ai.Shared.Backoff.{retry_at}

pub data Status : Type 0 where
  pending running retry completed dead_letter : Status

-- core/models.py; `raw` is its JSON text
pub record ChannelMessage : Type 0 where
  pub channel : String
  pub sender_id : String
  pub text : String
  pub thread_id : Option String
  pub message_id : Option String
  pub raw : String
  pub received_at : ℕ

-- a row of the table `jobs`
pub record Job : Type 0 where
  pub id : String
  pub dedupe_key : String
  pub channel : String
  pub message_id : Option String
  pub source_key : String
  pub payload_json : String
  pub status : Status
  pub retry_count : ℕ
  pub max_retries : ℕ
  pub next_retry_at : ℕ
  pub locked_at : Option ℕ
  pub created_at : ℕ
  pub updated_at : ℕ
  pub last_error : Option String
  pub result_json : Option String

pub record JobQueue : Type 0 where
  pub max_retries : ℕ
  pub base_retry_seconds : ℕ
  pub jobs : List Job

pub data JobError : Type 0 where
  integrity_error : JobError  -- sqlite3.IntegrityError, raised again
  key_error : String → JobError
  not_dead_letter : String → JobError  -- ValueError

pub record Enqueued : Type 0 where
  pub job_id : String
  pub created : Bool
  pub dedupe_key : String

abbrev pub job_id : Job → String
job_id j = j.id

abbrev pub job_dedupe_key : Job → String
job_dedupe_key j = j.dedupe_key

abbrev pub job_created_at : Job → ℕ
job_created_at j = j.created_at

abbrev pub is_running : Status → Bool
is_running running = true
is_running _ = false

abbrev pub is_dead_letter : Status → Bool
is_dead_letter dead_letter = true
is_dead_letter _ = false

-- status IN ('pending', 'retry')
abbrev pub is_claimable : Status → Bool
is_claimable pending = true
is_claimable retry = true
is_claimable _ = false

-- `_dedupe_key`
unfoldable pub dedupe_key_of : (String → String) → String → String → Option String → String → String
dedupe_key_of sha256 channel source_key message_id payload_json = elim (truthy message_id) [
  | some m ↦ sha256 (channel +++ ":" +++ source_key +++ ":" +++ m)
  | none ↦ sha256 (channel +++ ":" +++ source_key +++ ":" +++ sha256 payload_json)
]

-- `source_key or message.thread_id or message.sender_id or "unknown"`
abbrev pub source_of : Option String → ChannelMessage → String
source_of source_key m =
    or_text source_key (or_text m.thread_id (or_text (some m.sender_id) "unknown"))

-- the row that `enqueue` inserts
abbrev pub new_job : ℕ → String → String → String → ChannelMessage → String → ℕ → Job
new_job now id key source m payload max_retries = record {
  id = id;
  dedupe_key = key;
  channel = m.channel;
  message_id = m.message_id;
  source_key = source;
  payload_json = payload;
  status = pending;
  retry_count = 0;
  max_retries = max_retries;
  next_retry_at = 0;
  locked_at = none;
  created_at = now;
  updated_at = now;
  last_error = none;
  result_json = none;
}

-- the INSERT of `enqueue`, and its handler of a violated PRIMARY KEY or UNIQUE constraint
unfoldable pub insert_job : Job → JobQueue → Result JobError Enqueued × JobQueue
insert_job j q =
    if is_some (find job_id j.id q.jobs)
    then duplicate
    else if is_some (find job_dedupe_key j.dedupe_key q.jobs)
    then duplicate
    else (
      ok (record { job_id = j.id; created = true; dedupe_key = j.dedupe_key }),
      record q { jobs = q.jobs ++ j ∷ [] },
    )
  where
    duplicate : Result JobError Enqueued × JobQueue
    duplicate = elim (find job_dedupe_key j.dedupe_key q.jobs) [
      | none ↦ (err integrity_error, q)
      | some row ↦ (ok (record { job_id = row.id; created = false; dedupe_key = j.dedupe_key }), q)
    ]

-- `sha256` is hashlib's hexdigest, `to_json` is `_message_to_json`
unfoldable pub enqueue :
    (String → String)
    → (ChannelMessage → String)
    → ℕ
    → String
    → Option String
    → ChannelMessage
    → JobQueue
    → Result JobError Enqueued × JobQueue
unfolding insert_job
enqueue sha256 to_json now id source_key m q =
    let source = source_of source_key m in
    let payload = to_json m in
    let key = dedupe_key_of sha256 m.channel source m.message_id payload in
    insert_job (new_job now id key source m payload q.max_retries) q

-- the WHERE clause of `claim_next`
abbrev pub eligible : ℕ → Job → Bool
eligible now j = is_claimable j.status && leb j.next_retry_at now

abbrev pub claim_row : ℕ → Job → Job
claim_row now j = record j { status = running; locked_at = some now; updated_at = now }

-- The row is returned as it was selected, with its old status.
unfoldable pub claim_next : ℕ → JobQueue → Option Job × JobQueue
claim_next now q = elim (oldest job_created_at (eligible now) q.jobs) [
  | none ↦ (none, q)
  | some row ↦ (some row, record q { jobs = update job_id row.id (claim_row now) q.jobs })
]

-- status='running' AND locked_at IS NOT NULL AND locked_at <= now - lease_seconds; a negative
-- lease counts as 0
abbrev pub lease_over : ℕ → ℕ → Option ℕ → Bool
lease_over now lease none = false
lease_over now lease (some at) = leb (at + lease) now

abbrev pub is_stale : ℕ → ℕ → Job → Bool
is_stale now lease j = is_running j.status && lease_over now lease j.locked_at

-- What a failed attempt writes: `row` is the row that was selected, `j` the one that is updated.
abbrev pub retry_row : ℕ → ℕ → String → String → Job → Job → Job
retry_row now base retry_error dead_error row j =
    let next_count = row.retry_count + 1 in
    if ltb row.max_retries next_count
    then record j {
      status = dead_letter;
      retry_count = next_count;
      next_retry_at = 0;
      locked_at = none;
      updated_at = now;
      last_error = some dead_error;
    }
    else record j {
      status = retry;
      retry_count = next_count;
      next_retry_at = retry_at now base next_count;
      locked_at = none;
      updated_at = now;
      last_error = some retry_error;
    }

abbrev pub stale_error : ℕ → String
stale_error lease = "stale running job recovered after " +++ decimal lease +++ "s lease"

-- the body of the loop of `recover_stale_running`
unfoldable pub recover_row : ℕ → ℕ → ℕ → Job → List Job → List Job
recover_row now base lease row =
    update job_id row.id (
      retry_row now base (stale_error lease) (stale_error lease +++ " and moved to dead_letter")
        row)

unfoldable pub recover_rows : ℕ → ℕ → ℕ → List Job → List Job → List Job
recover_rows now base lease [] jobs = jobs
recover_rows now base lease (row ∷ rows) jobs =
    recover_rows now base lease rows (recover_row now base lease row jobs)

-- the rows that `recover_stale_running` selects
unfoldable pub stale_rows : ℕ → ℕ → List Job → List Job
stale_rows now lease = select (is_stale now lease)

unfoldable pub recover_stale_running : ℕ → ℕ → JobQueue → ℕ × JobQueue
unfolding recover_rows recover_row stale_rows
recover_stale_running now lease q =
    let rows = stale_rows now lease q.jobs in
    (length rows, record q { jobs = recover_rows now q.base_retry_seconds lease rows q.jobs })

abbrev pub complete_row : ℕ → String → Job → Job
complete_row now result j = record j {
  status = completed;
  result_json = some result;
  locked_at = none;
  updated_at = now;
}

-- `result` is its JSON text
unfoldable pub complete : ℕ → String → String → JobQueue → JobQueue
complete now id result q = record q { jobs = update job_id id (complete_row now result) q.jobs }

pub record Failed : Type 0 where
  pub status : Status
  pub retry_count : ℕ
  pub next_retry_at : ℕ

abbrev pub failed : ℕ → ℕ → Job → Failed
failed now base row =
    let retry_count = row.retry_count + 1 in
    if ltb row.max_retries retry_count
    then record { status = dead_letter; retry_count = retry_count; next_retry_at = 0 }
    else record {
      status = retry;
      retry_count = retry_count;
      next_retry_at = retry_at now base retry_count;
    }

-- `error` is `str(error)`
unfoldable pub fail : ℕ → String → String → JobQueue → Result JobError Failed × JobQueue
fail now id error q = elim (find job_id id q.jobs) [
  | none ↦ (err (key_error id), q)
  | some row ↦ (
    ok (failed now q.base_retry_seconds row),
    record q {
      jobs =
          update job_id id
            (retry_row now q.base_retry_seconds (cut 4000 error) (cut 4000 error) row) q.jobs;
    },
  )
]
