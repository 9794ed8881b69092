-- ===== src/Outbound/Outcomes.antt =====
-- What one round of the dispatcher leaves behind.
use omni_desk_ai.Shared.{
  ltb, if◌then◌else◌, ◌||◌, ℕ, ◌+◌, ◌≡◌, refl, String, Bool, true, false, not, Option, some, arith,
  ok, err, Result,
}
use omni_desk_ai.Shared.Table.{find, oldest, find-update_found}
use omni_desk_ai.Shared.Text.{cut}
use omni_desk_ai.Outbound.Defs.{
  Status, Message, Outbox, ambiguous, dead_letter, retry, message_id, message_created_at, eligible,
  claim_row, claim_next, retry_row, sent_row, mark_sent,
}
use omni_desk_ai.Outbound.Marks.{ambiguous_row, mark_ambiguous, mark_failed}
use omni_desk_ai.Outbound.Invariant.{IsValid, claimed_row, id-retry_row}
use omni_desk_ai.Outbound.Provider.{
  Failure, ChannelErrorInfo, classify_channel_error, info, rules, pick_lem,
  capability_for-not_native,
}
use omni_desk_ai.Outbound.Readings.{settled_as, settled_status, classify-settled}
use omni_desk_ai.Outbound.Dispatch.{
  Environment, Delivery, deliver, is_uncertain, handle_failure, settle, run_once, request_key,
}

-- A send whose outcome is uncertain, and a failure that is dead at once, as the rules read them.
abbrev IsCoherent : ChannelErrorInfo → Type 0
IsCoherent info =
    (is_uncertain info ≡ true → info.retryable ≡ true) × (info.dead_letter_now ≡ not info.retryable)

classify-IsCoherent : (exc : Failure) → IsCoherent (classify_channel_error exc)
unfolding classify_channel_error is_uncertain
classify-IsCoherent exc =
    pick_lem IsCoherent (info "unknown" true false false exc.status_code) (rules exc) (ground arith)
      (ground arith)

module _ (later : ℕ) (m : Message) (s : Outbox) (t : Message) where
  -- The claimed row stands in the table, with its retry counters as they were selected.
  record IsClaimed : Type 0 where
    found : find message_id m.id s.messages ≡ some t
    same_count : t.retry_count ≡ m.retry_count
    same_limit : t.max_retries ≡ m.max_retries

  SettlesTo : Status → Outbox → Type 0
  SettlesTo status s' =
      (row' : Message) × (find message_id m.id s'.messages ≡ some row') × (row'.status ≡ status)

  mark_failed-SettlesTo :
      (error category : String) (dead : Bool)
      → IsClaimed
      → SettlesTo
          (if dead || ltb t.max_retries (t.retry_count + 1) then dead_letter else retry)
          (mark_failed later m.id error dead category s).1
  unfolding SettlesTo mark_failed
  mark_failed-SettlesTo error category dead c =
      let e = cut 4000 error in
      let f = retry_row later s.base_retry_seconds dead e e (some category) t in
      (
        f t,
        rw (c.found, mark_failed)
            (find-update_found message_id m.id f s.messages
              (id-retry_row later s.base_retry_seconds dead e e (some category) t) c.found),
        ground arith,
      )

  mark_ambiguous-SettlesTo :
      (error category : String) (request : Option String)
      → IsClaimed
      → SettlesTo ambiguous (mark_ambiguous later m.id error category request s).1
  unfolding SettlesTo mark_ambiguous
  mark_ambiguous-SettlesTo error category request c =
      let f = ambiguous_row later error category request in
      (
        f t,
        rw (c.found, mark_ambiguous)
            (find-update_found message_id m.id f s.messages (λ x. refl) c.found),
        refl,
      )

  handle_failure-SettlesTo :
      (exc : Failure)
      → IsClaimed
      → SettlesTo (settled_as m (classify_channel_error exc)) (handle_failure later m exc s)
  unfolding handle_failure settled_as
  handle_failure-SettlesTo exc c =
      let info = classify_channel_error exc in
      ground (
        arith,
        classify-IsCoherent exc,
        capability_for-not_native m.channel,
        mark_ambiguous-SettlesTo exc.text info.category (some (request_key m)) c,
        mark_failed-SettlesTo exc.text info.category (info.dead_letter_now || not info.retryable) c,
        c.same_count,
        c.same_limit,
      )

  settle-SettlesTo :
      (r : Result Failure Delivery)
      → IsClaimed
      → SettlesTo (settled_status m r) (settle later m r s)
  unfolding settle settled_status
  settle-SettlesTo (ok d) c =
      unfold SettlesTo mark_sent in
      ((
        sent_row later d.provider_message_id d.provider_request_id t,
        find-update_found message_id m.id
            (sent_row later d.provider_message_id d.provider_request_id) s.messages (λ x. refl)
            c.found,
        refl,
      ))
  settle-SettlesTo (err exc) c = rw⁻¹ (classify-settled m exc) (handle_failure-SettlesTo exc c)

pub claimed-oldest :
    (now : ℕ) (s : Outbox) {m : Message}
    → (claim_next now s).0 ≡ some m
    → oldest message_created_at (eligible now) s.messages ≡ some m
unfolding claim_next
claimed-oldest now s e = ground arith

claim_next-IsClaimed :
    (now later : ℕ) (s : Outbox) {m : Message}
    → IsValid s
    → (claim_next now s).0 ≡ some m
    → IsClaimed later m (claim_next now s).1 (claim_row now m)
claim_next-IsClaimed now later s {m} v e =
    let o = claimed-oldest now s e in
    record {
      found =
          unfold claim_next in
          (rw (o, claim_next)
            (find-update_found message_id m.id (claim_row now) s.messages (λ x. refl)
              (claimed_row now s v o).0));
      same_count = refl;
      same_limit = refl;
    }

run_once-settle :
    (env : Environment) (now later : ℕ) (s : Outbox) {m : Message}
    → (claim_next now s).0 ≡ some m
    → (run_once env now later s).1 ≡ settle later m (deliver env m) (claim_next now s).1
unfolding run_once
run_once-settle env now later s e = rw (e, run_once)

-- On a valid outbox, a round that claims a message leaves its row in the status that the outcome of
-- its delivery asks for. A delivered message is sent. A failure with status 429, or whose text speaks
-- of a rate limit or too many requests, is put back to retry while the message has retries left, and
-- is dead otherwise. Of the others, one with a status from 500 to 599, or whose text speaks of a
-- timeout, a network error, a connection reset or a transport error, is ambiguous; one that its
-- status (400, 401, 403) or its text marks as permanent is dead; and any other is put back to retry
-- or dead like the first.
pub run_once-settled_status :
    (env : Environment) (now later : ℕ) (s : Outbox) {m : Message}
    → IsValid s
    → (claim_next now s).0 ≡ some m
    → (row' : Message) × (find message_id m.id (run_once env now later s).1.messages ≡ some row')
      × (row'.status ≡ settled_status m (deliver env m))
unfolding SettlesTo
run_once-settled_status env now later s {m} v e = rw (run_once-settle env now later s e) (
    settle-SettlesTo later m (claim_next now s).1 (claim_row now m) (deliver env m)
      (claim_next-IsClaimed now later s v e))
