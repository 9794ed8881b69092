-- ===== src/BreakGlass/Openings.antt =====
-- `open` and `request_delegated` append a row that goes back to the call, over either store.
use omni_desk_ai.Shared.{ℕ, ◌≡◌, refl, sym, ◌∙◌, String, true, false, inl, inr, Result-cases}
use omni_desk_ai.BreakGlass.Rules.{
  active, pending_second_approval, BreakGlassStore, validate_self_session,
  validate_delegated_request,
}
use omni_desk_ai.BreakGlass.Sqlite.{
  opened_row, requested_row, new_session, open_session, request_delegated,
}
use omni_desk_ai.BreakGlass.Stores.{pg_open_session, pg_request_delegated}
use omni_desk_ai.BreakGlass.History.{open_call, request_call, Opens, Requests}
use omni_desk_ai.BreakGlass.Changes.{
  IsChange, same, validate-ok, validate_self-ok, validate_delegated-ok, insert_session-IsChange,
  pg_insert-insert,
}

pub open_session-IsChange :
    (now : ℕ) (id actor reason by : String) (ttl : ℕ) (meta : String) (s : BreakGlassStore)
    → IsChange
        (open_call now id actor reason by ttl meta)
        s.rows
        (open_session now id actor reason by ttl meta s).1.rows
unfolding open_session
open_session-IsChange now id actor reason by ttl meta s =
    elim (Result-cases (validate_self_session actor by reason ttl)) [
      | inr (e, h) ↦ same (rw (open_session, h) refl)
      | inl (v, h) ↦
          let (k, q) = validate_self-ok actor by reason ttl h in
          let (a, b, lo, hi) = validate-ok actor by reason ttl k in
          let r = opened_row now id ttl meta v in
          let n : Opens r (open_call now id actor reason by ttl meta) = record {
            now = now;
            for_actor = actor;
            reason = reason;
            by = by;
            ttl = ttl;
            meta = meta;
            call = refl;
            same_actor = a;
            same_by = b ∙ sym q;
            kept_by = sym q;
            some_time = lo;
            within_hour = hi;
            until = refl;
          } in
          rw (open_session, h)
            (insert_session-IsChange (open_call now id actor reason by ttl meta) r
              (new_session true active r) _ s (refl, inl (refl, n)))
    ]

pub request_delegated-IsChange :
    (now : ℕ) (id actor reason by : String) (ttl window : ℕ) (meta : String) (s : BreakGlassStore)
    → IsChange
        (request_call now id actor reason by ttl window meta)
        s.rows
        (request_delegated now id actor reason by ttl window meta s).1.rows
unfolding request_delegated
request_delegated-IsChange now id actor reason by ttl window meta s =
    elim (Result-cases (validate_delegated_request actor by reason ttl window)) [
      | inr (e, h) ↦ same (rw (request_delegated, h) refl)
      | inl (v, h) ↦
          let (k, q) = validate_delegated-ok actor by reason ttl window h in
          let (a, b, lo, hi) = validate-ok actor by reason ttl k in
          let r = requested_row now id ttl window meta v in
          let n : Requests r (request_call now id actor reason by ttl window meta) = record {
            now = now;
            for_actor = actor;
            reason = reason;
            by = by;
            ttl = ttl;
            window = window;
            meta = meta;
            call = refl;
            same_actor = a;
            same_by = b;
            distinct = q;
            lifetime = refl;
            some_time = lo;
            within_hour = hi;
          } in
          rw (request_delegated, h)
            (insert_session-IsChange (request_call now id actor reason by ttl window meta) r
              (new_session false pending_second_approval r) _ s (refl, inr (refl, n)))
    ]

pub pg_open-open :
    (now : ℕ) (id actor reason by : String) (ttl : ℕ) (meta : String) (s : BreakGlassStore)
    → pg_open_session now id actor reason by ttl meta s
      ≡ open_session now id actor reason by ttl meta s
unfolding pg_open_session open_session
pg_open-open now id actor reason by ttl meta s =
    elim (Result-cases (validate_self_session actor by reason ttl)) [
      | inr (e, h) ↦ rw (pg_open_session, open_session, h) refl
      | inl (v, h) ↦ rw (pg_open_session, open_session, h) (pg_insert-insert _ _ _ s)
    ]

pub pg_request-request :
    (now : ℕ) (id actor reason by : String) (ttl window : ℕ) (meta : String) (s : BreakGlassStore)
    → pg_request_delegated now id actor reason by ttl window meta s
      ≡ request_delegated now id actor reason by ttl window meta s
unfolding pg_request_delegated request_delegated
pg_request-request now id actor reason by ttl window meta s =
    elim (Result-cases (validate_delegated_request actor by reason ttl window)) [
      | inr (e, h) ↦ rw (pg_request_delegated, request_delegated, h) refl
      | inl (v, h) ↦ rw (pg_request_delegated, request_delegated, h) (pg_insert-insert _ _ _ s)
    ]
