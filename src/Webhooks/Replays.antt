-- ===== src/Webhooks/Replays.antt =====
-- A delivery that was accepted is refused for as long as it is remembered.
use omni_desk_ai.Shared.{
  ℕ, zero, suc, ◌+◌, ◌≤◌, ◌≡◌, ◌≢◌, refl, sym, ◌∙◌, String, Bool, true, false, none, some, List, [],
  ◌∷◌, ◌++◌, eq_refl, arith, Option-cases, Bool-cases, inl, inr, if◌then◌else◌, Result, ok, err,
}
use mathlib.Core.Path.{subst}
use omni_desk_ai.Shared.Table.{
  find, update, delete, find-append, find-delete_keeps, find-replace, find-replace_ne,
}
use omni_desk_ai.Webhooks.Sqlite.{
  WebhookSecurityConfig, SeenRow, WebhookError, permission_error, seen_digest, retention,
  is_forgotten, mark_rows,
}
use omni_desk_ai.Webhooks.Stores.{insert_or_replace_stale, delete_stale}

-- What an attempt to record `digest` at `now`, with answer `r`, does to the rows.
pub record IsSeenStep (cfg : WebhookSecurityConfig) (now : ℕ) (digest : String) (t u : List SeenRow)
    (r : Result WebhookError String) : Type 0 where
  pub kept :
      (j : String) (x : SeenRow)
      → find seen_digest j t ≡ some x
      → now ≤ x.created_at + retention cfg
      → find seen_digest j u ≡ some x
  pub fresh :
      (d : String)
      → r ≡ ok d
      → (x : SeenRow) × (find seen_digest digest u ≡ some x) × (x.created_at ≡ now)
  pub once :
      (x : SeenRow)
      → find seen_digest digest t ≡ some x
      → now ≤ x.created_at + retention cfg
      → (d : String) → r ≢ ok d

not_forgotten :
    (cfg : WebhookSecurityConfig) (now : ℕ) (x : SeenRow)
    → now ≤ x.created_at + retention cfg
    → is_forgotten cfg now x ≡ false
not_forgotten cfg now x h = ground arith

err-ne-ok : (e : WebhookError) (d : String) → ◌≢◌ {A = Result WebhookError String} (err e) (ok d)
err-ne-ok e d h = ground arith

some-ne-none : (x : SeenRow) → some x ≢ none
some-ne-none x h = ground arith

-- an attempt that is refused before the rows are read
pub refused-IsSeenStep :
    (cfg : WebhookSecurityConfig) (now : ℕ) (digest : String) (t u : List SeenRow)
    (e : WebhookError)
    → ((j : String) (x : SeenRow)
        → find seen_digest j t ≡ some x
        → now ≤ x.created_at + retention cfg
        → find seen_digest j u ≡ some x)
    → IsSeenStep cfg now digest t u (err e)
refused-IsSeenStep cfg now digest t u e k = record {
  kept = k;
  fresh = λ d h. absurd (err-ne-ok e d h);
  once = λ x f h d. err-ne-ok e d;
}

abbrev pub seen_row : ℕ → String → String → SeenRow
seen_row now channel digest = record { digest = digest; channel = channel; created_at = now }

-- `u` has the rows of `t` that are remembered at `now`.
abbrev pub Keeps : WebhookSecurityConfig → ℕ → List SeenRow → List SeenRow → Type 0
Keeps cfg now t u =
    (j : String) (x : SeenRow)
    → find seen_digest j t ≡ some x
    → now ≤ x.created_at + retention cfg
    → find seen_digest j u ≡ some x

-- a new row
appended-IsSeenStep :
    (cfg : WebhookSecurityConfig) (now : ℕ) (channel digest : String) (t u : List SeenRow)
    → Keeps cfg now t u
    → find seen_digest digest u ≡ none
    → IsSeenStep cfg now digest t (u ++ seen_row now channel digest ∷ []) (ok digest)
appended-IsSeenStep cfg now channel digest t u k e =
    let row = seen_row now channel digest in
    record {
      kept = λ j x f h. find-append seen_digest j u row ∙ rw (k j x f h) refl;
      fresh =
          λ d h. (row, find-append seen_digest digest u row ∙ rw (e, eq_refl digest) refl, refl);
      once = λ x f h d. absurd (some-ne-none x (sym (k digest x f h) ∙ e));
    }

abbrev pub reply : String → Bool → Result WebhookError String
reply digest b = if b then ok digest else err permission_error

pub mark_rows-IsSeenStep :
    (cfg : WebhookSecurityConfig) (now : ℕ) (channel digest : String) (t : List SeenRow)
    → IsSeenStep cfg now digest t
        (mark_rows cfg now channel digest t).1
        (reply digest (mark_rows cfg now channel digest t).0)
unfolding mark_rows
mark_rows-IsSeenStep cfg now channel digest t =
    let u = delete (is_forgotten cfg now) t in
    let k : Keeps cfg now t u = λ j x f h.
      find-delete_keeps seen_digest (is_forgotten cfg now) j t f (not_forgotten cfg now x h) in
    elim (Option-cases (find seen_digest digest u)) [
      | inl e ↦ rw (mark_rows, e) (appended-IsSeenStep cfg now channel digest t u k e)
      | inr (y, e) ↦ rw (mark_rows, e) (refused-IsSeenStep cfg now digest t u permission_error k)
    ]

-- A stale row is replaced, and is not one that is remembered.
replaced-IsSeenStep :
    (cfg : WebhookSecurityConfig) (now : ℕ) (channel digest : String) (t u : List SeenRow)
    {y : SeenRow}
    → Keeps cfg now t u
    → find seen_digest digest u ≡ some y
    → is_forgotten cfg now y ≡ true
    → IsSeenStep cfg now digest t
        (update seen_digest digest (λ _. seen_row now channel digest) u)
        (ok digest)
replaced-IsSeenStep cfg now channel digest t u {y} k e s =
    let row = seen_row now channel digest in
    let away : (x : SeenRow)
        → find seen_digest digest t ≡ some x
        → now ≤ x.created_at + retention cfg
        → ⊥ =
      λ x f h. ground (arith, k digest x f h) in
    record {
      kept = λ j x f h.
          find-replace_ne seen_digest row j u
            (λ p. away x (subst (λ i. find seen_digest i t ≡ some x) (sym p) f) h)
          ∙ k j x f h;
      fresh = λ d h. (row, find-replace seen_digest row u e, refl);
      once = λ x f h d _. away x f h;
    }

pub insert-IsSeenStep :
    (cfg : WebhookSecurityConfig) (now : ℕ) (channel digest : String) (t u : List SeenRow)
    → Keeps cfg now t u
    → let r =
        insert_or_replace_stale seen_digest
          (is_forgotten cfg now)
          (seen_row now channel digest)
          u in
      IsSeenStep cfg now digest t r.1 (reply digest r.0)
unfolding insert_or_replace_stale
insert-IsSeenStep cfg now channel digest t u k = elim (Option-cases (find seen_digest digest u)) [
  | inl e ↦ rw (insert_or_replace_stale, e) (appended-IsSeenStep cfg now channel digest t u k e)
  | inr (y, e) ↦ elim (Bool-cases (is_forgotten cfg now y)) [
    | inl s ↦
        rw (insert_or_replace_stale, e, s) (replaced-IsSeenStep cfg now channel digest t u k e s)
    | inr s ↦
        rw (insert_or_replace_stale, e, s)
          (refused-IsSeenStep cfg now digest t u permission_error k)
  ]
]

pub delete_stale-Keeps :
    (cfg : WebhookSecurityConfig) (now n : ℕ) (t : List SeenRow)
    → Keeps cfg now t (delete_stale (is_forgotten cfg now) n t)
unfolding delete_stale find
delete_stale-Keeps cfg now n [] j x f h = f
delete_stale-Keeps cfg now zero (r ∷ t) j x f h = f
delete_stale-Keeps cfg now (suc n) (r ∷ t) j x f h =
    ground (arith, delete_stale-Keeps cfg now n t j x, delete_stale-Keeps cfg now (suc n) t j x)

-- The rows may have been purged before the attempt.
pub IsSeenStep-after :
    (cfg : WebhookSecurityConfig) (now : ℕ) (digest : String) (t t1 u : List SeenRow)
    (r : Result WebhookError String)
    → Keeps cfg now t t1
    → IsSeenStep cfg now digest t1 u r
    → IsSeenStep cfg now digest t u r
IsSeenStep-after cfg now digest t t1 u r k s = record {
  kept = λ j x f h. s.kept j x (k j x f h) h;
  fresh = s.fresh;
  once = λ x f h. s.once x (k digest x f h) h;
}
