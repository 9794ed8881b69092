-- ===== src/Postgres/State.antt =====
-- omnidesk_agent/repositories/postgres_state.py: `_PostgresJsonState`, the rows of one namespace.
-- A row is its JSON value: `key` is the column key, `created` the column created_at, which is the
-- created_at of the value. Every method is one transaction on locked rows.
use Prim.Native.Nat.{min, max}
use omni_desk_ai.Shared.{
  ℕ, zero, suc, String, Bool, true, false, Option, none, some, List, [], ◌∷◌, ◌++◌, ◌==◌,
  if◌then◌else◌, Result, ok, err, is_some,
}
use omni_desk_ai.Shared.Table.{find, update, delete, select, oldest, newest_first, limit}

module _ {R : Type 0} (key : R → String) where
  -- ON CONFLICT(namespace, key) DO NOTHING; whether the row was inserted
  unfoldable pub insert_once : R → List R → Bool × List R
  insert_once r t = if is_some (find key (key r) t) then (false, t) else (true, t ++ r ∷ [])

  -- ON CONFLICT(namespace, key) DO UPDATE
  unfoldable pub put : R → List R → List R
  put r t = if is_some (find key (key r) t) then update key (key r) (λ _. r) t else t ++ r ∷ []

  unfoldable pub delete_key : String → List R → List R
  delete_key k t = delete (λ r. key r == k) t

  -- A raise of the updater rolls the transaction back.
  unfoldable pub update_found :
      {E : Type 0} → E → (R → Result E R) → Option R → List R → Result E R × List R
  update_found missing f none t = (err missing, t)
  update_found missing f (some r) t = elim (f r) [
    | err e ↦ (err e, t)
    | ok x ↦ (ok x, update key (key r) (λ _. x) t)
  ]

  -- `missing` is the KeyError
  unfoldable pub update_locked :
      {E : Type 0} → E → String → (R → Result E R) → List R → Result E R × List R
  unfolding update_found
  update_locked missing k f t = update_found missing f (find key k t) t

  -- the row is looked up by another column
  unfoldable pub update_locked_by_field :
      {E : Type 0} → E → (R → String) → String → (R → Result E R) → List R → Result E R × List R
  unfolding update_found
  update_locked_by_field missing column v f t = update_found missing f (find column v t) t

  -- the oldest ready row is updated, and returned as it was
  unfoldable pub claim_ready_by_status : (R → ℕ) → (R → Bool) → (R → R) → List R → Option R × List R
  claim_ready_by_status created ready f t = elim (oldest created ready t) [
    | none ↦ (none, t)
    | some r ↦ (some r, update key (key r) (λ _. f r) t)
  ]

-- ORDER BY created_at DESC LIMIT max(1, min(limit, 1000))
unfoldable pub list_rows : {R : Type 0} → (R → ℕ) → (R → Bool) → ℕ → List R → List R
list_rows created p n t = limit (max 1 (min n 1000)) (newest_first created (select p t))

-- `int(row.get("max_retries") or self.max_retries)`
abbrev pub or_number : ℕ → ℕ → ℕ
or_number zero d = d
or_number (suc n) d = suc n
