-- ===== src/Postgres/Locked.antt =====
-- What a locked update does, by the row that it finds.
use omni_desk_ai.Shared.{◌≡◌, refl, ap, ◌∙◌, String, none, some, List, Result, ok, err}
use omni_desk_ai.Shared.Table.{find, update, IsUnique, key-find, update-const}
use omni_desk_ai.Postgres.State.{update_found, update_locked}

module _ {R E : Type 0} (key : R → String) (missing : E) (k : String) (f : R → Result E R)
    (t : List R) where
  pub update_locked-none : find key k t ≡ none → update_locked key missing k f t ≡ (err missing, t)
  unfolding update_locked update_found
  update_locked-none h = rw (update_locked, h, update_found) refl

  pub update_locked_raises :
      {r : R} {e : E}
      → find key k t ≡ some r
      → f r ≡ err e
      → update_locked key missing k f t ≡ (err e, t)
  unfolding update_locked update_found
  update_locked_raises h p = rw (update_locked, h, update_found, p) refl

  -- The row that is written is the one at the key.
  pub update_locked_writes :
      (g : R → R) {r : R}
      → IsUnique key t
      → find key k t ≡ some r
      → f r ≡ ok (g r)
      → update_locked key missing k f t ≡ (ok (g r), update key k g t)
  unfolding update_locked update_found
  update_locked_writes g {r} u h p =
      let at : update key (key r) (λ _. g r) t ≡ update key k g t =
        ap (λ j. update key j (λ _. g r) t) (key-find key k t h) ∙ update-const key k g t u h in
      rw (update_locked, h, update_found, p) (ap (λ x. (ok (g r), x)) at)
