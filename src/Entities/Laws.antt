-- ===== src/Entities/Laws.antt =====
-- Which records `delete` of express/src/modules/_base/repository.ts leaves to be found.
use projx.Auth.Tables.{find_other, find_sound}
use projx.Entities.Repository.{
  ok, delete_row, after_soft, after_hard, when_found, delete, after_soft, after_hard, when_found,
  not_found, deleted_data, not_found_message, found, soft_delete_where, find_by_id, Options,
}
use projx.Entities.Store.{at_key, IsLawful, Delegate, has_id, Row}
use projx.Base.Text.{Str}
use projx.Base.{
  ℕ, ◌≡◌, refl, ap, ◌∙◌, inl, inr, true, false, some, if◌then◌else◌, Bool-cases, Option-cases, ◌==◌,
  nat_eq, list_eq, option_eq, find,
}
use projx.Entities.Found.{and_left, find_by_id-rows, Without, soft_update, hard_delete, not_there}

module _ {X T : Type 0} (options : Options) {delegate : Delegate X T}
    (lawful : IsLawful delegate) where
  -- A record that may be found is there under its key.
  abbrev Deletes : ℕ → Str → T → Type 0
  Deletes now id t = Without options lawful id t (delete options delegate now id t).1

  soft_found :
      (now : ℕ) (id : Str) (t : T) (row : Row X)
      → options.soft_delete ≡ true
      → find (at_key id (soft_delete_where options)) (delegate.rows t) ≡ some row
      → Deletes now id t
  unfolding delete
  soft_found now id t row soft here =
      let keyed : has_id id row ≡ true =
        and_left (has_id id row) _
          (find_sound (at_key id (soft_delete_where options)) (delegate.rows t) row here) in
      let (x, there) =
        find_other (at_key id (soft_delete_where options)) (at_key id (λ r. true)) (delegate.rows t)
          row here (rw (keyed) refl) in
      let (t', updated, _) =
        lawful.update_found id (λ r. true) (deleted_data options now) t x there in
      let result : delete options delegate now id t ≡ (ok tt, t') =
        ap
          (λ r.
            when_found options delegate t r
              (λ t''. delete_row options delegate now id t'' options.soft_delete))
          (find_by_id-rows options lawful id t ∙ ap (found options delegate id) here)
        ∙ ap (delete_row options delegate now id t) soft
        ∙ ap (after_soft options delegate t) updated in
      rw (result) (
        soft_update options lawful (λ r. true) now id t t' (deleted_data options now x) soft
          (λ r _. refl) updated)

  hard_found :
      (now : ℕ) (id : Str) (t : T) (row : Row X)
      → options.soft_delete ≡ false
      → find (at_key id (soft_delete_where options)) (delegate.rows t) ≡ some row
      → Deletes now id t
  unfolding delete
  hard_found now id t row hard here =
      let keyed : has_id id row ≡ true =
        and_left (has_id id row) _
          (find_sound (at_key id (soft_delete_where options)) (delegate.rows t) row here) in
      let (x, there) =
        find_other (at_key id (soft_delete_where options)) (has_id id) (delegate.rows t) row here
          keyed in
      let (t', deleted, rows) = lawful.delete_found id t x there in
      let result : delete options delegate now id t ≡ (ok tt, t') =
        ap
          (λ r.
            when_found options delegate t r
              (λ t''. delete_row options delegate now id t'' options.soft_delete))
          (find_by_id-rows options lawful id t ∙ ap (found options delegate id) here)
        ∙ ap (delete_row options delegate now id t) hard
        ∙ ap (after_hard options delegate t) deleted in
      rw (result) (hard_delete options lawful id t t' rows)

  -- Deleting a record, soft or hard, takes that record from what is found by its id, and no other;
  -- where it is not there, nothing changes that is found. The delegate keeps its laws.
  pub delete-find_by_id :
      (now : ℕ) (id other : Str) (t : T)
      → find_by_id options delegate other (delete options delegate now id t).1 ≡ (
          if other == id
          then not_found (not_found_message options.model_name other)
          else find_by_id options delegate other t)
  unfolding delete
  delete-find_by_id now id other t =
      elim (Option-cases (find (at_key id (soft_delete_where options)) (delegate.rows t))) [
        | inl nothing ↦
            let missed =
              find_by_id-rows options lawful id t ∙ ap (found options delegate id) nothing in
            let same : (delete options delegate now id t).1 ≡ t =
              ap
                (λ r.
                  (when_found options delegate t r
                    (λ t''. delete_row options delegate now id t'' options.soft_delete)).1)
                missed in
            ap (find_by_id options delegate other) same ∙ not_there options lawful id t missed other
        | inr (row, here) ↦ elim (Bool-cases options.soft_delete) [
          | inl soft ↦ soft_found now id t row soft here other
          | inr hard ↦ hard_found now id t row hard here other
        ]
      ]
