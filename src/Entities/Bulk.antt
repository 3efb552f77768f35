-- ===== src/Entities/Bulk.antt =====
-- The deletion of many records by express/src/modules/_base/repository.ts.
use projx.Entities.Found.{soft_update, not_there, find_by_id-rows, hard_search, Without, missing}
use projx.Base.Text.{Str}
use projx.Entities.Repository.{
  bulk_delete, soft_delete_all, or_same, delete_rows, deleted_data, soft_delete_where, find_by_id,
  found, not_found, not_found_message, Options,
}
use projx.Entities.Store.{Delegate, IsLawful, at_key}
use projx.Base.{
  ℕ, ◌≡◌, refl, ap, ◌∙◌, inl, inr, true, none, List, [], ◌∷◌, if◌then◌else◌, Bool-cases,
  Option-cases, ◌==◌, ==_iff, contains, nat_eq, list_eq, option_eq, find,
}

module _ {X T : Type 0} (options : Options) {delegate : Delegate X T}
    (lawful : IsLawful delegate) where
  -- One turn of the loop, which ignores a record that is not there.
  soft_turn :
      (now : ℕ) (id : Str) (t : T)
      → options.soft_delete ≡ true
      → Without options lawful id t (
          or_same options delegate t
            (delegate.update id (soft_delete_where options) (deleted_data options now) t))
  soft_turn now id t soft =
      elim (Option-cases (find (at_key id (soft_delete_where options)) (delegate.rows t))) [
        | inl nothing ↦ λ other.
            let missed =
              find_by_id-rows options lawful id t ∙ ap (found options delegate id) nothing in
            ap (λ o. find_by_id options delegate other (or_same options delegate t o))
              (lawful.update_missing id (soft_delete_where options) (deleted_data options now) t
                nothing)
            ∙ not_there options lawful id t missed other
        | inr (row, here) ↦ λ other.
            let (t', updated, rows) =
              lawful.update_found id (soft_delete_where options) (deleted_data options now) t row
                here in
            ap (λ o. find_by_id options delegate other (or_same options delegate t o)) updated
            ∙ soft_update options lawful (soft_delete_where options) now id t t'
                (deleted_data options now row) soft (λ r h. h) updated other
      ]

  soft_all :
      (now : ℕ) (ids : List Str) (other : Str) (t : T)
      → options.soft_delete ≡ true
      → find_by_id options delegate other (soft_delete_all options delegate now ids t) ≡ (
          if contains ids other
          then missing options lawful other
          else find_by_id options delegate other t)
  unfolding soft_delete_all
  soft_all now [] other t soft = refl
  soft_all now (id ∷ ids) other t soft =
      let t' =
        or_same options delegate t
          (delegate.update id (soft_delete_where options) (deleted_data options now) t) in
      let turn = soft_turn now id t soft other in
      soft_all now ids other t' soft ∙ elim (Bool-cases (other == id)) [
        | inl same ↦ elim (Bool-cases (contains ids other)) [
          | inl later ↦ rw (same, later) refl
          | inr never ↦ rw (same, never) (rw (same) at turn)
        ]
        | inr differs ↦ elim (Bool-cases (contains ids other)) [
          | inl later ↦ rw (differs, later) refl
          | inr never ↦ rw (differs, never) (rw (differs) at turn)
        ]
      ]

  hard_all :
      (ids : List Str) (other : Str) (t : T)
      → find_by_id options delegate other (delegate.delete_many (λ row. contains ids row.id) t) ≡ (
          if contains ids other
          then missing options lawful other
          else find_by_id options delegate other t)
  hard_all ids other t =
      let rows = lawful.rows-delete_many (λ row. contains ids row.id) t in
      let searched : find (at_key other (soft_delete_where options))
            (delegate.rows (delegate.delete_many (λ row. contains ids row.id) t))
          ≡ (if contains ids other
              then none
              else find (at_key other (soft_delete_where options)) (delegate.rows t)) =
        rw (rows) (
          hard_search options lawful (λ row. contains ids row.id) (contains ids other) other
            (delegate.rows t) (λ r here. rw ((==_iff r.id other).0 here) refl)) in
      elim (Bool-cases (contains ids other)) [
        | inl gone ↦
            find_by_id-rows options lawful other _
            ∙ ap (found options delegate other) searched
            ∙ rw (gone) refl
        | inr stays ↦
            find_by_id-rows options lawful other _
            ∙ ap (found options delegate other) searched
            ∙ rw (stays, find_by_id-rows options lawful other t) refl
      ]

  -- A deletion of many records, soft or hard, takes exactly the records of the ids from what is found by
  -- id, whether an id is repeated, not there, or deleted already, for a delegate that keeps its laws.
  pub bulk_delete-find_by_id :
      (now : ℕ) (ids : List Str) (other : Str) (t : T)
      → find_by_id options delegate other (bulk_delete options delegate now ids t) ≡ (
          if contains ids other
          then not_found (not_found_message options.model_name other)
          else find_by_id options delegate other t)
  unfolding bulk_delete
  bulk_delete-find_by_id now ids other t = elim (Bool-cases options.soft_delete) [
    | inl soft ↦
        ap (λ b. find_by_id options delegate other (delete_rows options delegate now ids t b)) soft
        ∙ soft_all now ids other t soft
    | inr hard ↦
        ap (λ b. find_by_id options delegate other (delete_rows options delegate now ids t b)) hard
        ∙ hard_all ids other t
  ]
