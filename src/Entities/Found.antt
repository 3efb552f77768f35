-- ===== src/Entities/Found.antt =====
-- The search of records by express/src/modules/_base/repository.ts, over rows that were patched or removed.
use projx.Entities.Search.{find-filter_kept, find-filter_gone, find-patch_kept, find-patch_gone}
use projx.Entities.Repository.{
  Sent, not_found, deleted_data, not_found_message, found, soft_delete_where, find_by_id, Result,
  Options,
}
use projx.Entities.Store.{patch, at_key, IsLawful, Delegate, has_id, Row}
use projx.Base.Text.{Str}
use projx.Base.{
  ℕ, ◌≡◌, refl, sym, ap, ◌∙◌, inl, inr, Bool, true, false, not, ◌&&◌, none, some, none-ne-some,
  some-injective, List, if◌then◌else◌, Bool-cases, Option-cases, eq_cases, ==_refl, ◌==◌, ==_iff,
  nat_eq, list_eq, option_eq, filter, find,
}

pub and_left : (a b : Bool) → (a && b) ≡ true → a ≡ true
and_left true b h = refl
and_left false b h = absurd (cc)

and_right : (a b : Bool) → (a && b) ≡ true → b ≡ true
and_right true b h = h
and_right false b h = absurd (cc)

-- Rows of two keys.
other_key :
    {X : Type 0}
    → (id other : Str) (row : Row X) → (other == id) ≡ false
    → has_id id row ≡ true
    → has_id other row ≡ false
other_key id other row differs here = elim (eq_cases row.id other) [
  | inl (_, same) ↦ absurd (cc (differs, same, (==_iff row.id id).0 here, ==_refl id))
  | inr (test, _) ↦ test
]

module _ {X T : Type 0} (options : Options) {delegate : Delegate X T}
    (lawful : IsLawful delegate) where
  abbrev pub missing : Str → Result (Sent X)
  missing id = not_found (not_found_message options.model_name id)

  deleted_hidden :
      (now : ℕ) (row : Row X)
      → options.soft_delete ≡ true
      → soft_delete_where options (deleted_data options now row) ≡ false
  unfolding soft_delete_where
  deleted_hidden now row soft = rw (soft) refl

  at_key_deleted :
      (now : ℕ) (other : Str) (row : Row X)
      → options.soft_delete ≡ true
      → at_key other (soft_delete_where options) (deleted_data options now row) ≡ false
  at_key_deleted now other row soft = elim (Bool-cases (has_id other row)) [
    | inl here ↦ rw (here, deleted_hidden now row soft) refl
    | inr there ↦ rw (there) refl
  ]

  -- Rows after a soft deletion that asks `p` of the record, where `p` holds of those not deleted.
  soft_search :
      (p : Row X → Bool) (now : ℕ) (id other : Str) (rows : List (Row X))
      → options.soft_delete ≡ true
      → ((r : Row X) → soft_delete_where options r ≡ true → p r ≡ true)
      → find
          (at_key other (soft_delete_where options))
          (patch (at_key id p) (deleted_data options now) rows)
        ≡ (if other == id then none else find (at_key other (soft_delete_where options)) rows)
  soft_search p now id other rows soft live = elim (eq_cases other id) [
    | inl (test, same) ↦ rw (test) (
        find-patch_gone (at_key other (soft_delete_where options)) (at_key id p)
          (deleted_data options now) rows
          (λ r here.
            rw
              (
                rw (same) at (and_left (has_id other r) _ here),
                live r (and_right (has_id other r) _ here),
              )
              refl)
          (λ r _. at_key_deleted now other r soft))
    | inr (test, differs) ↦ rw (test) (
        find-patch_kept (at_key other (soft_delete_where options)) (at_key id p)
          (deleted_data options now) rows
          (λ r here. rw (other_key id other r test (and_left (has_id id r) _ here)) refl)
          (λ r _. at_key_deleted now other r soft))
  ]

  -- The search of a record in the rows of the table.
  pub find_by_id-rows :
      (id : Str) (t : T)
      → find_by_id options delegate id t
        ≡ found options delegate id (find (at_key id (soft_delete_where options)) (delegate.rows t))
  unfolding find_by_id soft_delete_where
  find_by_id-rows id t =
      ap (found options delegate id) (lawful.find_unique-rows id (soft_delete_where options) t)

  -- What is found once the record of `id` is not.
  abbrev pub Without : Str → T → T → Type 0
  Without id t t' =
      (other : Str)
      → find_by_id options delegate other t'
        ≡ (if other == id then missing other else find_by_id options delegate other t)

  from_search :
      (id : Str) (t t' : T)
      → ((other : Str)
          → find (at_key other (soft_delete_where options)) (delegate.rows t') ≡ (
              if other == id
              then none
              else find (at_key other (soft_delete_where options)) (delegate.rows t)))
      → Without id t t'
  from_search id t t' rows other = elim (Bool-cases (other == id)) [
    | inl test ↦ rw (test, find_by_id-rows other t', rows other, test) refl
    | inr test ↦ rw (test, find_by_id-rows other t', find_by_id-rows other t, rows other, test) refl
  ]

  pub soft_update :
      (p : Row X → Bool) (now : ℕ) (id : Str) (t t' : T) (row : Row X)
      → options.soft_delete ≡ true
      → ((r : Row X) → soft_delete_where options r ≡ true → p r ≡ true)
      → delegate.update id p (deleted_data options now) t ≡ some (row, t')
      → Without id t t'
  soft_update p now id t t' row soft live updated =
      elim (Option-cases (find (at_key id p) (delegate.rows t))) [
        | inl nothing ↦ absurd (
            none-ne-some _
              (sym (lawful.update_missing id p (deleted_data options now) t nothing) ∙ updated))
        | inr (x, here) ↦
            let (t'', same, rows) = lawful.update_found id p (deleted_data options now) t x here in
            let rows' : delegate.rows t'
                ≡ patch (at_key id p) (deleted_data options now) (delegate.rows t) =
              rw (← ap (λ u. u.1) (some-injective _ _ (sym same ∙ updated))) rows in
            from_search id t t'
              (λ other. rw (rows') (soft_search p now id other (delegate.rows t) soft live))
      ]

  pub hard_search :
      (p : Row X → Bool) (gone : Bool) (other : Str) (rows : List (Row X))
      → ((r : Row X) → has_id other r ≡ true → p r ≡ gone)
      → find (at_key other (soft_delete_where options)) (filter (λ r. not (p r)) rows)
        ≡ (if gone then none else find (at_key other (soft_delete_where options)) rows)
  hard_search p true other rows picks =
      find-filter_gone (at_key other (soft_delete_where options)) (λ r. not (p r)) rows
        (λ r here. rw (picks r (and_left (has_id other r) _ here)) refl)
  hard_search p false other rows picks =
      find-filter_kept (at_key other (soft_delete_where options)) (λ r. not (p r)) rows
        (λ r here. rw (picks r (and_left (has_id other r) _ here)) refl)

  pub has_id_same :
      (id other : Str) (row : Row X) → has_id other row ≡ true → has_id id row ≡ (other == id)
  has_id_same id other row here = rw ((==_iff row.id other).0 here) refl

  pub hard_delete :
      (id : Str) (t t' : T)
      → delegate.rows t' ≡ filter (λ r. not (has_id id r)) (delegate.rows t)
      → Without id t t'
  hard_delete id t t' rows = from_search id t t' (λ other. rw (rows) (
      hard_search (has_id id) (other == id) other (delegate.rows t)
        (λ r here. has_id_same id other r here)))

  pub not_there :
      (id : Str) (t : T) → find_by_id options delegate id t ≡ missing id → Without id t t
  not_there id t nothing other = elim (eq_cases other id) [
    | inl (test, same) ↦ rw (test, same) nothing
    | inr (test, _) ↦ rw (test) refl
  ]
