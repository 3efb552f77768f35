-- ===== src/Entities/Repository.antt =====
-- The repository of an entity: express/src/modules/_base/repository.ts, which
-- express/src/modules/_base/service.ts passes on.
use projx.Base.Text.{Str, codes}
use projx.Entities.Store.{Row, Delegate}
use projx.Base.{
  ℕ, Bool, true, false, not, Option, none, some, List, [], ◌∷◌, ◌++◌, if◌then◌else◌, ◌==◌, contains,
  nat_eq, list_eq, option_eq, any, filter,
}

-- The options of a repository that these operations read.
pub record Options : Type 0 where
  pub model_name : Str
  pub soft_delete : Bool
  pub hidden_fields : List Str

pub data Result (A : Type 0) : Type 0 where
  ok : A → Result A
  -- `NotFoundError`, with its message.
  not_found : Str → Result A
  -- Another error of Prisma.
  failed : Result A

abbrev pub not_found_message : Str → Str → Str
not_found_message entity id = entity ++ codes " with id \"" ++ id ++ codes "\" not found"

abbrev pub is_null : Option ℕ → Bool
is_null none = true
is_null (some _) = false

-- A record on its way to the client: the id and the time of deletion where they are not taken from it.
pub record Sent (X : Type 0) : Type 0 where
  pub id : Option Str
  pub deleted_at : Option (Option ℕ)
  pub columns : List (Str × X)

abbrev pub unless : {A : Type 0} → Bool → A → Option A
unless true a = none
unless false a = some a

module _ {X : Type 0} (options : Options) where
  -- `stripHidden`: the record without the fields that are hidden.
  unfoldable pub strip_hidden : Row X → Sent X
  strip_hidden row = record {
    id = unless (contains options.hidden_fields (codes "id")) row.id;
    deleted_at = unless (contains options.hidden_fields (codes "deleted_at")) row.deleted_at;
    columns = filter (λ c. not (contains options.hidden_fields c.0)) row.columns;
  }

  -- `softDeleteWhere`
  unfoldable pub soft_delete_where : Row X → Bool
  soft_delete_where row = if options.soft_delete then is_null row.deleted_at else true

  abbrev pub deleted_data : ℕ → Row X → Row X
  deleted_data now row = record row { deleted_at = some now }

  -- `{ ...record, ...data }`: the columns that are given replace those of the record.
  abbrev pub updated_data : List (Str × X) → Row X → Row X
  updated_data given row = record row {
    columns = given ++ filter (λ c. not (any (λ g. g.0 == c.0) given)) row.columns;
  }

  module _ {T : Type 0} (delegate : Delegate X T) where
    abbrev pub found : Str → Option (Row X) → Result (Sent X)
    found id none = not_found (not_found_message options.model_name id)
    found id (some row) = ok (strip_hidden row)

    unfoldable pub find_by_id : Str → T → Result (Sent X)
    unfolding strip_hidden soft_delete_where
    find_by_id id t = found id (delegate.find_unique id soft_delete_where t)

    unfoldable pub create : List (Str × X) → T → Sent X × T
    unfolding strip_hidden
    create given t = let made = delegate.create given t in (strip_hidden made.0, made.1)

    abbrev pub after_update : T → Option (Row X × T) → Result (Sent X) × T
    after_update t none = (failed, t)
    after_update t (some (row, t')) = (ok (strip_hidden row), t')

    -- What follows when the record is found: an error of the search is the answer.
    abbrev pub when_found : {A : Type 0} → T → Result (Sent X) → (T → Result A × T) → Result A × T
    when_found t (ok row) next = next t
    when_found t (not_found message) next = (not_found message, t)
    when_found t failed next = (failed, t)

    unfoldable pub update : Str → List (Str × X) → T → Result (Sent X) × T
    unfolding find_by_id strip_hidden
    update id given t =
        when_found t (find_by_id id t)
          λ t'. after_update t' (delegate.update id (λ row. true) (updated_data given) t')

    abbrev pub after_soft : T → Option (Row X × T) → Result (Unit {0}) × T
    after_soft t none = (failed, t)
    after_soft t (some (row, t')) = (ok tt, t')

    abbrev pub after_hard : T → Option T → Result (Unit {0}) × T
    after_hard t none = (failed, t)
    after_hard t (some t') = (ok tt, t')

    -- By the kind of deletion: soft, or hard.
    abbrev pub delete_row : ℕ → Str → T → Bool → Result (Unit {0}) × T
    delete_row now id t true = after_soft t (delegate.update id (λ row. true) (deleted_data now) t)
    delete_row now id t false = after_hard t (delegate.delete id t)

    unfoldable pub delete : ℕ → Str → T → Result (Unit {0}) × T
    unfolding find_by_id
    delete now id t = when_found t (find_by_id id t) λ t'. delete_row now id t' options.soft_delete

    abbrev pub bulk_create : List (List (Str × X)) → T → ℕ × T
    bulk_create items t = delegate.create_many items t

    -- P2025 is ignored: the record is not there, or is deleted.
    abbrev pub or_same : T → Option (Row X × T) → T
    or_same t none = t
    or_same t (some (row, t')) = t'

    unfoldable pub soft_delete_all : ℕ → List Str → T → T
    unfolding soft_delete_where
    soft_delete_all now [] t = t
    soft_delete_all now (id ∷ ids) t =
        soft_delete_all now ids
          (or_same t (delegate.update id soft_delete_where (deleted_data now) t))

    abbrev pub delete_rows : ℕ → List Str → T → Bool → T
    delete_rows now ids t true = soft_delete_all now ids t
    delete_rows now ids t false = delegate.delete_many (λ row. contains ids row.id) t

    unfoldable pub bulk_delete : ℕ → List Str → T → T
    unfolding soft_delete_all
    bulk_delete now ids t = delete_rows now ids t options.soft_delete
