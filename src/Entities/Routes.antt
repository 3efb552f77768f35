-- ===== src/Entities/Routes.antt =====
-- The routes of an entity that change or send single records, and the deletion and creation of many:
-- `registerEntityRoutes` of express/src/modules/_base/auto-routes.ts. A body is what its strict schema
-- gives, and the hooks of the entity are parameters: those after a change may change the record that is
-- sent, and what they throw is only logged.
use projx.Base.Text.{Str, codes}
use projx.Entities.Store.{Delegate}
use projx.Entities.Repository.{
  Sent, Options, Result, ok, not_found, failed, find_by_id, create, update, delete, bulk_create,
  bulk_delete,
}
use projx.Base.{
  ℕ, Bool, true, false, Option, none, some, List, [], ◌∷◌, if◌then◌else◌, nat_eq, list_eq,
  option_eq,
}

pub data Parsed (B : Type 0) : Type 0 where
  valid : B → Parsed B
  -- The text of the schema's error.
  invalid : Str → Parsed B

-- A hook before an update goes on with the columns it leaves, answers itself, or throws.
pub data Before (X : Type 0) : Type 0 where
  goes : List (Str × X) → Before X
  answers : Before X
  throws : Before X

-- The hooks of an entity, where it has them. `before_create` leaves the columns, or throws.
pub record Hooks (X : Type 0) : Type 0 where
  pub before_create : List (Str × X) → Option (List (Str × X))
  pub before_update : List (Str × X) → Before X
  pub before_delete : Str → Bool
  -- What `afterCreate` makes of the record, and `afterUpdate`, where there is one, of the record as it
  -- was and the new one, also when they throw after it.
  pub after_create : Sent X → Sent X
  pub after_update : Option (Sent X → Sent X → Sent X)

pub data Response (X : Type 0) : Type 0 where
  -- The status and the record, or the number of records.
  sends : ℕ → Sent X → Response X
  counts : ℕ → Response X
  no_content : Response X
  -- The hook has answered.
  answered : Response X
  -- `ApiError` with its status, detail and code; another error.
  api_error : ℕ → Str → Str → Response X
  exception : Response X

module _ {X : Type 0} where
  abbrev validation_error : Str → Response X
  validation_error message = api_error 422 message (codes "validation_error")

  abbrev pub answer_with : {A : Type 0} → (A → Response X) → Result A → Response X
  answer_with send (ok a) = send a
  answer_with send (not_found message) = api_error 404 message (codes "not_found")
  answer_with send failed = exception

  abbrev pub is_empty : List (Str × X) → Bool
  is_empty [] = true
  is_empty (c ∷ columns) = false

  module _ {T : Type 0} (options : Options) (hooks : Hooks X) (delegate : Delegate X T) where
    unfoldable pub get_route : Str → T → Response X × T
    get_route id t = (answer_with (sends 200) (find_by_id options delegate id t), t)

    abbrev pub create_hooked : T → Option (List (Str × X)) → Response X × T
    create_hooked t none = (exception, t)
    create_hooked t (some given) =
        let made = create options delegate given t in
        (sends 201 (hooks.after_create made.0), made.1)

    unfoldable pub create_route : Parsed (List (Str × X)) → T → Response X × T
    create_route (invalid message) t = (validation_error message, t)
    create_route (valid given) t = create_hooked t (hooks.before_create given)

    -- The hook of each item, in their order; one that throws ends it.
    unfoldable pub hook_items : List (List (Str × X)) → Option (List (List (Str × X)))
    hook_items [] = some []
    hook_items (item ∷ items) =
        let rest = hook_items items in
        elim (hooks.before_create item) [
          | none ↦ none
          | some item' ↦ elim rest [ none ↦ none | some items' ↦ some (item' ∷ items') ]
        ]

    abbrev pub create_items : T → Option (List (List (Str × X))) → Response X × T
    create_items t none = (exception, t)
    create_items t (some items) =
        let made = bulk_create options delegate items t in (counts made.0, made.1)

    unfoldable pub bulk_create_route : Parsed (List (List (Str × X))) → T → Response X × T
    unfolding hook_items
    bulk_create_route (invalid message) t = (validation_error message, t)
    bulk_create_route (valid items) t = create_items t (hook_items items)

    unfoldable pub bulk_delete_route : ℕ → Parsed (List Str) → T → Response X × T
    bulk_delete_route now (invalid message) t = (validation_error message, t)
    bulk_delete_route now (valid ids) t = (no_content, bulk_delete options delegate now ids t)

    abbrev pub patch_update : Str → List (Str × X) → (Sent X → Sent X) → T → Response X × T
    patch_update id given hook t =
        let updated = update options delegate id given t in
        (answer_with (λ row. sends 200 (hook row)) updated.0, updated.1)

    -- The record is read first where a hook wants it as it was.
    abbrev pub patch_read :
        Str → List (Str × X) → (Sent X → Sent X → Sent X) → T → Result (Sent X) → Response X × T
    patch_read id given hook t (ok before) = patch_update id given (hook before) t
    patch_read id given hook t (not_found message) = (api_error 404 message (codes "not_found"), t)
    patch_read id given hook t failed = (exception, t)

    abbrev pub patch_with :
        Str → List (Str × X) → T → Option (Sent X → Sent X → Sent X) → Response X × T
    patch_with id given t none = patch_update id given (λ row. row) t
    patch_with id given t (some hook) =
        patch_read id given hook t (find_by_id options delegate id t)

    abbrev pub patch_hooked : Str → T → Before X → Response X × T
    patch_hooked id t (goes given) = patch_with id given t hooks.after_update
    patch_hooked id t answers = (answered, t)
    patch_hooked id t throws = (exception, t)

    unfoldable pub patch_route : Str → Parsed (List (Str × X)) → T → Response X × T
    patch_route id (invalid message) t = (validation_error message, t)
    patch_route id (valid given) t =
        if is_empty given
        then (api_error 400 (codes "Request body cannot be empty") (codes "empty_body"), t)
        else patch_hooked id t (hooks.before_update given)

    abbrev pub delete_hooked : ℕ → Str → T → Bool → Response X × T
    delete_hooked now id t false = (exception, t)
    delete_hooked now id t true =
        let deleted = delete options delegate now id t in
        (answer_with (λ _. no_content) deleted.0, deleted.1)

    unfoldable pub delete_route : ℕ → Str → T → Response X × T
    delete_route now id t = delete_hooked now id t (hooks.before_delete id)
