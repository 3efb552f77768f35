-- ===== src/Entities/Hidden.antt =====
-- What the routes of express/src/modules/_base/auto-routes.ts send of a record.
use projx.Base.Text.{codes, Str}
use projx.Entities.Store.{Row, Delegate}
use projx.Entities.Repository.{
  Sent, unless, Options, Result, ok, not_found, failed, find_by_id, found, create, update,
  after_update, when_found, strip_hidden, updated_data,
}
use projx.Entities.Routes.{
  patch_with, Response, Parsed, valid, invalid, Before, goes, answers, throws, Hooks, sends,
  get_route, create_route, create_hooked, patch_route, patch_hooked, patch_read, patch_update,
  answer_with, is_empty,
}
use projx.Base.{
  refl, ◌⊎◌, ◌≡◌, inl, inr, Bool, true, false, not, Option, none, some, List, [], ◌∷◌,
  if◌then◌else◌, Bool-cases, contains, nat_eq, list_eq, option_eq, filter, All,
}

-- A field that is hidden is not there.
abbrev pub IsGone : {A : Type 0} → List Str → Str → Option A → Type 0
IsGone hidden name field = (contains hidden name ≡ false) ⊎ (field ≡ none)

unless-IsGone :
    {A : Type 0} (hidden : List Str) (name : Str) (a : A)
    → IsGone hidden name (unless (contains hidden name) a)
unless-IsGone hidden name a = elim (Bool-cases (contains hidden name)) [
  | inl gone ↦ inr (rw (gone) refl)
  | inr shown ↦ inl shown
]

module _ {X : Type 0} (options : Options) where
  -- No hidden field is in the record: neither the id, nor the time of deletion, nor a column.
  abbrev pub IsClean : Sent X → Type 0
  IsClean row =
      IsGone options.hidden_fields (codes "id") row.id
      × IsGone options.hidden_fields (codes "deleted_at") row.deleted_at
      × All (λ c. contains options.hidden_fields c.0 ≡ false) row.columns

  -- A hook after an update, where there is one, puts no hidden field into the record.
  abbrev pub KeepsClean : Option (Sent X → Sent X → Sent X) → Type 0
  KeepsClean none = Unit {0}
  KeepsClean (some hook) = (before row : Sent X) → IsClean row → IsClean (hook before row)

  abbrev pub IsCleanResult : Result (Sent X) → Type 0
  IsCleanResult (ok row) = IsClean row
  IsCleanResult (not_found message) = Unit {0}
  IsCleanResult failed = Unit {0}

  -- A record that is sent has no hidden field.
  abbrev pub Hides : Response X → Type 0
  Hides (sends status row) = IsClean row
  Hides _ = Unit {0}

  filter-clean :
      (columns : List (Str × X))
      → All
          (λ c. contains options.hidden_fields c.0 ≡ false)
          (filter (λ c. not (contains options.hidden_fields c.0)) columns)
  filter-clean [] = tt
  filter-clean (c ∷ columns) = elim (Bool-cases (contains options.hidden_fields c.0)) [
    | inl hidden ↦ rw (hidden) (filter-clean columns)
    | inr shown ↦ rw (shown) (shown, filter-clean columns)
  ]

  strip_hidden-IsClean : (row : Row X) → IsClean (strip_hidden options row)
  unfolding strip_hidden
  strip_hidden-IsClean row = (
    unless-IsGone options.hidden_fields (codes "id") row.id,
    unless-IsGone options.hidden_fields (codes "deleted_at") row.deleted_at,
    filter-clean row.columns,
  )

  module _ {T : Type 0} (hooks : Hooks X) (delegate : Delegate X T) where
    found-IsCleanResult :
        (id : Str) (row : Option (Row X)) → IsCleanResult (found options delegate id row)
    found-IsCleanResult id none = tt
    found-IsCleanResult id (some row) = strip_hidden-IsClean row

    find_by_id-IsCleanResult : (id : Str) (t : T) → IsCleanResult (find_by_id options delegate id t)
    unfolding find_by_id
    find_by_id-IsCleanResult id t = found-IsCleanResult id _

    after_update-IsCleanResult :
        (t : T) (updated : Option (Row X × T))
        → IsCleanResult (after_update options delegate t updated).0
    after_update-IsCleanResult t none = tt
    after_update-IsCleanResult t (some (row, t')) = strip_hidden-IsClean row

    when_found-IsCleanResult :
        (t : T) (result : Result (Sent X)) (next : T → Result (Sent X) × T)
        → IsCleanResult (next t).0
        → IsCleanResult (when_found options delegate t result next).0
    when_found-IsCleanResult t (ok row) next h = h
    when_found-IsCleanResult t (not_found message) next h = tt
    when_found-IsCleanResult t failed next h = tt

    update-IsCleanResult :
        (id : Str) (given : List (Str × X)) (t : T)
        → IsCleanResult (update options delegate id given t).0
    unfolding update
    update-IsCleanResult id given t =
        when_found-IsCleanResult t (find_by_id options delegate id t) _ (
          after_update-IsCleanResult t
            (delegate.update id (λ row. true) (updated_data options given) t))

    answer-Hides :
        (hook : Sent X → Sent X) (result : Result (Sent X))
        → ((row : Sent X) → IsClean row → IsClean (hook row))
        → IsCleanResult result
        → Hides (answer_with (λ row. sends 200 (hook row)) result)
    answer-Hides hook (ok row) keeps h = keeps row h
    answer-Hides hook (not_found message) keeps h = tt
    answer-Hides hook failed keeps h = tt

    patch_update-Hides :
        (id : Str) (given : List (Str × X)) (hook : Sent X → Sent X) (t : T)
        → ((row : Sent X) → IsClean row → IsClean (hook row))
        → Hides (patch_update options hooks delegate id given hook t).0
    patch_update-Hides id given hook t keeps =
        answer-Hides hook (update options delegate id given t).0 keeps
          (update-IsCleanResult id given t)

    patch_read-Hides :
        (id : Str) (given : List (Str × X)) (hook : Sent X → Sent X → Sent X) (t : T)
        (result : Result (Sent X))
        → KeepsClean (some hook)
        → Hides (patch_read options hooks delegate id given hook t result).0
    patch_read-Hides id given hook t (ok before) keeps =
        patch_update-Hides id given (hook before) t (keeps before)
    patch_read-Hides id given hook t (not_found message) keeps = tt
    patch_read-Hides id given hook t failed keeps = tt

    patch_with-Hides :
        (id : Str) (given : List (Str × X)) (t : T) (hook : Option (Sent X → Sent X → Sent X))
        → KeepsClean hook
        → Hides (patch_with options hooks delegate id given t hook).0
    patch_with-Hides id given t none keeps = patch_update-Hides id given (λ row. row) t (λ row h. h)
    patch_with-Hides id given t (some hook) keeps =
        patch_read-Hides id given hook t (find_by_id options delegate id t) keeps

    if-Hides :
        (b : Bool) (x y : Response X × T) → Hides x.0 → Hides y.0 → Hides (if b then x else y).0
    if-Hides true x y h k = h
    if-Hides false x y h k = k

    patch_hooked-Hides :
        (id : Str) (t : T) (before : Before X)
        → KeepsClean hooks.after_update
        → Hides (patch_hooked options hooks delegate id t before).0
    patch_hooked-Hides id t (goes given) keeps =
        patch_with-Hides id given t hooks.after_update keeps
    patch_hooked-Hides id t answers keeps = tt
    patch_hooked-Hides id t throws keeps = tt

    -- A hook after a creation puts no hidden field into the record.
    abbrev pub KeepsCreated : Type 0
    KeepsCreated = (row : Sent X) → IsClean row → IsClean (hooks.after_create row)

    create_hooked-Hides :
        (t : T) (given : Option (List (Str × X)))
        → KeepsCreated
        → Hides (create_hooked options hooks delegate t given).0
    unfolding create
    create_hooked-Hides t none keeps = tt
    create_hooked-Hides t (some given) keeps =
        keeps _ (strip_hidden-IsClean (delegate.create given t).0)

    create_route-Hides :
        (parsed : Parsed (List (Str × X))) (t : T)
        → KeepsCreated
        → Hides (create_route options hooks delegate parsed t).0
    unfolding create_route
    create_route-Hides (invalid message) t keeps = tt
    create_route-Hides (valid given) t keeps =
        create_hooked-Hides t (hooks.before_create given) keeps

    patch_route-Hides :
        (id : Str) (parsed : Parsed (List (Str × X))) (t : T)
        → KeepsClean hooks.after_update
        → Hides (patch_route options hooks delegate id parsed t).0
    unfolding patch_route
    patch_route-Hides id (invalid message) t keeps = tt
    patch_route-Hides id (valid given) t keeps =
        if-Hides (is_empty given) _ _ tt (patch_hooked-Hides id t (hooks.before_update given) keeps)

    get_route-Hides : (id : Str) (t : T) → Hides (get_route options hooks delegate id t).0
    unfolding get_route
    get_route-Hides id t =
        answer-Hides (λ row. row) (find_by_id options delegate id t) (λ row h. h)
          (find_by_id-IsCleanResult id t)

    -- None of the three routes that read, create and update one record answers with a hidden field of
    -- it, its id and the time of its deletion included, whatever the hooks before leave of a body; the
    -- hooks after a creation and an update put no hidden field into the record that they are given.
    pub routes-Hides :
        (id : Str) (parsed : Parsed (List (Str × X))) (t : T)
        → KeepsCreated
        → KeepsClean hooks.after_update
        → Hides (get_route options hooks delegate id t).0
          × Hides (create_route options hooks delegate parsed t).0
          × Hides (patch_route options hooks delegate id parsed t).0
    routes-Hides id parsed t created updated = (
      get_route-Hides id t,
      create_route-Hides parsed t created,
      patch_route-Hides id parsed t updated,
    )
