-- ===== src/Query/Expand.antt =====
-- The expansion of relations in a request: express/src/modules/_base/expand.ts. A relation is an
-- object, so its entry counts as true.
use projx.Base.Text.{Str, codes}
use projx.Base.Sets.{dedup, contains-dedup, contains-filter}
use projx.Query.{is_blank, text_of, list_values}
use projx.Base.{
  ◌≡◌, refl, Bool, ◌&&◌, ◌||◌, Option, none, some, List, [], ◌∷◌, if◌then◌else◌, contains, nat_eq,
  list_eq, option_eq, filter,
}

unfoldable pub parse_expand_param : Option Str → List Str
parse_expand_param expand = if is_blank expand then [] else list_values (text_of expand)

-- The names that every object inherits, but `__proto__`, to which `true` cannot be assigned.
abbrev pub inherited_names : List Str
inherited_names =
    codes "constructor"
    ∷ codes "hasOwnProperty"
    ∷ codes "isPrototypeOf"
    ∷ codes "propertyIsEnumerable"
    ∷ codes "toLocaleString"
    ∷ codes "toString"
    ∷ codes "valueOf"
    ∷ codes "__defineGetter__"
    ∷ codes "__defineSetter__"
    ∷ codes "__lookupGetter__"
    ∷ codes "__lookupSetter__"
    ∷ []

-- `entityConfig.relations[field]` is there.
unfoldable pub has_relation : List Str → Str → Bool
has_relation relations field = contains relations field || contains inherited_names field

abbrev pub or_undefined : List Str → Option (List Str)
or_undefined [] = none
or_undefined (field ∷ fields) = some (field ∷ fields)

-- The keys of the `include` object; the relations are the keys of the entity's.
unfoldable pub build_include_from_expand : List Str → Option (List Str) → Option (List Str)
build_include_from_expand fields none = none
build_include_from_expand fields (some relations) =
    or_undefined (dedup (filter (has_relation relations) fields))

abbrev pub include_keys : Option (List Str) → List Str
include_keys none = []
include_keys (some fields) = fields

include-or_undefined : (fields : List Str) → include_keys (or_undefined fields) ≡ fields
include-or_undefined [] = refl
include-or_undefined (_ ∷ _) = refl

-- What a request expands are exactly the names it asks for that are relations of the entity, or
-- names that every object inherits: `expand=constructor` passes for a relation of any entity
-- that has relations.
pub build_include_from_expand-contains :
    (fields relations : List Str) (name : Str)
    → contains (include_keys (build_include_from_expand fields (some relations))) name
      ≡ (contains fields name && (contains relations name || contains inherited_names name))
unfolding build_include_from_expand has_relation
build_include_from_expand-contains fields relations name =
    rw
      (
        include-or_undefined (dedup (filter (has_relation relations) fields)),
        contains-dedup (filter (has_relation relations) fields) name,
        contains-filter (has_relation relations) fields name,
      )
      refl
