-- ===== src/Project.antt =====
-- What projx keeps in a user's project: component markers (`.projx-component`), the configuration
-- (`.projx`) and their readers and writers in cli/src/utils.ts and cli/src/baseline.ts.
--
-- A file's JSON is taken as parsed. A marker that is absent, empty or not JSON is `none`: every
-- reader treats the three alike. Lists under `skip` are taken to be lists of strings.
pub mod Markers
pub mod Discover
pub mod Updates
mod Tests
use projx.Base.Text.{Str, codes, is_truthy}
use projx.Base.Sets.{dedup}
use projx.Components.{Component, component_name, normalize_component}
use projx.Components.Orm.{
  OrmProvider, prisma, drizzle, sequelize, typeorm, gorm, sqlc, ent, seaorm, eloquent,
}
use projx.Base.{
  ℕ, zero, suc, ◌+◌, ◌-◌, ◌*◌, ◌/◌, ◌%◌, ◌^◌, ◌≤◌, ◌<◌, min, ◌≡◌, refl, sym, ap, ◌∙◌, ◌≢◌, ◌↔◌, ◌⊎◌,
  inl, inr, ite, Bool, true, false, not, ◌&&◌, ◌||◌, Option, none, some, List, [], ◌∷◌, ◌++◌, map,
  arith, leb, ltb, if◌then◌else◌, Bool-cases, Option-cases, Eq, ◌==◌, ==_iff, contains, nat_eq,
  list_eq, option_eq, length, take, drop, any, all, filter, find, length-append, drop-append,
  take-append, take-append-drop, any-append, All, Any, All-append, dec_lt, ℕ_discrete,
}

-- A JSON value as the readers tell them apart; an array's elements are strings or something else.
pub data Field : Type 0 where
  text : Str → Field
  texts : List (Option Str) → Field
  other_value : Field

-- A marker file. A field that is absent is `other_value`.
pub record RawMarker : Type 0 where
  pub component : Field
  pub components : Field
  pub skip : Option (List Str)
  pub features : Field
  pub orm : Field

pub record ComponentMarkerData : Type 0 where
  pub component : Component
  pub skip : List Str
  pub features : Option (List Str)
  pub orm : Option OrmProvider

-- The string that a provider is in the source.
abbrev pub orm_name : OrmProvider → Str
orm_name prisma = codes "prisma"
orm_name drizzle = codes "drizzle"
orm_name sequelize = codes "sequelize"
orm_name typeorm = codes "typeorm"
orm_name gorm = codes "gorm"
orm_name sqlc = codes "sqlc"
orm_name ent = codes "ent"
orm_name seaorm = codes "seaorm"
orm_name eloquent = codes "eloquent"

abbrev pub orm_providers : List OrmProvider
orm_providers = prisma ∷ drizzle ∷ sequelize ∷ typeorm ∷ gorm ∷ sqlc ∷ ent ∷ seaorm ∷ eloquent ∷ []

unfoldable pub orm_of : List OrmProvider → Str → Option OrmProvider
orm_of [] id = none
orm_of (o ∷ os) id = if orm_name o == id then some o else orm_of os id

-- `typeof orm === 'string' && ORM_PROVIDERS.includes(orm) ? orm : undefined`
unfoldable pub read_orm : Field → Option OrmProvider
read_orm (text id) = orm_of orm_providers id
read_orm _ = none

-- `.filter((f): f is string => typeof f === 'string')`
unfoldable pub only_strings : List (Option Str) → List Str
only_strings [] = []
only_strings (some s ∷ xs) = s ∷ only_strings xs
only_strings (none ∷ xs) = only_strings xs

-- `Array.isArray(features) ? features.filter(…) : undefined`
unfoldable pub read_features : Field → Option (List Str)
unfolding only_strings
read_features (texts xs) = some (only_strings xs)
read_features _ = none

-- `typeof data.component === 'string' ? normalizeComponent(data.component) : null`
unfoldable pub read_component : Field → Option Component
read_component (text raw) = normalize_component raw
read_component _ = none

-- The first of `data.components`, where the field `component` gives none.
unfoldable pub read_first_component : Field → Option Component
read_first_component (texts (some first ∷ rest)) = normalize_component first
read_first_component _ = none

unfoldable pub or_else {ℓ} : {A : Type ℓ} → Option A → Option A → Option A
or_else (some a) _ = some a
or_else none b = b

abbrev pub list_or_nil : Option (List Str) → List Str
list_or_nil (some xs) = xs
list_or_nil none = []

unfoldable pub parse_marker : RawMarker → Option ComponentMarkerData
parse_marker data' =
    elim (or_else (read_component data'.component) (read_first_component data'.components)) [
      | none ↦ none
      | some component ↦ some (record {
        component = component;
        skip = list_or_nil data'.skip;
        features = read_features data'.features;
        orm = read_orm data'.orm;
      })
    ]

-- `readComponentMarker`: the content of a directory's marker file, parsed.
unfoldable pub read_component_marker : Option RawMarker → Option ComponentMarkerData
read_component_marker none = none
read_component_marker (some raw) = parse_marker raw

-- The features and the ORM that an existing file keeps.
unfoldable pub preserved_features : Option RawMarker → Option (List Str)
preserved_features none = none
preserved_features (some prev) = read_features prev.features

unfoldable pub preserved_orm : Option RawMarker → Option OrmProvider
preserved_orm none = none
preserved_orm (some prev) = read_orm prev.orm

-- `features && features.length > 0 ? { features } : {}`
unfoldable pub write_features : Option (List Str) → Field
write_features (some (f ∷ fs)) = texts (map some (f ∷ fs))
write_features _ = other_value

unfoldable pub write_orm : Option OrmProvider → Field
write_orm (some orm) = text (orm_name orm)
write_orm none = other_value

-- `writeComponentMarker`: the new content of a marker file from its old content.
unfoldable pub write_component_marker : Option RawMarker → ComponentMarkerData → RawMarker
write_component_marker existing data' = record {
  component = text (component_name data'.component);
  components = other_value;
  skip = some data'.skip;
  features = write_features (or_else data'.features (preserved_features existing));
  orm = write_orm (or_else data'.orm (preserved_orm existing));
}

-- What `upsertComponentMarker` falls back on: the skip list and the ORM of the marker that is there.
unfoldable pub existing_skip : Option ComponentMarkerData → List Str
existing_skip none = []
existing_skip (some marker) = marker.skip

unfoldable pub existing_orm : Option ComponentMarkerData → Option OrmProvider
existing_orm none = none
existing_orm (some marker) = marker.orm

unfoldable pub upsert_component_marker :
    Option RawMarker → Component → Option (List Str) → Option OrmProvider → RawMarker
upsert_component_marker existing component skip orm =
    let marker = read_component_marker existing in
    write_component_marker existing (record {
      component = component;
      skip = elim skip [ some s ↦ s | none ↦ existing_skip marker ];
      features = none;
      orm = or_else orm (existing_orm marker);
    })

-- The configuration file: the fields that the program reads or writes. A field is `none` where it
-- is absent or not of its type.
pub record Config : Type 0 where
  pub version : Option Str
  pub updated_at : Option Str
  pub package_manager : Option Str
  pub orm : Option Str
  pub defaults_applied : Bool
  pub created_at : Option Str
  pub skip : Option (List Str)
  pub components : Option (List Str)

abbrev pub no_config : Config
no_config = record {
  version = none;
  updated_at = none;
  package_manager = none;
  orm = none;
  defaults_applied = false;
  created_at = none;
  skip = none;
  components = none;
}

-- `.projx` on the disk.
pub data ConfigFile : Type 0 where
  missing invalid : ConfigFile
  valid : Config → ConfigFile

unfoldable pub read_projx_config : ConfigFile → Config
read_projx_config missing = no_config
read_projx_config invalid = no_config
read_projx_config (valid c) = c

unfoldable pub write_projx_config : Str → Config → ConfigFile
write_projx_config today c = valid (record c {
  created_at = elim c.created_at [ some d ↦ some d | none ↦ some today ];
  skip = some (list_or_nil c.skip);
})

-- `!merged.field`
abbrev pub is_unset : Option Str → Bool
is_unset none = true
is_unset (some s) = not (is_truthy s)

-- `if (name && !merged.packageManager) merged.packageManager = name`
unfoldable pub set_if_unset : Option Str → Option Str → Option Str
set_if_unset none old = old
set_if_unset (some new) old = if is_unset old then some new else old

-- `pmObj?.name` counts only if it is not empty.
unfoldable pub truthy_or_none : Option Str → Option Str
truthy_or_none none = none
truthy_or_none (some s) = if is_truthy s then some s else none

-- `writeManagedProjx`, with `vars.pm.name` and `vars.orm`.
unfoldable pub write_managed_projx :
    Str → Str → Option Str → Option Str → Bool → ConfigFile → ConfigFile
write_managed_projx today version pm orm apply_defaults file =
    let existing = read_projx_config file in
    write_projx_config today (record existing {
      components = none;
      version = some version;
      updated_at = some today;
      package_manager = set_if_unset (truthy_or_none pm) existing.package_manager;
      orm = set_if_unset orm existing.orm;
      defaults_applied = existing.defaults_applied || apply_defaults;
    })
