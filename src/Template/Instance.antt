-- ===== src/Template/Instance.antt =====
-- One instance of a component: `copyComponent` of cli/src/utils.ts, `removeSkippedFiles`,
-- `writeOneInstance` and the ORM add-ons of cli/src/baseline.ts.
--
-- Paths are relative to the instance's directory. Rendering the templates, putting in the project's
-- names, stamping the package manager and printing the marker are parameters from files to files.
pub mod Laws
use projx.Base.Text.{Str, codes, starts_with, ends_with, drop_end, split}
use projx.Base.Sets.{dedup}
use projx.Components.{
  Component, component_name, component_eq, fastapi, fastify, express, go, vitejs, nextjs, e2e,
  mobile,
}
use projx.Components.Orm.{
  OrmProvider, orm_eq, prisma, drizzle, sequelize, typeorm, gorm, sqlc, ent, resolve_instance_orm,
}
use projx.Project.{ComponentMarkerData}
use projx.Project.Discover.{exclude}
use projx.Skip.{matches_skip}
use projx.Merge.{Disk, write_file}
use projx.Apply.{write_all}
use projx.Template.{exists}
use projx.Base.{
  Bool, not, ◌&&◌, ◌||◌, Option, none, some, List, [], ◌∷◌, ◌++◌, if◌then◌else◌, ◌==◌, contains,
  nat_eq, list_eq, option_eq, all, filter,
}

abbrev exclude_files : List Str
exclude_files =
    codes "uv.lock"
    ∷ codes "pnpm-lock.yaml"
    ∷ codes "package-lock.json"
    ∷ codes "pubspec.lock"
    ∷ codes "composer.lock"
    ∷ codes ".env"
    ∷ codes ".env.dev"
    ∷ codes ".env.staging"
    ∷ codes ".env.prod"
    ∷ codes "dev.tfplan"
    ∷ codes ".coverage"
    ∷ codes "coverage.out"
    ∷ codes "coverage.html"
    ∷ []

-- The filter of `copyComponent` on one name.
unfoldable pub is_copied_name : Str → Bool
is_copied_name base = not (
    contains exclude base
    || contains exclude_files base
    || starts_with base (codes "coverage-")
    || ends_with base (codes ".pyc"))

-- A file is copied if its name and those of the directories above it pass.
unfoldable pub is_copied : Str → Bool
is_copied file = all is_copied_name (split 47 file)

unfoldable pub copy_component : List (Str × Str) → List (Str × Str)
copy_component files = filter (λ entry. is_copied entry.0) files

unfoldable pub last_name : List Str → Str
last_name [] = []
last_name (name ∷ []) = name
last_name (name ∷ next ∷ names) = last_name (next ∷ names)

unfoldable pub target_rel : Str → Str
target_rel rel = if ends_with rel (codes ".ejs") then drop_end 4 rel else rel

-- The file is unlinked: a skipped one that the user has.
unfoldable pub is_removed : List Str → Disk → Str → Bool
is_removed skip real rel =
    not (last_name (split 47 rel) == codes ".projx-component")
    && (matches_skip (target_rel rel) skip || matches_skip rel skip)
    && exists real (target_rel rel)

unfoldable pub remove_skipped_files : List Str → Disk → List (Str × Str) → List (Str × Str)
remove_skipped_files [] real files = files
remove_skipped_files (pattern ∷ skip) real files =
    filter (λ entry. not (is_removed (pattern ∷ skip) real entry.0)) files

abbrev pub default_component_skip_patterns : Component → List Str
default_component_skip_patterns component =
    if component == fastapi
    then codes "pyproject.toml" ∷ []
    else if contains (fastify ∷ express ∷ vitejs ∷ nextjs ∷ e2e ∷ []) component
    then codes "package.json" ∷ []
    else if component == mobile
    then codes "pubspec.yaml" ∷ []
    else []

abbrev pub marker_skip : Option ComponentMarkerData → List Str
marker_skip none = []
marker_skip (some marker) = marker.skip

abbrev pub marker_orm : Option ComponentMarkerData → Option OrmProvider
marker_orm none = none
marker_orm (some marker) = marker.orm

-- The default applies to a new instance, or when the caller asks for it.
abbrev pub default_skip : Component → Option ComponentMarkerData → Bool → List Str
default_skip component none apply_defaults = default_component_skip_patterns component
default_skip component (some _) apply_defaults =
    if apply_defaults then default_component_skip_patterns component else []

unfoldable pub skip_patterns : Component → Option ComponentMarkerData → Bool → List Str → List Str
skip_patterns component marker apply_defaults base_skip =
    dedup (base_skip ++ marker_skip marker ++ default_skip component marker apply_defaults)

-- An ORM's add-on: its manifest and its files.
pub record Addon : Type 0 where
  pub frameworks : List Str
  pub remove_from_base : List Str
  -- The overrides of `package.json` or `go.mod`, from text to text.
  pub override_package : Option (Str → Str)
  pub override_gomod : Option (Str → Str)
  pub shared : List (Str × Str)
  pub framework : List (Str × Str)
  pub dockerfile : Str

-- `rm(path, { recursive: true, force: true })`
abbrev pub remove_path : Str → Disk → Disk
remove_path dir disk path =
    if path == dir || starts_with path (dir ++ codes "/") then none else disk path

unfoldable pub remove_all : List Str → Disk → Disk
remove_all [] disk = disk
remove_all (dir ∷ dirs) disk = remove_all dirs (remove_path dir disk)

-- A file that is rewritten if it is there and the manifest has overrides for it.
abbrev pub override_file : Str → Option Str → Option (Str → Str) → Disk → Disk
override_file file (some text) (some override) disk = write_file file (override text) disk
override_file file (some text) none disk = disk
override_file file none override disk = disk

-- `none` stands for the error on an ORM without a manifest, or for another framework.
unfoldable pub apply_orm_addon : Option Addon → Component → Disk → Option Disk
apply_orm_addon none component disk = none
apply_orm_addon (some addon) component disk =
    if not (contains addon.frameworks (component_name component))
    then none
    else let cleared = remove_all addon.remove_from_base disk in
      let overridden =
        (if component == go
          then override_file (codes "go.mod") (cleared (codes "go.mod")) addon.override_gomod
              cleared
          else override_file (codes "package.json") (cleared (codes "package.json"))
              addon.override_package cleared) in
      some (
        write_file (codes "Dockerfile") addon.dockerfile
          (write_all addon.framework (write_all addon.shared overridden)))

-- `NODE_ORM_PROVIDERS` and `GO_ORM_PROVIDERS`
abbrev node_orm_providers : List OrmProvider
node_orm_providers = prisma ∷ drizzle ∷ sequelize ∷ typeorm ∷ []

abbrev go_orm_providers : List OrmProvider
go_orm_providers = gorm ∷ sqlc ∷ ent ∷ []

-- The steps that only rewrite files that are there, and the marker.
pub record Finish : Type 0 where
  pub render_ejs : Disk → Disk
  pub write_marker : List Str → Option OrmProvider → Disk → Disk
  pub substitute_names : Disk → Disk
  pub stamp_package_manager : Disk → Disk

abbrev pub apply_orm_provider_to_instance :
    (OrmProvider → Option Addon) → Component → Option OrmProvider → Disk → Option Disk
apply_orm_provider_to_instance addon_of component none disk = some disk
apply_orm_provider_to_instance addon_of component (some orm) disk =
    if component == fastify || component == express
    then (if orm == prisma || not (contains node_orm_providers orm)
        then some disk
        else apply_orm_addon (addon_of orm) component disk)
    else if component == go
    then (if orm == gorm || not (contains go_orm_providers orm)
        then some disk
        else apply_orm_addon (addon_of orm) component disk)
    else some disk

-- `inst.orm ?? instanceOrmOverride ?? realMarker?.orm`
abbrev pub first_orm : Option OrmProvider → Option OrmProvider → Option OrmProvider
first_orm (some orm) _ = some orm
first_orm none later = later

abbrev package_manager_stamp_components : List Component
package_manager_stamp_components = fastify ∷ express ∷ vitejs ∷ nextjs ∷ e2e ∷ []

abbrev pub finish_instance :
    Finish → Component → List Str → Option OrmProvider → Option Disk → Option Disk
finish_instance finish component skip orm none = none
finish_instance finish component skip orm (some disk) =
    let named = finish.substitute_names (finish.write_marker skip orm disk) in
    some (
      if contains package_manager_stamp_components component
      then finish.stamp_package_manager named
      else named)

-- What the caller of `writeOneInstance` says of an instance.
pub record InstanceOptions : Type 0 where
  pub component : Component
  pub own_orm : Option OrmProvider
  pub override_orm : Option OrmProvider
  pub global_orm : Option OrmProvider
  pub base_skip : List Str
  pub apply_defaults : Bool

-- From the component's files in the repository, the marker and the files of the user's instance and
-- the target's files, the target's new files.
unfoldable pub write_one_instance :
    (OrmProvider → Option Addon)
    → Finish
    → InstanceOptions
    → Option ComponentMarkerData
    → List (Str × Str)
    → Disk
    → Disk
    → Option Disk
write_one_instance addon_of finish options marker files real out =
    let skip = skip_patterns options.component marker options.apply_defaults options.base_skip in
    let copied = remove_skipped_files skip real (copy_component files) in
    let explicit_orm =
      first_orm options.own_orm (first_orm options.override_orm (marker_orm marker)) in
    let orm = resolve_instance_orm options.component explicit_orm options.global_orm in
    finish_instance finish options.component skip explicit_orm (
      apply_orm_provider_to_instance addon_of options.component orm
        (finish.render_ejs (write_all copied out)))
