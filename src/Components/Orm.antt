-- ===== src/Components/Orm.antt =====
-- The ORM of a component instance: `resolveInstanceOrm` of cli/src/utils.ts.
use projx.Components.{Component, fastify, express, go, rust, laravel}
use projx.Base.{
  ◌≡◌, refl, ◌∙◌, ◌≢◌, Bool, false, Option, none, some, List, [], ◌∷◌, arith, if◌then◌else◌, Eq,
  ◌==◌, contains, nat_eq, list_eq, option_eq,
}

pub data OrmProvider : Type 0 where
  prisma drizzle sequelize typeorm gorm sqlc ent seaorm eloquent : OrmProvider

orm_dec : Discrete OrmProvider
orm_dec = hlevel

instance unfoldable pub orm_eq : Eq OrmProvider
unfolding orm_dec
orm_eq = record { dec = orm_dec }

pub data Family : Type 0 where
  node_family go_family rust_family php_family : Family

family_dec : Discrete Family
family_dec = hlevel

instance unfoldable pub family_eq : Eq Family
unfolding family_dec
family_eq = record { dec = family_dec }

abbrev node_orm_providers : List OrmProvider
node_orm_providers = prisma ∷ drizzle ∷ sequelize ∷ typeorm ∷ []

abbrev go_orm_providers : List OrmProvider
go_orm_providers = gorm ∷ sqlc ∷ ent ∷ []

abbrev rust_orm_providers : List OrmProvider
rust_orm_providers = seaorm ∷ []

abbrev php_orm_providers : List OrmProvider
php_orm_providers = eloquent ∷ []

unfoldable pub orm_backend_family : OrmProvider → Family
orm_backend_family orm =
    if contains go_orm_providers orm
    then go_family
    else if contains rust_orm_providers orm
    then rust_family
    else if contains php_orm_providers orm
    then php_family
    else node_family

-- `BACKEND_DEFAULT_ORM[component]`
abbrev pub backend_default_orm : Component → Option OrmProvider
backend_default_orm fastify = some prisma
backend_default_orm express = some prisma
backend_default_orm go = some gorm
backend_default_orm rust = some seaorm
backend_default_orm laravel = some eloquent
backend_default_orm _ = none

-- `globalOrm && ormBackendFamily(globalOrm) === ormBackendFamily(fallback)`
same_family : Option OrmProvider → OrmProvider → Bool
unfolding orm_backend_family
same_family none fallback = false
same_family (some orm) fallback = orm_backend_family orm == orm_backend_family fallback

unfoldable pub resolve_instance_orm :
    Component → Option OrmProvider → Option OrmProvider → Option OrmProvider
unfolding same_family
resolve_instance_orm component instance_orm global_orm = elim (backend_default_orm component) [
  | none ↦ none
  | some fallback ↦ elim instance_orm [
    | some orm ↦ some orm
    | none ↦ if same_family global_orm fallback then global_orm else some fallback
  ]
]

-- Where the ORM of a component with a default comes from.
pub data Chosen (own global : Option OrmProvider) (fallback o : OrmProvider) : Type 0 where
  explicit : own ≡ some o → Chosen own global fallback o
  inherited :
      own ≡ none
      → global ≡ some o
      → orm_backend_family o ≡ orm_backend_family fallback
      → Chosen own global fallback o
  default_only : own ≡ none → global ≡ none → o ≡ fallback → Chosen own global fallback o
  other_family :
      (g : OrmProvider)
      → own ≡ none
      → global ≡ some g
      → orm_backend_family g ≢ orm_backend_family fallback
      → o ≡ fallback
      → Chosen own global fallback o

resolve_of_default :
    (component : Component) (own global : Option OrmProvider) (fallback : OrmProvider)
    → backend_default_orm component ≡ some fallback
    → resolve_instance_orm component own global ≡ (elim own [
      | some orm ↦ some orm
      | none ↦ if same_family global fallback then global else some fallback
    ])
unfolding resolve_instance_orm
resolve_of_default component own global fallback d = rw (d, resolve_instance_orm)

-- A component with a default ORM always gets one: its own; else the global one, if that is of the
-- family of the default; else the default, when there is no global one or it is of another family.
pub resolve-Chosen :
    (component : Component) (own global : Option OrmProvider) (fallback : OrmProvider)
    → backend_default_orm component ≡ some fallback
    → (o : OrmProvider) × (resolve_instance_orm component own global ≡ some o)
      × Chosen own global fallback o
unfolding same_family
resolve-Chosen component (some o) global fallback d =
    (o, resolve_of_default component (some o) global fallback d, explicit refl)
resolve-Chosen component none none fallback d =
    (fallback, resolve_of_default component none none fallback d, default_only refl refl refl)
resolve-Chosen component none (some g) fallback d =
    elim (family_dec (orm_backend_family g) (orm_backend_family fallback)) [
      | yes same ↦ (
        g,
        resolve_of_default component none (some g) fallback d ∙ ground arith,
        inherited refl refl same,
      )
      | no other ↦ (
        fallback,
        resolve_of_default component none (some g) fallback d ∙ ground arith,
        other_family g refl refl other refl,
      )
    ]
