-- ===== src/Components.antt =====
-- The components, package managers and ORM providers: the tables of cli/src/utils.ts, and the
-- choice of an ORM for a component.
pub mod Suggest
pub mod Packages
pub mod Orm
mod Tests
use projx.Base.Text.{Str, codes}
use projx.Base.{
  ℕ, zero, suc, ◌+◌, ◌-◌, ◌*◌, ◌/◌, ◌%◌, ◌^◌, ◌≤◌, ◌<◌, min, ◌≡◌, refl, sym, ap, ◌∙◌, ◌≢◌, ◌↔◌, ◌⊎◌,
  inl, inr, ite, Bool, true, false, not, ◌&&◌, ◌||◌, Option, none, some, List, [], ◌∷◌, ◌++◌, map,
  arith, leb, ltb, if◌then◌else◌, Bool-cases, Option-cases, Eq, ◌==◌, ==_iff, contains, nat_eq,
  list_eq, option_eq, length, take, drop, any, all, filter, find, length-append, drop-append,
  take-append, take-append-drop, any-append, All, Any, All-append, dec_lt, ℕ_discrete,
}

-- `Component`, the union of `COMPONENTS`.
pub data Component : Type 0 where
  fastapi fastify express go rust laravel vitejs nextjs mobile e2e infra admin_panel : Component

component_dec : Discrete Component
component_dec = hlevel

instance unfoldable pub component_eq : Eq Component
unfolding component_dec
component_eq = record { dec = component_dec }

-- The string that a component is in the source.
abbrev pub component_name : Component → Str
component_name fastapi = codes "fastapi"
component_name fastify = codes "fastify"
component_name express = codes "express"
component_name go = codes "go"
component_name rust = codes "rust"
component_name laravel = codes "laravel"
component_name vitejs = codes "vitejs"
component_name nextjs = codes "nextjs"
component_name mobile = codes "mobile"
component_name e2e = codes "e2e"
component_name infra = codes "infra"
component_name admin_panel = codes "admin-panel"

abbrev pub components : List Component
components =
    fastapi ∷ fastify ∷ express ∷ go ∷ rust ∷ laravel ∷ vitejs ∷ nextjs ∷ mobile ∷ e2e ∷ infra
    ∷ admin_panel ∷ []

-- `COMPONENT_ALIASES[raw] ?? raw`
unfoldable pub resolve_alias : Str → Str
resolve_alias raw = if raw == codes "frontend" then codes "vitejs" else raw

-- `includes(id) ? (id as Component) : null`
unfoldable pub component_of : List Component → Str → Option Component
component_of [] id = none
component_of (c ∷ cs) id = if component_name c == id then some c else component_of cs id

unfoldable pub normalize_component : Str → Option Component
unfolding resolve_alias component_of
normalize_component raw = component_of components (resolve_alias raw)
