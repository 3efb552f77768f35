-- ===== src/Project/Markers.antt =====
-- Writing a marker and reading it back.
use projx.Base.Text.{Str}
use projx.Components.{
  Component, component_name, normalize_component, fastapi, fastify, express, go, rust, laravel,
  vitejs, nextjs, mobile, e2e, infra, admin_panel,
}
use projx.Components.Orm.{
  OrmProvider, prisma, drizzle, sequelize, typeorm, gorm, sqlc, ent, seaorm, eloquent,
}
use projx.Project.{
  list_or_nil, orm_of, RawMarker, ComponentMarkerData, read_orm, read_features, parse_marker,
  read_component_marker, preserved_features, preserved_orm, write_component_marker,
  upsert_component_marker, write_features, write_orm, or_else, only_strings, existing_skip,
  existing_orm, read_component,
}
use projx.Base.{
  ◌≡◌, refl, ap, ◌∙◌, Option, none, some, List, [], ◌∷◌, map, arith, nat_eq, list_eq, option_eq,
}

-- An empty list of features is not written.
abbrev pub some_nonempty : Option (List Str) → Option (List Str)
some_nonempty (some (f ∷ fs)) = some (f ∷ fs)
some_nonempty _ = none

pub normalize-component_name : (c : Component) → normalize_component (component_name c) ≡ some c
unfolding normalize_component list_eq nat_eq
normalize-component_name fastapi = refl
normalize-component_name fastify = refl
normalize-component_name express = refl
normalize-component_name go = refl
normalize-component_name rust = refl
normalize-component_name laravel = refl
normalize-component_name vitejs = refl
normalize-component_name nextjs = refl
normalize-component_name mobile = refl
normalize-component_name e2e = refl
normalize-component_name infra = refl
normalize-component_name admin_panel = refl

read-write_orm : (orm : Option OrmProvider) → read_orm (write_orm orm) ≡ orm
unfolding read_orm orm_of write_orm list_eq nat_eq
read-write_orm none = refl
read-write_orm (some prisma) = refl
read-write_orm (some drizzle) = refl
read-write_orm (some sequelize) = refl
read-write_orm (some typeorm) = refl
read-write_orm (some gorm) = refl
read-write_orm (some sqlc) = refl
read-write_orm (some ent) = refl
read-write_orm (some seaorm) = refl
read-write_orm (some eloquent) = refl

only_strings-map : (xs : List Str) → only_strings (map some xs) ≡ xs
unfolding only_strings
only_strings-map [] = refl
only_strings-map (x ∷ xs) = ap (λ l. x ∷ l) (only_strings-map xs)

read-write_features :
    (fs : Option (List Str)) → read_features (write_features fs) ≡ some_nonempty fs
unfolding read_features write_features
read-write_features none = refl
read-write_features (some []) = refl
read-write_features (some (f ∷ fs)) = ap some (only_strings-map (f ∷ fs))

parse_of_component :
    (raw : RawMarker) (c : Component)
    → read_component raw.component ≡ some c
    → parse_marker raw
      ≡ some (record {
        component = c;
        skip = list_or_nil raw.skip;
        features = read_features raw.features;
        orm = read_orm raw.orm;
      })
unfolding parse_marker or_else
parse_of_component raw c e = rw (e, parse_marker, or_else)

parse_marker_fields :
    (raw : RawMarker) (m : ComponentMarkerData)
    → parse_marker raw ≡ some m
    → (m.features ≡ read_features raw.features)
      × (m.orm ≡ read_orm raw.orm)
      × (m.skip ≡ list_or_nil raw.skip)
unfolding parse_marker
parse_marker_fields raw m e = ground arith

or_else_self {ℓ} : {A : Type ℓ} (o : Option A) → or_else o o ≡ o
unfolding or_else
or_else_self none = refl
or_else_self (some a) = refl

-- A marker that is written reads back as what was written, but for an empty list of features, which is
-- dropped; a feature list or an ORM that the caller leaves out is the one of the file that was there
-- before.
pub parse-write_component_marker :
    (existing : Option RawMarker) (d : ComponentMarkerData)
    → parse_marker (write_component_marker existing d)
      ≡ some (record {
        component = d.component;
        skip = d.skip;
        features = some_nonempty (or_else d.features (preserved_features existing));
        orm = or_else d.orm (preserved_orm existing);
      })
unfolding write_component_marker read_component
parse-write_component_marker existing d =
    parse_of_component (write_component_marker existing d) d.component
      (normalize-component_name d.component)
    ∙ rw (read-write_features, read-write_orm)

-- Registering a component anew keeps the skip list, the features and the ORM of its marker, as
-- far as no new ones are given (an empty list of features is dropped).
pub parse-upsert_component_marker :
    (raw : RawMarker) (m : ComponentMarkerData) (component : Component)
    → parse_marker raw ≡ some m
    → parse_marker (upsert_component_marker (some raw) component none none)
      ≡ some (record m { component = component; features = some_nonempty m.features })
unfolding upsert_component_marker read_component_marker or_else existing_skip existing_orm
    preserved_features preserved_orm
parse-upsert_component_marker raw m component e =
    let (fs, orm, _) = parse_marker_fields raw m e in
    rw (e, parse-write_component_marker) (rw (fs, ← orm, or_else_self m.orm))
