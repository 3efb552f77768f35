-- ===== src/Project/Tests.antt =====
-- Markers and configurations at concrete content.
use projx.Base.Text.{codes}
use projx.Components.{component_eq, fastify, express, normalize_component}
use projx.Components.Orm.{drizzle, orm_eq}
use projx.Project.{
  text, texts, other_value, RawMarker, ComponentMarkerData, parse_marker, write_component_marker,
  upsert_component_marker, read_component, or_else, read_features, read_orm, orm_of, only_strings,
  Config, no_config, read_projx_config, list_or_nil, read_first_component, preserved_features,
  preserved_orm,
}
use projx.Project.Markers.{
  some_nonempty, parse-write_component_marker, parse-upsert_component_marker,
}
use projx.Project.Updates.{update_config_keeps, update_config, Managed, Recorded}
use projx.Components.Packages.{pnpm}
use projx.Base.{◌⊎◌}
use projx.Base.{◌≡◌, refl, true, ◌||◌, none, some, [], ◌∷◌, nat_eq, list_eq, option_eq}

abbrev raw : RawMarker
raw = record {
  component = text (codes "express");
  components = other_value;
  skip = some (codes "*.md" ∷ []);
  features = texts (some (codes "auth") ∷ none ∷ []);
  orm = text (codes "drizzle");
}

abbrev parsed : ComponentMarkerData
parsed = record {
  component = express;
  skip = codes "*.md" ∷ [];
  features = some (codes "auth" ∷ []);
  orm = some drizzle;
}

raw_parses : parse_marker raw ≡ some parsed
unfolding parse_marker read_component read_first_component or_else normalize_component read_features
    only_strings read_orm orm_of list_eq nat_eq
raw_parses = refl

parse-write_component_marker_example :
    parse_marker (write_component_marker (some raw) parsed)
    ≡ some (record {
      component = parsed.component;
      skip = parsed.skip;
      features = some_nonempty (or_else parsed.features (preserved_features (some raw)));
      orm = or_else parsed.orm (preserved_orm (some raw));
    })
parse-write_component_marker_example = parse-write_component_marker (some raw) parsed

parse-upsert_component_marker_example :
    parse_marker (upsert_component_marker (some raw) fastify none none)
    ≡ some (record parsed { component = fastify; features = some_nonempty parsed.features })
parse-upsert_component_marker_example = parse-upsert_component_marker raw parsed fastify raw_parses

abbrev old : Config
old = record no_config {
  package_manager = some (codes "npm");
  orm = some (codes "drizzle");
  created_at = some (codes "2025-01-01");
}

update_config_keeps_example :
    let new =
      read_projx_config
        (update_config (codes "2026-01-01") (codes "2.0.0") (some pnpm) none true old) in
    (new.skip ≡ some (list_or_nil old.skip))
    × ((new.created_at ≡ old.created_at)
        ⊎ ((old.created_at ≡ none) × (new.created_at ≡ some (codes "2026-01-01"))))
    × Managed (some pnpm) old.package_manager new.package_manager
    × Recorded none old.orm new.orm
    × (new.version ≡ some (codes "2.0.0"))
    × (new.defaults_applied ≡ (old.defaults_applied || true))
update_config_keeps_example =
    update_config_keeps (codes "2026-01-01") (codes "2.0.0") (some pnpm) none true old
