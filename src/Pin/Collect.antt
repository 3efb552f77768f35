-- ===== src/Pin/Collect.antt =====
-- Which patterns the first loop of `pin` and `unpin` puts on which list.
use projx.Base.Text.{Str}
use projx.Base.Sets.{lookup, lookup-insert, contains-append}
use projx.Components.{Component, component_eq}
use projx.Project.{list_or_nil}
use projx.Pin.{Scope, root, in_component, Paths, classify_pattern, Sorted, put_scope, sort_patterns}
use projx.Base.{
  ◌≡◌, Bool, not, ◌&&◌, ◌||◌, List, [], ◌∷◌, arith, Eq, ◌==◌, contains, nat_eq, list_eq, option_eq,
  any, ℕ_discrete,
}

scope_dec : Discrete Scope
scope_dec = hlevel ℕ_discrete

instance unfoldable pub scope_eq : Eq Scope
unfolding scope_dec
scope_eq = record { dec = scope_dec }

-- The pattern is let through and asks for an entry on a certain list.
abbrev pub asks : (Str → Bool) → Paths → Scope → Str → Bool
asks refused paths scope pattern = not (refused pattern) && classify_pattern pattern paths == scope

abbrev pub changes_at : Component → Sorted → List Str
changes_at c acc = list_or_nil (lookup c acc.at_component)

put_scope-at_root :
    (scope : Scope) (acc : Sorted) (s : Str)
    → contains (put_scope scope acc).at_root s ≡ (contains acc.at_root s || scope == root s)
unfolding put_scope
put_scope-at_root (root r) acc s = ground (arith, contains-append acc.at_root (r ∷ []) s)
put_scope-at_root (in_component c r) acc s = ground arith

put_scope-at_component :
    (scope : Scope) (acc : Sorted) (c : Component) (s : Str)
    → contains (changes_at c (put_scope scope acc)) s
      ≡ (contains (changes_at c acc) s || scope == in_component c s)
unfolding put_scope
put_scope-at_component (root r) acc c s = ground arith
put_scope-at_component (in_component d r) acc c s = elim (component_eq.dec c d) [
  | yes same ↦
      rw (lookup-insert, same)
        (ground (arith, contains-append (list_or_nil (lookup d acc.at_component)) (r ∷ []) s))
  | no other ↦ rw lookup-insert (ground arith)
]

module _ (refused : Str → Bool) (paths : Paths) where
  pub sort_patterns-at_root :
      (patterns : List Str) (acc : Sorted) (s : Str)
      → contains (sort_patterns refused paths patterns acc).at_root s
        ≡ (contains acc.at_root s || any (asks refused paths (root s)) patterns)
  unfolding sort_patterns
  sort_patterns-at_root [] acc s = ground arith
  sort_patterns-at_root (p ∷ ps) acc s = ground (
    arith,
    sort_patterns-at_root ps acc s,
    sort_patterns-at_root ps (put_scope (classify_pattern p paths) acc) s,
    put_scope-at_root (classify_pattern p paths) acc s,
  )

  pub sort_patterns-at_component :
      (patterns : List Str) (acc : Sorted) (c : Component) (s : Str)
      → contains (changes_at c (sort_patterns refused paths patterns acc)) s
        ≡ (contains (changes_at c acc) s || any (asks refused paths (in_component c s)) patterns)
  unfolding sort_patterns
  sort_patterns-at_component [] acc c s = ground arith
  sort_patterns-at_component (p ∷ ps) acc c s = ground (
    arith,
    sort_patterns-at_component ps acc c s,
    sort_patterns-at_component ps (put_scope (classify_pattern p paths) acc) c s,
    put_scope-at_component (classify_pattern p paths) acc c s,
  )
