-- ===== src/Skip.antt =====
-- Skip patterns: `matchesSkip` of cli/src/baseline.ts, which decides the files that a template
-- update leaves alone.
pub mod Laws
mod Tests
use projx.Base.Text.{Str, codes, starts_with, ends_with, includes, drop_end}
use projx.Base.{
  ℕ, zero, suc, ◌+◌, ◌-◌, ◌*◌, ◌/◌, ◌%◌, ◌^◌, ◌≤◌, ◌<◌, min, ◌≡◌, refl, sym, ap, ◌∙◌, ◌≢◌, ◌↔◌, ◌⊎◌,
  inl, inr, ite, Bool, true, false, not, ◌&&◌, ◌||◌, Option, none, some, List, [], ◌∷◌, ◌++◌, map,
  arith, leb, ltb, if◌then◌else◌, Bool-cases, Option-cases, Eq, ◌==◌, ==_iff, contains, nat_eq,
  list_eq, option_eq, length, take, drop, any, all, filter, find, length-append, drop-append,
  take-append, take-append-drop, any-append, All, Any, All-append, dec_lt, ℕ_discrete,
}

-- A pattern `dir/**`: the directory and all below it.
unfoldable pub under_directory : Str → Str → Bool
under_directory file pattern =
    ends_with pattern (codes "/**")
    && (starts_with file (drop_end 3 pattern ++ codes "/") || file == drop_end 3 pattern)

-- A pattern `**/suffix`, or `**/*.ext`.
unfoldable pub in_any_directory : Str → Str → Bool
in_any_directory file pattern =
    starts_with pattern (codes "**/")
    && (if starts_with (drop 3 pattern) (codes "*.")
        then ends_with file (drop 1 (drop 3 pattern))
        else (ends_with file (drop 3 pattern) || includes file (codes "/" ++ drop 3 pattern)))

-- A pattern `*.ext`.
unfoldable pub by_extension : Str → Str → Bool
by_extension file pattern = starts_with pattern (codes "*.") && ends_with file (drop 1 pattern)

-- One round of the loop.
unfoldable pub pattern_matches : Str → Str → Bool
unfolding under_directory in_any_directory by_extension
pattern_matches file pattern =
    pattern == codes "**"
    || under_directory file pattern
    || in_any_directory file pattern
    || by_extension file pattern
    || file == pattern

unfoldable pub matches_skip : Str → List Str → Bool
unfolding pattern_matches
matches_skip file [] = false
matches_skip file (pattern ∷ patterns) =
    if pattern_matches file pattern then true else matches_skip file patterns
