-- ===== src/Skip/Tests.antt =====
-- Skip patterns at concrete files.
use projx.Base.Text.{Str, codes, starts_with, ends_with, includes}
use projx.Skip.{matches_skip}
use projx.Skip.Laws.{Matches, matches_skip_iff}
use projx.Base.{◌≡◌, refl, ◌↔◌, Bool, true, false, List, [], ◌∷◌, nat_eq, list_eq, option_eq, Any}

abbrev patterns : List Str
patterns =
    codes "src/**" ∷ codes "**/*.py" ∷ codes "**/x.ts" ∷ codes "*.md" ∷ codes "package.json" ∷ []

skip : Str → Bool
unfolding matches_skip starts_with ends_with includes list_eq nat_eq
skip file = matches_skip file patterns

skip_tests :
    (skip (codes "src") ≡ true)
    × (skip (codes "src/a/b") ≡ true)
    × (skip (codes "srcs") ≡ false)
    × (skip (codes "lib/a.py") ≡ true)
    × (skip (codes "lib/my-x.ts") ≡ true)
    × (skip (codes "docs/a.md") ≡ true)
    × (skip (codes "package.json") ≡ true)
    × (skip (codes "app/package.json") ≡ false)
unfolding skip
skip_tests = (refl, refl, refl, refl, refl, refl, refl, refl)

matches_skip_iff_example :
    (matches_skip (codes "src/a") patterns ≡ true) ↔ Any (Matches (codes "src/a")) patterns
matches_skip_iff_example = matches_skip_iff (codes "src/a") patterns
