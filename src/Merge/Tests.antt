-- ===== src/Merge/Tests.antt =====
-- The template update on a small project.
use projx.Base.Text.{Str, codes, ends_with, index_of}
use projx.Base.Sets.{lookup, insert, IsKeyed}
use projx.Components.{fastify, vitejs}
use projx.Merge.{
  Disk, Paths, Decision, decide_present, decide, show_fallback, show_canonical, carry_out,
  merge_files, try_three_way_merge, build_path_fallbacks, lookup_base_content, is_marker,
}
use projx.Merge.Rule.{IsOwn, Rule}
use projx.Merge.Laws.{after, is_write, is_conflict, status, verdict, try_three_way_merge-status}
use projx.Merge.Outcomes.{second_update_undoes_edits, try_three_way_merge-Rule, user_edits_survive}
use projx.Merge.Settled.{unedited_update_settles, IsUntouched}
use projx.Base.{
  All, ◌⊎◌, ◌≡◌, refl, ◌≢◌, inl, inr, Bool, true, false, Option, some, List, [], ◌∷◌, ◌++◌, nat_eq,
  list_eq, option_eq,
}

abbrev server_paths : Paths
server_paths = (fastify, codes "api") ∷ (vitejs, codes "vitejs") ∷ []

abbrev template : List (Str × Str)
template =
    (codes ".projx", codes "v2")
    ∷ (codes "api/a", codes "a2")
    ∷ (codes "api/b", codes "b1")
    ∷ (codes "api/c", codes "c2")
    ∷ (codes "api/.projx-component", codes "m")
    ∷ (codes "d", codes "d1")
    ∷ []

-- The baseline was written under the canonical name.
abbrev baseline : Str → Option Str
baseline path = lookup path (
    (codes "fastify/a", codes "a1")
    ∷ (codes "api/b", codes "b1")
    ∷ (codes "fastify/c", codes "c1")
    ∷ [])

abbrev disk : Disk
disk path = lookup path (
    (codes ".projx", codes "v1")
    ∷ (codes "api/a", codes "a1")
    ∷ (codes "api/b", codes "mine")
    ∷ (codes "api/c", codes "my c")
    ∷ [])

-- A merge that always ends in a conflict.
abbrev both_sides : Str → Str → Str → Str × Bool
both_sides ours base theirs = (ours ++ codes "|" ++ theirs, false)

steps : Unit {0}
unfolding try_three_way_merge merge_files build_path_fallbacks carry_out decide decide_present
    is_marker lookup_base_content show_fallback show_canonical lookup insert list_eq nat_eq
    ends_with index_of
steps = tt

merged_test :
    (try_three_way_merge baseline both_sides server_paths template disk).merged
    ≡ codes "api/a" ∷ codes "api/.projx-component" ∷ codes "d" ∷ []
unfolding steps
merged_test = refl

conflicted_test :
    (try_three_way_merge baseline both_sides server_paths template disk).conflicted
    ≡ codes "api/c" ∷ []
unfolding steps
conflicted_test = refl

template-IsKeyed : IsKeyed template
unfolding lookup list_eq nat_eq
template-IsKeyed = (refl, (refl, (refl, (refl, (refl, (refl, tt))))))

found_a : lookup (codes "api/a") template ≡ some (codes "a2")
unfolding lookup list_eq nat_eq
found_a = refl

found_b : lookup (codes "api/b") template ≡ some (codes "b1")
unfolding lookup list_eq nat_eq
found_b = refl

known_b : baseline (codes "api/b") ≡ some (codes "b1")
unfolding lookup list_eq nat_eq
known_b = refl

mine_b : disk (codes "api/b") ≡ some (codes "mine")
unfolding lookup list_eq nat_eq
mine_b = refl

try_three_way_merge-status_example :
    status (try_three_way_merge baseline both_sides server_paths template disk) (codes "api/c") ≡ (
      after
          (verdict baseline both_sides server_paths template disk (codes "api/c"))
          (disk (codes "api/c")),
      is_write (verdict baseline both_sides server_paths template disk (codes "api/c")),
      is_conflict (verdict baseline both_sides server_paths template disk (codes "api/c")),
    )
try_three_way_merge-status_example =
    try_three_way_merge-status baseline both_sides server_paths template disk (codes "api/c")
      template-IsKeyed

try_three_way_merge-Rule_example :
    (decision : Decision) × Rule baseline both_sides
      (build_path_fallbacks server_paths [])
      (codes "api/a")
      (codes "a2")
      (disk (codes "api/a"))
      decision
    × (status (try_three_way_merge baseline both_sides server_paths template disk) (codes "api/a")
        ≡ (after decision (disk (codes "api/a")), is_write decision, is_conflict decision))
try_three_way_merge-Rule_example =
    try_three_way_merge-Rule baseline both_sides server_paths template disk (codes "api/a")
      (codes "a2") template-IsKeyed found_a

user_edits_survive_example :
    status (try_three_way_merge baseline both_sides server_paths template disk) (codes "api/b")
    ≡ (some (codes "mine"), false, false)
user_edits_survive_example =
    user_edits_survive baseline both_sides server_paths template disk (codes "api/b") (codes "mine")
      (codes "b1") template-IsKeyed found_b known_b mine_b

-- A file that the template changes, and one that it adds.
abbrev small : List (Str × Str)
small = (codes ".projx", codes "v2") ∷ (codes "api/a", codes "a2") ∷ (codes "d", codes "d1") ∷ []

abbrev before_small : Str → Option Str
before_small path = lookup path ((codes "api/a", codes "a1") ∷ [])

small-IsKeyed : IsKeyed small
unfolding lookup list_eq nat_eq
small-IsKeyed = (refl, (refl, (refl, tt)))

small-IsUntouched : All (λ entry. IsUntouched before_small before_small entry.0) small
unfolding lookup list_eq nat_eq
small-IsUntouched = (inl (inl refl), (inr (inr (codes "a1", refl, refl)), (inr (inl refl), tt)))

unedited_update_settles_example :
    let left = (try_three_way_merge before_small both_sides server_paths small before_small).disk in
    All (λ entry. IsOwn entry.0 ⊎ (left entry.0 ≡ some entry.1)) small
    × (try_three_way_merge left both_sides server_paths small left
        ≡ record { disk = left; merged = []; conflicted = [] })
unedited_update_settles_example =
    unedited_update_settles before_small both_sides server_paths small before_small small-IsKeyed
      small-IsUntouched

plain_b : ¬ IsOwn (codes "api/b")
unfolding steps
plain_b (inl config) = cc
plain_b (inr marker) = cc

edited_b : codes "b1" ≢ codes "mine"
edited_b same = cc

second_update_undoes_edits_example :
    let first = (try_three_way_merge baseline both_sides server_paths template disk).disk in
    (first (codes "api/b") ≡ some (codes "mine"))
    × (status (try_three_way_merge first both_sides server_paths template first) (codes "api/b")
        ≡ (some (codes "b1"), true, false))
second_update_undoes_edits_example =
    second_update_undoes_edits baseline both_sides server_paths template disk (codes "api/b")
      (codes "mine") (codes "b1") template-IsKeyed plain_b found_b known_b mine_b edited_b
