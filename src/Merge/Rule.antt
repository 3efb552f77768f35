-- ===== src/Merge/Rule.antt =====
-- The rule of a three-way merge for one file, as a relation, against the loop of
-- `tryThreeWayMerge`.
use projx.Base.Text.{Str, codes}
use projx.Merge.{
  lookup_base_content, is_marker, Decision, leave, write, from_merge, decide_present, decide,
}
use projx.Base.{
  ◌≡◌, ◌≢◌, ◌⊎◌, inl, inr, Bool, true, false, Option, none, some, List, Bool-cases, Option-cases,
  eq_cases, nat_eq, list_eq, option_eq,
}

-- A file that belongs to projx itself.
abbrev pub IsOwn : Str → Type 0
IsOwn file = (file ≡ codes ".projx") ⊎ (is_marker file ≡ true)

module _ (show : Str → Option Str) (merge_file : Str → Str → Str → Str × Bool)
    (fallbacks : List (Str × Str)) (file theirs : Str) where
  -- The content before, the decision.
  pub data Rule : Option Str → Decision → Type 0 where
    -- The configuration and the markers that are there are never touched.
    config : {ours : Option Str} → file ≡ codes ".projx" → Rule ours leave
    marker : {ours : Str} → is_marker file ≡ true → Rule (some ours) leave
    -- A file that the user lacks is created.
    create : file ≢ codes ".projx" → Rule none (write theirs)
    -- With no base nothing is known of the user's edits, and the file stays.
    no_base : {ours : Str} → lookup_base_content show file fallbacks ≡ none → Rule (some ours) leave
    -- The template has not changed, or the user has the change already.
    unchanged :
        {ours base : Str}
        → lookup_base_content show file fallbacks ≡ some base
        → theirs ≡ base
        → Rule (some ours) leave
    same_change : {ours : Str} → ours ≡ theirs → Rule (some ours) leave
    -- The user has not changed the file: it is replaced.
    replace :
        {ours base : Str}
        → (¬ IsOwn file)
        → lookup_base_content show file fallbacks ≡ some base
        → ours ≡ base
        → theirs ≢ base
        → Rule (some ours) (write theirs)
    -- Both have changed it.
    both :
        {ours base : Str}
        → (¬ IsOwn file)
        → lookup_base_content show file fallbacks ≡ some base
        → ours ≢ base
        → theirs ≢ base
        → ours ≢ theirs
        → Rule (some ours) (from_merge (merge_file ours base theirs))

  decide_present-Rule :
      (ours base : Str)
      → (¬ IsOwn file)
      → lookup_base_content show file fallbacks ≡ some base
      → Rule (some ours) (decide_present show merge_file ours base theirs)
  unfolding decide_present
  decide_present-Rule ours base own found = elim (eq_cases theirs base) [
    | inl (test, same) ↦ rw test (unchanged found same)
    | inr (test, new) ↦ elim (eq_cases ours base) [
      | inl (test', untouched) ↦ rw (test, test') (replace own found untouched new)
      | inr (test', edited) ↦ elim (eq_cases ours theirs) [
        | inl (test'', agreed) ↦ rw (test, test', test'') (same_change agreed)
        | inr (test'', other) ↦ rw (test, test', test'') (both own found edited new other)
      ]
    ]
  ]

  pub decide-Rule :
      (ours : Option Str) → Rule ours (decide show merge_file fallbacks file theirs ours)
  unfolding decide
  decide-Rule none = elim (eq_cases file (codes ".projx")) [
    | inl (test, own) ↦ rw test (config own)
    | inr (test, other) ↦ rw test (create other)
  ]
  decide-Rule (some ours) = elim (eq_cases file (codes ".projx")) [
    | inl (test, own) ↦ rw test (config own)
    | inr (test, other) ↦ elim (Bool-cases (is_marker file)) [
      | inl own ↦ rw (test, own) (marker own)
      | inr plain ↦ elim (Option-cases (lookup_base_content show file fallbacks)) [
        | inl unknown ↦ rw (test, plain, unknown) (no_base unknown)
        | inr (base, found) ↦
            rw (test, plain, found) (decide_present-Rule ours base (not_own other plain) found)
      ]
    ]
  ]
    where
      not_own : file ≢ codes ".projx" → is_marker file ≡ false → ¬ IsOwn file
      not_own other plain (inl own) = other own
      not_own other plain (inr own) = cc
