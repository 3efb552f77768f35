-- ===== src/Skip/Laws.antt =====
-- `matchesSkip` against the meaning of a pattern.
use projx.Base.Text.{Str, codes, starts_with, ends_with, includes, drop_end}
use projx.Base.Text.Laws.{
  starts_with-append, starts_with_rest, ends_with-append, ends_with_rest, includes-middle,
  includes_parts, drop_end-append,
}
use projx.Skip.{under_directory, in_any_directory, by_extension, pattern_matches, matches_skip}
use projx.Base.{
  ◌-◌, ◌≡◌, ap, ◌∙◌, ◌↔◌, inl, inr, true, false, ◌||◌, List, [], ◌∷◌, ◌++◌, arith, if◌then◌else◌,
  Bool-cases, ◌==◌, ==_iff, nat_eq, list_eq, option_eq, length, take, drop, all, Any,
}

-- What a pattern means for a file, by the parts of both.
pub data Matches (file pattern : Str) : Type 0 where
  everything : pattern ≡ codes "**" → Matches file pattern
  directory : (dir : Str) → pattern ≡ dir ++ codes "/**" → file ≡ dir → Matches file pattern
  below :
      (dir rest : Str)
      → pattern ≡ dir ++ codes "/**"
      → file ≡ (dir ++ codes "/") ++ rest
      → Matches file pattern
  any_extension :
      (stem ext : Str)
      → pattern ≡ codes "**/*." ++ ext
      → file ≡ stem ++ (codes "." ++ ext)
      → Matches file pattern
  any_suffix :
      (stem suffix : Str)
      → pattern ≡ codes "**/" ++ suffix
      → starts_with suffix (codes "*.") ≡ false
      → file ≡ stem ++ suffix
      → Matches file pattern
  any_part :
      (stem suffix rest : Str)
      → pattern ≡ codes "**/" ++ suffix
      → starts_with suffix (codes "*.") ≡ false
      → file ≡ stem ++ ((codes "/" ++ suffix) ++ rest)
      → Matches file pattern
  extension :
      (stem ext : Str)
      → pattern ≡ codes "*." ++ ext
      → file ≡ stem ++ (codes "." ++ ext)
      → Matches file pattern
  exact : file ≡ pattern → Matches file pattern

module _ (file pattern : Str) where
  pattern_matches_last :
      (pattern == codes "**") ≡ false
      → under_directory file pattern ≡ false
      → in_any_directory file pattern ≡ false
      → by_extension file pattern ≡ false
      → pattern_matches file pattern ≡ true
      → (file == pattern) ≡ true
  unfolding pattern_matches
  pattern_matches_last a b c d h = ground arith

  under_directory_sound : under_directory file pattern ≡ true → Matches file pattern
  unfolding under_directory
  under_directory_sound h =
      let dir = drop_end 3 pattern in
      let p : pattern ≡ dir ++ codes "/**" = ends_with_rest pattern (codes "/**") (ground arith) in
      elim (Bool-cases (file == dir)) [
        | inl same ↦ directory dir p ((==_iff _ _).0 same)
        | inr other ↦ below dir _ p (starts_with_rest file (dir ++ codes "/") (ground arith))
      ]

  in_any_directory_sound : in_any_directory file pattern ≡ true → Matches file pattern
  unfolding in_any_directory
  in_any_directory_sound h =
      let suffix = drop 3 pattern in
      let p : pattern ≡ codes "**/" ++ suffix =
        starts_with_rest pattern (codes "**/") (ground arith) in
      elim (Bool-cases (starts_with suffix (codes "*."))) [
        | inl dotted ↦
            let q : suffix ≡ codes "*." ++ drop 2 suffix =
              starts_with_rest suffix (codes "*.") dotted in
            let stem = take (length file - length (drop 1 suffix)) file in
            any_extension stem (drop 2 suffix) (p ∙ ap (λ s. codes "**/" ++ s) q)
              (ends_with_rest file (drop 1 suffix) (ground arith) ∙ ap (λ s. stem ++ drop 1 s) q)
        | inr plain ↦ elim (Bool-cases (ends_with file suffix)) [
          | inl ending ↦ any_suffix _ suffix p plain (ends_with_rest file suffix ending)
          | inr inside ↦
              let (before, after, e) = includes_parts file (codes "/" ++ suffix) (ground arith) in
              any_part before suffix after p plain e
        ]
      ]

  by_extension_sound : by_extension file pattern ≡ true → Matches file pattern
  unfolding by_extension
  by_extension_sound h =
      let p : pattern ≡ codes "*." ++ drop 2 pattern =
        starts_with_rest pattern (codes "*.") (ground arith) in
      let stem = take (length file - length (drop 1 pattern)) file in
      extension stem (drop 2 pattern) p
        (ends_with_rest file (drop 1 pattern) (ground arith) ∙ ap (λ s. stem ++ drop 1 s) p)

  pattern_matches_sound : pattern_matches file pattern ≡ true → Matches file pattern
  pattern_matches_sound h = elim (Bool-cases (pattern == codes "**")) [
    | inl all ↦ everything ((==_iff _ _).0 all)
    | inr a ↦ elim (Bool-cases (under_directory file pattern)) [
      | inl u ↦ under_directory_sound u
      | inr b ↦ elim (Bool-cases (in_any_directory file pattern)) [
        | inl i ↦ in_any_directory_sound i
        | inr c ↦ elim (Bool-cases (by_extension file pattern)) [
          | inl x ↦ by_extension_sound x
          | inr d ↦ exact ((==_iff _ _).0 (pattern_matches_last a b c d h))
        ]
      ]
    ]
  ]

module _ (file pattern : Str) where
  under_directory-matches :
      under_directory file pattern ≡ true → pattern_matches file pattern ≡ true
  unfolding pattern_matches
  under_directory-matches h = ground arith

  in_any_directory-matches :
      starts_with pattern (codes "**/") ≡ true
      → (if starts_with (drop 3 pattern) (codes "*.")
          then ends_with file (drop 1 (drop 3 pattern))
          else (ends_with file (drop 3 pattern) || includes file (codes "/" ++ drop 3 pattern)))
        ≡ true
      → pattern_matches file pattern ≡ true
  unfolding pattern_matches
  in_any_directory-matches h k = ground arith

  by_extension-matches :
      starts_with pattern (codes "*.") ≡ true
      → ends_with file (drop 1 pattern) ≡ true
      → pattern_matches file pattern ≡ true
  unfolding pattern_matches
  by_extension-matches h k = ground arith

pattern_matches_complete :
    (file pattern : Str) → Matches file pattern → pattern_matches file pattern ≡ true
unfolding pattern_matches
pattern_matches_complete file pattern (everything p) = ground arith
pattern_matches_complete file pattern (directory dir p f) =
    let e : ends_with pattern (codes "/**") ≡ true = rw p (ends_with-append dir (codes "/**")) in
    let d : drop_end 3 pattern ≡ dir = rw p (drop_end-append dir (codes "/**")) in ground arith
pattern_matches_complete file pattern (below dir rest p f) =
    let e : ends_with pattern (codes "/**") ≡ true = rw p (ends_with-append dir (codes "/**")) in
    let d : drop_end 3 pattern ≡ dir = rw p (drop_end-append dir (codes "/**")) in
    let s : starts_with file (drop_end 3 pattern ++ codes "/") ≡ true =
      rw (d, f) (starts_with-append (dir ++ codes "/") rest) in
    ground arith
pattern_matches_complete file pattern (any_extension stem ext p f) =
    rw (p, f)
      (in_any_directory-matches _ _ (starts_with-append (codes "**/") (codes "*." ++ ext))
        (rw (starts_with-append (codes "*.") ext) (ends_with-append stem (codes "." ++ ext))))
pattern_matches_complete file pattern (any_suffix stem suffix p e f) =
    rw (p, f)
      (in_any_directory-matches _ _ (starts_with-append (codes "**/") suffix)
        (rw (e, ends_with-append stem suffix)))
pattern_matches_complete file pattern (any_part stem suffix rest p e f) =
    rw (p, f)
      (in_any_directory-matches _ _ (starts_with-append (codes "**/") suffix)
        (rw (e, includes-middle stem (codes "/" ++ suffix) rest) (ground arith)))
pattern_matches_complete file pattern (extension stem ext p f) =
    rw (p, f)
      (by_extension-matches _ _ (starts_with-append (codes "*.") ext)
        (ends_with-append stem (codes "." ++ ext)))
pattern_matches_complete file pattern (exact f) = ground arith

matches_skip_sound :
    (file : Str) (patterns : List Str)
    → matches_skip file patterns ≡ true
    → Any (Matches file) patterns
unfolding matches_skip
matches_skip_sound file [] h = cc
matches_skip_sound file (p ∷ ps) h = elim (Bool-cases (pattern_matches file p)) [
  | inl here ↦ inl (pattern_matches_sound file p here)
  | inr later ↦ inr (matches_skip_sound file ps (rw later at h))
]

matches_skip_complete :
    (file : Str) (patterns : List Str)
    → Any (Matches file) patterns
    → matches_skip file patterns ≡ true
unfolding matches_skip
matches_skip_complete file [] h = absurd (h tt)
matches_skip_complete file (p ∷ ps) (inl m) = rw (pattern_matches_complete file p m)
matches_skip_complete file (p ∷ ps) (inr ms) = ground (arith, matches_skip_complete file ps ms)

-- A file is skipped exactly when some pattern of the list means it.
pub matches_skip_iff :
    (file : Str) (patterns : List Str)
    → (matches_skip file patterns ≡ true) ↔ Any (Matches file) patterns
matches_skip_iff file patterns =
    (matches_skip_sound file patterns, matches_skip_complete file patterns)
