-- ===== src/Features/Once.antt =====
-- A feature's edits of a file that has them already: `applyTextPatch` and `appendEnvExample`.
use mathlib.Core.Path.{subst}
use mathlib.Core.List.{append-nil}
use projx.Base.Text.{Str, codes, includes, index_of, starts_with, ends_with, is_truthy}
use projx.Base.Text.Laws.{
  includes-middle, includes-append_left, includes-append_right, includes_self, starts_with-append,
  starts_with-weaken,
}
use projx.Features.{
  sentinel_for, after, TextPatch, indent_at, insert_at, patch_at, patch_text, env_header, key_lines,
  closed, content_of, append_env_example,
}
use projx.Features.Laws.{index_of_same, index_of_fits, indent_at_same, take_back, same_take_less}
use projx.Base.{
  ℕ, suc, ◌+◌, ◌<◌, ◌≡◌, refl, sym, inl, inr, true, not, ◌&&◌, Option, some, none-ne-some,
  some-injective, List, [], ◌++◌, arith, Bool-cases, Option-cases, nat_eq, list_eq, option_eq,
  length, take,
}

includes_whole : (u : Str) → includes u u ≡ true
includes_whole u = rw (append-nil u) at (includes_self u [])

module _ (feature anchor insert : Str) (visible : 0 < length anchor) where
  abbrev patch : TextPatch
  patch = record { anchor = anchor; insert = insert; position = after }

  abbrev sentinel : Str → ℕ → Str
  sentinel content place = sentinel_for feature anchor insert (indent_at content place)

  abbrev edited : Str → ℕ → Str
  edited content place =
      insert_at after (insert ++ sentinel content place) (length anchor) place content

  edited-begin :
      (content : Str) (place : ℕ)
      → index_of content anchor ≡ some place
      → take (place + length anchor) content ≡ take (place + length anchor) (edited content place)
  edited-begin content place found =
      sym (take_back (place + length anchor) content _ (index_of_fits anchor content place found))

  edited-sentinel :
      (content : Str) (place : ℕ) → includes (edited content place) (sentinel content place) ≡ true
  edited-sentinel content place =
      includes-append_left (take (place + length anchor) content) _ (sentinel content place) (
        includes-append_left (codes "\n") _ (sentinel content place) (
          includes-append_right (insert ++ sentinel content place) _ (sentinel content place) (
            includes-append_left insert (sentinel content place) (sentinel content place)
              (includes_whole (sentinel content place)))))

  edited_again :
      (content : Str) (place : ℕ)
      → index_of content anchor ≡ some place
      → patch_text feature patch (edited content place) ≡ some (edited content place)
  unfolding patch_text patch_at
  edited_again content place found =
      let begin = edited-begin content place found in
      rw (index_of_same anchor content (edited content place) place found begin) (
        rw
          (
            sym (
                indent_at_same content (edited content place) place (
                  same_take_less (suc place) (place + length anchor) content (edited content place)
                    (omega arith) begin)),
            edited-sentinel content place,
          )
          refl)

  -- A text patch behind its anchor, which is not empty, is made once: if it goes through, doing it
  -- again on the result goes through and changes nothing.
  pub patch_text_twice :
      (content new : Str)
      → patch_text feature patch content ≡ some new
      → patch_text feature patch new ≡ some new
  unfolding patch_text patch_at
  patch_text_twice content new done = elim (Option-cases (index_of content anchor)) [
    | inl lost ↦ absurd (none-ne-some new (rw lost at done))
    | inr (place, found) ↦ elim (Bool-cases (includes content (sentinel content place))) [
      | inl there ↦
          let same : content ≡ new = some-injective content new (rw (found, there) at done) in
          subst (λ text. patch_text feature patch text ≡ some new) same done
      | inr lacking ↦
          let same : edited content place ≡ new =
            some-injective (edited content place) new (rw (found, lacking) at done) in
          subst (λ text. patch_text feature patch text ≡ some text) same
            (edited_again content place found)
    ]
  ]

starts_with_whole : (s : Str) → starts_with s s ≡ true
starts_with_whole s = rw (append-nil s) at (starts_with-append s [])

closed-starts_with : (content : Str) → starts_with (closed content) content ≡ true
unfolding closed
closed-starts_with content =
    elim (Bool-cases (is_truthy content && not (ends_with content (codes "\n")))) [
      | inl loose ↦ rw loose (starts_with-append content (codes "\n"))
      | inr done ↦ rw done (starts_with_whole content)
    ]

-- The header of a feature in `.env.example` is written once: a second run changes nothing, whatever
-- keys it has, and the first one leaves the content that was there at its beginning.
pub append_env_example_twice :
    (feature : Str) (keys keys' : List Str) (file : Option Str)
    → let first = append_env_example feature keys file in
      (append_env_example feature keys' first ≡ first)
      × (starts_with (content_of first) (content_of file) ≡ true)
unfolding append_env_example
append_env_example_twice feature keys keys' file =
    elim (Bool-cases (includes (content_of file) (env_header feature))) [
      | inl there ↦ rw there (rw there refl, starts_with_whole (content_of file))
      | inr lacking ↦
          let rest = codes "\n" ++ (env_header feature ++ (codes "\n" ++ key_lines keys)) in
          let there : includes (closed (content_of file) ++ rest) (env_header feature) ≡ true =
            includes-append_left (closed (content_of file)) rest (env_header feature)
              (includes-middle (codes "\n") (env_header feature) (codes "\n" ++ key_lines keys)) in
          rw lacking (
            rw there refl,
            starts_with-weaken (closed (content_of file)) (content_of file) rest
                (closed-starts_with (content_of file)),
          )
    ]
