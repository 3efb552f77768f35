-- ===== src/Auth/Credentials.antt =====
-- Passwords and recovery codes: features/auth/express/common/files/src/modules/auth/password.ts and
-- mfa.ts.
pub mod Once
pub mod Reset
use projx.Auth.Challenge.{splice_one}
use projx.Auth.Password.{verify_parts, hash_password, verify_password}
use projx.Auth.Mfa.{denormalize, match_from, match_recovery_code}
use projx.Auth.Services.{Services}
use mathlib.Core.List.{append-nil, append_assoc}
use projx.Base.Text.{is_truthy, split, split_from, Str}
use projx.Base.{
  ℕ, suc, ◌≡◌, refl, sym, ap, ◌∙◌, inl, inr, true, false, none, some, none-ne-some, some-injective,
  List, [], ◌∷◌, ◌++◌, arith, Bool-cases, Option-cases, ==_refl, ◌==◌, nat_eq, list_eq, option_eq,
  length, filter, All,
}

-- No unit of the text is a colon.
abbrev pub NoColon : Str → Type 0
NoColon s = All (λ c. (c == b':') ≡ false) s

split_from-none : (cur s : Str) → NoColon s → split_from b':' cur s ≡ (cur ++ s) ∷ []
unfolding split_from
split_from-none cur [] h = ap (λ x. x ∷ []) (sym (append-nil cur))
split_from-none cur (c ∷ s) (other, h) =
    rw (other)
      (split_from-none (cur ++ c ∷ []) s h ∙ ap (λ x. x ∷ []) (append_assoc cur (c ∷ []) s))

split_from-colon :
    (cur s rest : Str)
    → NoColon s
    → split_from b':' cur (s ++ (b':' ∷ rest)) ≡ (cur ++ s) ∷ split_from b':' [] rest
unfolding split_from
split_from-colon cur [] rest h =
    rw (==_refl {A = ℕ} b':') (ap (λ x. x ∷ split_from b':' [] rest) (sym (append-nil cur)))
split_from-colon cur (c ∷ s) rest (other, h) = rw (other) (
    split_from-colon (cur ++ c ∷ []) s rest h
    ∙ ap (λ x. x ∷ split_from b':' [] rest) (append_assoc cur (c ∷ []) s))

module _ (services : Services) where
  -- A password is verified by its own hash, for a salt and a text of the derived bytes that are not
  -- empty and have no colon, where the bytes are read back from their text.
  pub verify_password-hash_password :
      (salt password : Str)
      → let derived = services.scrypt password salt in
        is_truthy salt ≡ true
        → is_truthy (services.to_hex derived) ≡ true
        → NoColon salt
        → NoColon (services.to_hex derived)
        → services.from_hex (services.to_hex derived) ≡ derived
        → verify_password services password (hash_password services salt password) ≡ true
  unfolding verify_password hash_password split
  verify_password-hash_password salt password truthy truthy' plain plain' back =
      let hex = services.to_hex (services.scrypt password salt) in
      let parts : split_from b':' [] (salt ++ (b':' ∷ hex)) ≡ salt ∷ hex ∷ [] =
        split_from-colon [] salt hex plain ∙ ap (λ x. salt ∷ x) (split_from-none [] hex plain') in
      let checked : verify_parts services password (salt ∷ hex ∷ []) ≡ true =
        rw
          (
            truthy,
            truthy',
            back,
            ==_refl (length (services.scrypt password salt)),
            ==_refl (services.scrypt password salt),
          )
          refl in
      ap (verify_parts services password) parts ∙ checked

  -- How many of the hashes a code opens.
  abbrev pub opened : Str → List Str → ℕ
  opened normalized hashes = length (filter (λ h. verify_password services normalized h) hashes)

  match_from-opened :
      (normalized : Str) (hashes : List Str)
      → opened normalized hashes ≡ 0
      → match_from services normalized hashes ≡ none
  unfolding match_from
  match_from-opened normalized [] h = refl
  match_from-opened normalized (hash ∷ hashes) h =
      elim (Bool-cases (verify_password services normalized hash)) [
        | inl opens ↦ absurd (omega (arith, rw (opens) at h))
        | inr shut ↦ rw (shut, match_from-opened normalized hashes (rw (shut) at h)) refl
      ]

  opened-splice_one :
      (normalized : Str) (hashes : List Str) (i : ℕ)
      → match_from services normalized hashes ≡ some i
      → suc (opened normalized (splice_one i hashes)) ≡ opened normalized hashes
  unfolding match_from splice_one
  opened-splice_one normalized [] i h = absurd (none-ne-some i h)
  opened-splice_one normalized (hash ∷ hashes) i h =
      elim (Bool-cases (verify_password services normalized hash)) [
        | inl opens ↦ let at0 = some-injective 0 i (rw (opens) at h) in rw (← at0, opens) refl
        | inr shut ↦ elim (Option-cases (match_from services normalized hashes)) [
          | inl nothing ↦ absurd (none-ne-some i (rw (shut, nothing) at h))
          | inr (j, later) ↦
              let atj = some-injective (suc j) i (rw (shut, later) at h) in
              rw (← atj, shut) (opened-splice_one normalized hashes j later)
        ]
      ]

  -- A recovery code that opens one hash alone opens none once that one is taken out.
  pub match_recovery_code_once :
      (code : Str) (hashes : List Str) (i : ℕ)
      → match_recovery_code services code hashes ≡ some i
      → opened (denormalize services code) hashes ≡ 1
      → match_recovery_code services code (splice_one i hashes) ≡ none
  unfolding match_recovery_code
  match_recovery_code_once code hashes i h one =
      match_from-opened (denormalize services code) (splice_one i hashes)
        (omega (arith, opened-splice_one (denormalize services code) hashes i h, one))
