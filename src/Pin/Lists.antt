-- ===== src/Pin/Lists.antt =====
-- What `pin` and `unpin` do to one skip list.
use projx.Base.Text.{Str}
use projx.Base.Sets.{
  dedup, contains-dedup, contains-append, IsNodup, dedup_of_IsNodup, dedup-append, add_all_same,
  contains-filter, filter_same, add_all, contains-add_all,
}
use projx.Pin.{add_to_skip, remove_from_skip}
use projx.Base.{
  ℕ, ◌≤◌, ◌≡◌, sym, ap, ◌∙◌, inl, inr, false, not, ◌&&◌, ◌||◌, Option, none, some, List, [], ◌∷◌,
  ◌++◌, arith, ltb, Bool-cases, contains, nat_eq, list_eq, option_eq, length, filter,
}

-- The list that stands there after an edit.
unfoldable pub edited : Option (List Str) → List Str → List Str
edited none old = old
edited (some new) old = new

-- A list without repetitions gets exactly the additions.
pub contains-add_to_skip :
    (additions skip : List Str) (s : Str)
    → IsNodup skip
    → contains (edited (add_to_skip additions skip) skip) s
      ≡ (contains skip s || contains additions s)
unfolding add_to_skip edited
contains-add_to_skip additions skip s n =
    elim (Bool-cases (ltb (length skip) (length (dedup (skip ++ additions))))) [
      | inl longer ↦
          rw longer (contains-dedup (skip ++ additions) s ∙ contains-append skip additions s)
      | inr same ↦
          let e : dedup (skip ++ additions) ≡ add_all skip additions =
            dedup-append skip additions ∙ ap (λ l. add_all l additions) (dedup_of_IsNodup skip n) in
          let le : length (add_all skip additions) ≤ length skip = rw e at (not_longer _ _ same) in
          rw same (
            sym (ap (λ l. contains l s) (add_all_same skip additions le))
            ∙ contains-add_all skip additions s)
    ]
  where
    not_longer : (a b : ℕ) → ltb a b ≡ false → b ≤ a
    not_longer a b h = ground arith

-- A list loses exactly the removals.
pub contains-remove_from_skip :
    (removals skip : List Str) (s : Str)
    → contains (edited (remove_from_skip removals skip) skip) s
      ≡ (contains skip s && not (contains removals s))
unfolding remove_from_skip edited
contains-remove_from_skip removals skip s =
    let kept = filter (λ s. not (contains removals s)) skip in
    elim (Bool-cases (ltb (length kept) (length skip))) [
      | inl shorter ↦ rw shorter (contains-filter (λ s. not (contains removals s)) skip s)
      | inr same ↦ rw same (
          sym (
            ap (λ l. contains l s)
              (filter_same (λ s. not (contains removals s)) skip (not_longer _ _ same)))
          ∙ contains-filter (λ s. not (contains removals s)) skip s)
    ]
  where
    not_longer : (a b : ℕ) → ltb a b ≡ false → b ≤ a
    not_longer a b h = ground arith

-- A list that holds an entry twice takes no single addition: the comparison of lengths calls the
-- new entry pinned already, whatever it is.
pub add_to_skip_repeated : (x a : Str) → add_to_skip (a ∷ []) (x ∷ x ∷ []) ≡ none
unfolding add_to_skip dedup add_all
add_to_skip_repeated x a = ground arith
