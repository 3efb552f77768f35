-- ===== src/Render/Skipped.antt =====
-- The conditions of a template that throw, in branches that are taken or not: `renderLines` of
-- cli/src/utils.ts.
use projx.Base.Text.{Str}
use projx.Render.{Script, then_do, put_before, join_lines, render_items, render, collapse_newlines}
use projx.Render.Blocks.{
  Nodes, empty, text, loop, choice, Branches, close, otherwise, or_if, flatten, meaning,
  meaning_branches,
}
use projx.Render.Whole.{render-meaning}
use projx.Base.{
  ◌≡◌, refl, ap, ◌∙◌, ◌⊎◌, inl, inr, Bool, true, false, not, ◌&&◌, Option, none, some, List, [],
  ◌∷◌, if◌then◌else◌, nat_eq, list_eq, option_eq,
}

then_do-none :
    {A B : Type 0} (o : Option A) (f : A → Option B) → ((a : A) → f a ≡ none) → then_do o f ≡ none
then_do-none none f h = refl
then_do-none (some a) f h = h a

if_same : {A : Type 0} (b : Bool) (x y z : A) → x ≡ z → y ≡ z → (if b then x else y) ≡ z
if_same true x y z h k = h
if_same false x y z h k = k

module _ {Env Item : Type 0} (script : Script Env Item) (env : Env) where
  abbrev mutual
    -- A condition throws that stands outside of loops, in a branch that is taken or not; that of an
    -- `else if` counts where no branch before it was taken.
    pub Throws : Nodes → Type 0
    Throws empty = ⊥
    Throws (text line nodes) = Throws nodes
    Throws (loop name items body nodes) = Throws nodes
    Throws (choice test body branches nodes) =
        (script.condition test env ≡ none)
        ⊎ Throws body
        ⊎ Throws nodes
        ⊎ ((result : Bool) × (script.condition test env ≡ some result)
            × ThrowsBranches result branches)

    pub ThrowsBranches : Bool → Branches → Type 0
    ThrowsBranches matched close = ⊥
    ThrowsBranches matched (otherwise body) = Throws body
    ThrowsBranches true (or_if test body branches) = Throws body ⊎ ThrowsBranches true branches
    ThrowsBranches false (or_if test body branches) =
        (script.condition test env ≡ none)
        ⊎ Throws body
        ⊎ ((result : Bool) × (script.condition test env ≡ some result)
            × ThrowsBranches result branches)

  mutual
    unfolding meaning meaning_branches

    -- What follows throws.
    meaning-none : (nodes : Nodes) (active : Bool) → meaning script nodes active env none ≡ none
    meaning-none empty active = refl
    meaning-none (text line nodes) active =
        if_same active _ _ none
          (then_do-none (script.substitute line env) _
            (λ replaced. ap (put_before (replaced ∷ [])) (meaning-none nodes active)))
          (meaning-none nodes active)
    meaning-none (loop name items body nodes) active =
        if_same active _ _ none
          (then_do-none (script.iterate items env) _ (λ found.
            then_do-none
              (render_items script (λ inner. join_lines (meaning script body true inner (some [])))
                name env found)
              _ (λ out. ap (put_before out) (meaning-none nodes active))))
          (meaning-none nodes active)
    meaning-none (choice test body branches nodes) active =
        then_do-none (script.condition test env) _ (λ result.
          ap
            (λ rest.
              meaning script body (result && active) env
                (meaning_branches script branches result active env rest))
            (meaning-none nodes active)
          ∙ ap (meaning script body (result && active) env) (branches_none branches result active)
          ∙ meaning-none body (result && active))

    branches_none :
        (branches : Branches) (matched active : Bool)
        → meaning_branches script branches matched active env none ≡ none
    branches_none close matched active = refl
    branches_none (otherwise body) matched active = meaning-none body (not matched && active)
    branches_none (or_if test body branches) true active =
        ap (meaning script body false env) (branches_none branches true active)
        ∙ meaning-none body false
    branches_none (or_if test body branches) false active =
        then_do-none (script.condition test env) _ (λ result.
          ap (meaning script body (result && active) env) (branches_none branches result active)
          ∙ meaning-none body (result && active))

  mutual
    unfolding meaning meaning_branches

    meaning-Throws :
        (nodes : Nodes) (active : Bool) (after : Option (List Str))
        → Throws nodes
        → meaning script nodes active env after ≡ none
    meaning-Throws empty active after h = absurd h
    meaning-Throws (text line nodes) active after h =
        if_same active _ _ none
          (then_do-none (script.substitute line env) _
            (λ replaced. ap (put_before (replaced ∷ [])) (meaning-Throws nodes active after h)))
          (meaning-Throws nodes active after h)
    meaning-Throws (loop name items body nodes) active after h =
        if_same active _ _ none
          (then_do-none (script.iterate items env) _ (λ found.
            then_do-none
              (render_items script (λ inner. join_lines (meaning script body true inner (some [])))
                name env found)
              _ (λ out. ap (put_before out) (meaning-Throws nodes active after h))))
          (meaning-Throws nodes active after h)
    meaning-Throws (choice test body branches nodes) active after (inl throws) = rw (throws) refl
    meaning-Throws (choice test body branches nodes) active after (inr (inl h)) =
        then_do-none (script.condition test env) _
          (λ result. meaning-Throws body (result && active) _ h)
    meaning-Throws (choice test body branches nodes) active after (inr (inr (inl h))) =
        then_do-none (script.condition test env) _ (λ result.
          ap
            (λ rest.
              meaning script body (result && active) env
                (meaning_branches script branches result active env rest))
            (meaning-Throws nodes active after h)
          ∙ ap (meaning script body (result && active) env) (branches_none branches result active)
          ∙ meaning-none body (result && active))
    meaning-Throws (choice test body branches nodes) active after
          (inr (inr (inr (result, is, h)))) =
        rw (is) (
          ap (meaning script body (result && active) env)
            (branches_throws branches result active (meaning script nodes active env after) h)
          ∙ meaning-none body (result && active))

    branches_throws :
        (branches : Branches) (matched active : Bool) (after : Option (List Str))
        → ThrowsBranches matched branches
        → meaning_branches script branches matched active env after ≡ none
    branches_throws close matched active after h = absurd h
    branches_throws (otherwise body) matched active after h =
        meaning-Throws body (not matched && active) after h
    branches_throws (or_if test body branches) true active after (inl h) =
        meaning-Throws body false _ h
    branches_throws (or_if test body branches) true active after (inr h) =
        ap (meaning script body false env) (branches_throws branches true active after h)
        ∙ meaning-none body false
    branches_throws (or_if test body branches) false active after (inl throws) = rw (throws) refl
    branches_throws (or_if test body branches) false active after (inr (inl h)) =
        then_do-none (script.condition test env) _
          (λ result. meaning-Throws body (result && active) _ h)
    branches_throws (or_if test body branches) false active after (inr (inr (result, is, h))) =
        rw (is) (
          ap (meaning script body (result && active) env)
            (branches_throws branches result active after h)
          ∙ meaning-none body (result && active))

  -- A condition of an `if` that throws makes the rendering fail wherever it stands outside of loops,
  -- also within branches that are not taken, to any depth; and so does that of an `else if` where no
  -- branch before it was taken.
  pub condition-Throws :
      (nodes : Nodes) → Throws nodes → render script (flatten nodes []) env ≡ none
  condition-Throws nodes h =
      render-meaning script nodes env
      ∙ ap (λ output. then_do (join_lines output) (λ out. some (collapse_newlines 0 out)))
          (meaning-Throws nodes true (some []) h)
