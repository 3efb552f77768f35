-- ===== src/Render/Ends.antt =====
-- Where the blocks of a template end in its lines.
use projx.Base.Text.{Str}
use projx.Render.{
  Line, Block, loop_line, if_line, else_if_line, else_line, end_line, text_line, Script, shift,
  find_block_end, run_lines,
}
use projx.Render.Blocks.{
  Nodes, empty, text, loop, choice, Branches, close, otherwise, or_if, flatten, flatten_branches,
  size, size_branches,
}
use projx.Base.{
  ℕ, suc, ◌+◌, ◌≡◌, refl, sym, ap, ◌∙◌, Option, none, some, List, [], ◌∷◌, arith, nat_eq, list_eq,
  option_eq, take,
}

abbrev shift_by : ℕ → Option ℕ → Option ℕ
shift_by n none = none
shift_by n (some m) = some (n + m)

shift_by_zero : (o : Option ℕ) → shift_by 0 o ≡ o
shift_by_zero none = refl
shift_by_zero (some m) = ap some (omega arith)

shift-shift_by : (a : ℕ) (o : Option ℕ) → shift (shift_by a o) ≡ shift_by (suc a) o
shift-shift_by a none = refl
shift-shift_by a (some n) = ap some (omega arith)

shift_one : (o : Option ℕ) → shift o ≡ shift_by 1 o
shift_one none = refl
shift_one (some n) = ap some (omega arith)

shift_by_add : (a b : ℕ) (o : Option ℕ) → shift_by a (shift_by b o) ≡ shift_by (a + b) o
shift_by_add a b none = refl
shift_by_add a b (some n) = ap some (omega arith)

-- A line, a body and what follows it.
shift_body : (a b : ℕ) (o : Option ℕ) → shift (shift_by a (shift_by b o)) ≡ shift_by (suc (a + b)) o
shift_body a b o = ap shift (shift_by_add a b o) ∙ shift-shift_by (a + b) o

mutual
  unfolding flatten flatten_branches find_block_end size size_branches

  find_block_end-flatten :
      (inner : ℕ) (nodes : Nodes) (after : List Line)
      → find_block_end inner (flatten nodes after)
        ≡ shift_by (size nodes) (find_block_end inner after)
  find_block_end-flatten inner empty after = sym (shift_by_zero (find_block_end inner after))
  find_block_end-flatten inner (text line nodes) after =
      rw (find_block_end-flatten inner nodes after)
        (shift-shift_by (size nodes) (find_block_end inner after))
  find_block_end-flatten inner (loop name items body nodes) after =
      rw
        (
          find_block_end-flatten (suc inner) body (end_line ∷ flatten nodes after),
          find_block_end-flatten inner nodes after,
        )
        (ap (λ o. shift (shift_by (size body) o))
            (shift-shift_by (size nodes) (find_block_end inner after))
          ∙ shift_body (size body) (suc (size nodes)) (find_block_end inner after))
  find_block_end-flatten inner (choice test body branches nodes) after =
      rw
        (
          find_block_end-flatten (suc inner) body (flatten_branches branches (flatten nodes after)),
          find_block_end-flatten_branches inner branches (flatten nodes after),
          find_block_end-flatten inner nodes after,
        )
        (ap (λ o. shift (shift_by (size body) o))
            (shift_by_add (size_branches branches) (size nodes) (find_block_end inner after))
          ∙ shift_body (size body) (size_branches branches + size nodes)
              (find_block_end inner after))

  find_block_end-flatten_branches :
      (inner : ℕ) (branches : Branches) (after : List Line)
      → find_block_end (suc inner) (flatten_branches branches after)
        ≡ shift_by (size_branches branches) (find_block_end inner after)
  find_block_end-flatten_branches inner close after = shift_one (find_block_end inner after)
  find_block_end-flatten_branches inner (otherwise body) after =
      rw (find_block_end-flatten (suc inner) body (end_line ∷ after)) (
        ap (λ o. shift (shift_by (size body) o)) (shift_one (find_block_end inner after))
        ∙ shift_body (size body) 1 (find_block_end inner after))
  find_block_end-flatten_branches inner (or_if test body branches) after =
      rw
        (
          find_block_end-flatten (suc inner) body (flatten_branches branches after),
          find_block_end-flatten_branches inner branches after,
        )
        (shift_body (size body) (size_branches branches) (find_block_end inner after))

mutual
  unfolding flatten flatten_branches size size_branches

  take-flatten :
      (nodes : Nodes) (n : ℕ) (after : List Line)
      → take (size nodes + n) (flatten nodes after) ≡ flatten nodes (take n after)
  take-flatten empty n after = let e : 0 + n ≡ n = omega arith in rw e refl
  take-flatten (text line nodes) n after =
      let e : suc (size nodes) + n ≡ suc (size nodes + n) = omega arith in
      rw e (ap (λ lines. text_line line ∷ lines) (take-flatten nodes n after))
  take-flatten (loop name items body nodes) n after =
      let e : suc (size body + suc (size nodes)) + n ≡ suc (size body + suc (size nodes + n)) =
        omega arith in
      rw e (
        ap (λ lines. loop_line name items ∷ lines)
          (take-flatten body (suc (size nodes + n)) (end_line ∷ flatten nodes after)
            ∙ ap (λ lines. flatten body (end_line ∷ lines)) (take-flatten nodes n after)))
  take-flatten (choice test body branches nodes) n after =
      let e : suc (size body + (size_branches branches + size nodes)) + n
          ≡ suc (size body + (size_branches branches + (size nodes + n))) =
        omega arith in
      rw e (
        ap (λ lines. if_line test ∷ lines)
          (take-flatten body (size_branches branches + (size nodes + n))
              (flatten_branches branches (flatten nodes after))
            ∙ ap (flatten body) (
                take-flatten_branches branches (size nodes + n) (flatten nodes after)
                ∙ ap (flatten_branches branches) (take-flatten nodes n after))))

  take-flatten_branches :
      (branches : Branches) (n : ℕ) (after : List Line)
      → take (size_branches branches + n) (flatten_branches branches after)
        ≡ flatten_branches branches (take n after)
  take-flatten_branches close n after = let e : 1 + n ≡ suc n = omega arith in rw e refl
  take-flatten_branches (otherwise body) n after =
      let e : suc (size body + 1) + n ≡ suc (size body + suc n) = omega arith in
      rw e (ap (λ lines. else_line ∷ lines) (take-flatten body (suc n) (end_line ∷ after)))
  take-flatten_branches (or_if test body branches) n after =
      let e : suc (size body + size_branches branches) + n
          ≡ suc (size body + (size_branches branches + n)) =
        omega arith in
      rw e (
        ap (λ lines. else_if_line test ∷ lines)
          (take-flatten body (size_branches branches + n) (flatten_branches branches after)
            ∙ ap (flatten body) (take-flatten_branches branches n after)))

-- The lines of nodes that are passed over.
module _ {Env Item : Type 0} (script : Script Env Item) (inner : List Line → Env → Option Str)
    (env : Env) (stack : List Block) where
  mutual
    unfolding flatten flatten_branches size size_branches run_lines

    pass_nodes :
        (nodes : Nodes) (n : ℕ) (after : List Line)
        → run_lines script inner env stack (size nodes + n) (flatten nodes after)
          ≡ run_lines script inner env stack n after
    pass_nodes empty n after = let e : 0 + n ≡ n = omega arith in rw e refl
    pass_nodes (text line nodes) n after =
        let e : suc (size nodes) + n ≡ suc (size nodes + n) = omega arith in
        rw e (pass_nodes nodes n after)
    pass_nodes (loop name items body nodes) n after =
        let e : suc (size body + suc (size nodes)) + n ≡ suc (size body + suc (size nodes + n)) =
          omega arith in
        rw e (
          pass_nodes body (suc (size nodes + n)) (end_line ∷ flatten nodes after)
          ∙ pass_nodes nodes n after)
    pass_nodes (choice test body branches nodes) n after =
        let e : suc (size body + (size_branches branches + size nodes)) + n
            ≡ suc (size body + (size_branches branches + (size nodes + n))) =
          omega arith in
        rw e (
          pass_nodes body (size_branches branches + (size nodes + n))
            (flatten_branches branches (flatten nodes after))
          ∙ pass_branches branches (size nodes + n) (flatten nodes after)
          ∙ pass_nodes nodes n after)

    pass_branches :
        (branches : Branches) (n : ℕ) (after : List Line)
        → run_lines script inner env stack
            (size_branches branches + n)
            (flatten_branches branches after)
          ≡ run_lines script inner env stack n after
    pass_branches close n after = let e : 1 + n ≡ suc n = omega arith in rw e refl
    pass_branches (otherwise body) n after =
        let e : suc (size body + 1) + n ≡ suc (size body + suc n) = omega arith in
        rw e (pass_nodes body (suc n) (end_line ∷ after))
    pass_branches (or_if test body branches) n after =
        let e : suc (size body + size_branches branches) + n
            ≡ suc (size body + (size_branches branches + n)) =
          omega arith in
        rw e (
          pass_nodes body (size_branches branches + n) (flatten_branches branches after)
          ∙ pass_branches branches n after)

-- A body before its end: where the end is found, the lines up to it, and those after it.
pub body_end :
    (body : Nodes) (after : List Line)
    → find_block_end 0 (flatten body (end_line ∷ after)) ≡ some (size body)
unfolding find_block_end
body_end body after = find_block_end-flatten 0 body (end_line ∷ after) ∙ ap some (omega arith)

pub body_lines :
    (body : Nodes) (after : List Line)
    → take (size body) (flatten body (end_line ∷ after)) ≡ flatten body []
body_lines body after =
    let e : size body + 0 ≡ size body = omega arith in
    rw e at (take-flatten body 0 (end_line ∷ after))

pub pass_body :
    {Env Item : Type 0} (script : Script Env Item) (inner : List Line → Env → Option Str)
    (env : Env) (stack : List Block) (body : Nodes) (after : List Line)
    → run_lines script inner env stack (suc (size body)) (flatten body (end_line ∷ after))
      ≡ run_lines script inner env stack 0 after
unfolding run_lines
pass_body script inner env stack body after =
    let e : size body + 1 ≡ suc (size body) = omega arith in
    rw e at (pass_nodes script inner env stack body 1 (end_line ∷ after))
