-- ===== src/Render/Fuel.antt =====
-- The number that bounds the nesting of loops in `renderLines`.
use projx.Base.Text.{Str}
use projx.Render.{
  Line, Block, loop_line, if_line, else_if_line, else_line, end_line, text_line, Script, then_do,
  put_before, join_lines, find_block_end, all_active, run_lines, render_lines, render,
  collapse_newlines, else_if_block,
}
use projx.Render.Laws.{then_do_same, render_items_same}
use projx.Base.{
  ℕ, zero, suc, ◌≤◌, ◌<◌, ◌≡◌, refl, ap, not, Option, some, List, [], ◌∷◌, arith, if◌then◌else◌,
  nat_eq, list_eq, option_eq, length, take,
}

length-take {ℓ} : {A : Type ℓ} (n : ℕ) (xs : List A) → length (take n xs) ≤ length xs
length-take zero xs = omega arith
length-take (suc n) [] = omega arith
length-take (suc n) (x ∷ xs) = omega (arith, length-take n xs)

module _ {Env Item : Type 0} (script : Script Env Item) where
  -- The loop over at most `suc n` lines asks only for renderings of at most `n` lines.
  run_lines_same :
      (f g : List Line → Env → Option Str) (n : ℕ)
      → ((lines : List Line) (env : Env) → length lines ≤ n → f lines env ≡ g lines env)
      → (env : Env) (stack : List Block) (skip : ℕ) (lines : List Line) → length lines ≤ suc n
      → run_lines script f env stack skip lines ≡ run_lines script g env stack skip lines
  unfolding run_lines
  run_lines_same f g n agree env stack skip [] h = refl
  run_lines_same f g n agree env stack (suc skip) (line ∷ lines) h =
      run_lines_same f g n agree env stack skip lines (omega arith)
  run_lines_same f g n agree env stack zero (loop_line name items ∷ lines) h =
      then_do_same (find_block_end 0 lines) (λ last.
        rw (run_lines_same f g n agree env stack (suc last) lines (omega arith)) (
          ap
            (λ output.
              if all_active stack then output else run_lines script g env stack (suc last) lines)
            (then_do_same (script.iterate items env) (λ found.
              ap
                (λ out.
                  then_do out
                    (λ ready. put_before ready (run_lines script g env stack (suc last) lines)))
                (render_items_same script (f (take last lines)) (g (take last lines)) name env found
                  (λ inner.
                    agree (take last lines) inner (omega (arith, length-take last lines))))))))
  run_lines_same f g n agree env stack zero (if_line test ∷ lines) h =
      then_do_same (script.condition test env) (λ result.
        run_lines_same f g n agree env (record { active = result; matched = result } ∷ stack) 0
          lines (omega arith))
  run_lines_same f g n agree env [] zero (else_if_line test ∷ lines) h =
      run_lines_same f g n agree env [] 0 lines (omega arith)
  run_lines_same f g n agree env (block ∷ stack) zero (else_if_line test ∷ lines) h =
      then_do_same (else_if_block block.matched (script.condition test env))
        (λ next. run_lines_same f g n agree env (next ∷ stack) 0 lines (omega arith))
  run_lines_same f g n agree env [] zero (else_line ∷ lines) h =
      run_lines_same f g n agree env [] 0 lines (omega arith)
  run_lines_same f g n agree env (block ∷ stack) zero (else_line ∷ lines) h =
      run_lines_same f g n agree env (record block { active = not block.matched } ∷ stack) 0 lines
        (omega arith)
  run_lines_same f g n agree env [] zero (end_line ∷ lines) h =
      run_lines_same f g n agree env [] 0 lines (omega arith)
  run_lines_same f g n agree env (block ∷ stack) zero (end_line ∷ lines) h =
      run_lines_same f g n agree env stack 0 lines (omega arith)
  run_lines_same f g n agree env stack zero (text_line line ∷ lines) h =
      rw (run_lines_same f g n agree env stack 0 lines (omega arith)) refl

  render_lines_same :
      (a b : ℕ) (lines : List Line) (env : Env)
      → length lines < a
      → length lines < b
      → render_lines script a lines env ≡ render_lines script b lines env
  unfolding render_lines run_lines
  render_lines_same zero b lines env h k = absurd (omega arith)
  render_lines_same (suc a) zero lines env h k = absurd (omega arith)
  render_lines_same (suc a) (suc b) [] env h k = refl
  render_lines_same (suc a) (suc b) (line ∷ lines) env h k = ap join_lines (
      run_lines_same (render_lines script a) (render_lines script b) (length lines)
        (λ inner env' short. render_lines_same a b inner env' (omega arith) (omega arith)) env [] 0
        (line ∷ lines) (omega arith))

  -- Any number above that of the lines gives the rendering, for every list of lines: the bound on
  -- the nesting of loops is never what makes a rendering fail.
  pub render_lines-render :
      (fuel : ℕ) (lines : List Line) (env : Env)
      → length lines < fuel
      → then_do (render_lines script fuel lines env) (λ output. some (collapse_newlines 0 output))
        ≡ render script lines env
  unfolding render
  render_lines-render fuel lines env h =
      ap (λ output. then_do output (λ text. some (collapse_newlines 0 text)))
        (render_lines_same fuel (suc (length lines)) lines env h (omega arith))
