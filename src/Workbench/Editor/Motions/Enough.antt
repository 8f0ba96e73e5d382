-- ===== src/Workbench/Editor/Motions/Enough.antt =====
-- The loops of Workbench/Editor/Motions stay in the buffer and end before their fuel does.
use tradar.Base.{
  ℕ, zero, suc, Bool, true, false, not, ◌&&◌, List, ◌≡◌, refl, inl, inr, ◌==◌, if◌then◌else◌,
  Option-cases, Text,
}
use tradar.Workbench.Editor.Motions.{
  Pos, CharClass, same_class, is_space, next_pos, prev_pos, class_at, advance_while, retreat_while,
  run_start, run_end,
}
use tradar.Workbench.Editor.Motions.Loops.{
  Inside, ahead, behind, next_pos-Closer, prev_pos-Closer, loop, loop-Inside,
}

module _ (alnum : ℕ → Bool) (lines : List Text) (class : CharClass) where
  -- The branches of the four loops.
  advance_choice : Pos → Pos → Pos → Pos
  advance_choice pos next rest =
      if not (same_class (class_at alnum lines pos) class)
      then pos
      else if not (next.0 == pos.0) && not (is_space class)
      then next
      else rest

  retreat_choice : Pos → Pos → Pos → Pos
  retreat_choice pos prev rest = if same_class (class_at alnum lines pos) class then rest else pos

  run_choice : Pos → Pos → Pos → Pos
  run_choice pos next rest =
      if next.0 == pos.0 && same_class (class_at alnum lines next) class then rest else pos

  advance_while-loop :
      (fuel : ℕ) (pos : Pos)
      → advance_while alnum fuel lines pos class ≡ loop (next_pos lines) advance_choice fuel pos
  unfolding advance_while loop advance_choice
  advance_while-loop zero pos = refl
  advance_while-loop (suc fuel) pos = elim (Option-cases (next_pos lines pos)) [
    | inl e ↦ rw (advance_while, loop, e) refl
    | inr (next, e) ↦ rw (advance_while, loop, e, advance_while-loop fuel next) refl
  ]

  retreat_while-loop :
      (fuel : ℕ) (pos : Pos)
      → retreat_while alnum fuel lines pos class ≡ loop (prev_pos lines) retreat_choice fuel pos
  unfolding retreat_while loop retreat_choice
  retreat_while-loop zero pos = refl
  retreat_while-loop (suc fuel) pos = elim (Option-cases (prev_pos lines pos)) [
    | inl e ↦ rw (retreat_while, loop, e) refl
    | inr (next, e) ↦ rw (retreat_while, loop, e, retreat_while-loop fuel next) refl
  ]

  run_start-loop :
      (fuel : ℕ) (pos : Pos)
      → run_start alnum fuel lines pos class ≡ loop (prev_pos lines) run_choice fuel pos
  unfolding run_start loop run_choice
  run_start-loop zero pos = refl
  run_start-loop (suc fuel) pos = elim (Option-cases (prev_pos lines pos)) [
    | inl e ↦ rw (run_start, loop, e) refl
    | inr (next, e) ↦ rw (run_start, loop, e, run_start-loop fuel next) refl
  ]

  run_end-loop :
      (fuel : ℕ) (pos : Pos)
      → run_end alnum fuel lines pos class ≡ loop (next_pos lines) run_choice fuel pos
  unfolding run_end loop run_choice
  run_end-loop zero pos = refl
  run_end-loop (suc fuel) pos = elim (Option-cases (next_pos lines pos)) [
    | inl e ↦ rw (run_end, loop, e) refl
    | inr (next, e) ↦ rw (run_end, loop, e, run_end-loop fuel next) refl
  ]

  if_keeps : (P : Pos → Type 0) (b : Bool) (p q : Pos) → P p → P q → P (if b then p else q)
  if_keeps P true p q h g = h
  if_keeps P false p q h g = g

  advance_choice-keeps :
      (P : Pos → Type 0) (pos next rest : Pos)
      → P pos
      → P next
      → P rest
      → P (advance_choice pos next rest)
  unfolding advance_choice
  advance_choice-keeps P pos next rest p n r = if_keeps P _ pos _ p (if_keeps P _ next rest n r)

  retreat_choice-keeps :
      (P : Pos → Type 0) (pos next rest : Pos)
      → P pos
      → P next
      → P rest
      → P (retreat_choice pos next rest)
  unfolding retreat_choice
  retreat_choice-keeps P pos next rest p n r = if_keeps P _ rest pos r p

  run_choice-keeps :
      (P : Pos → Type 0) (pos next rest : Pos)
      → P pos
      → P next
      → P rest
      → P (run_choice pos next rest)
  unfolding run_choice
  run_choice-keeps P pos next rest p n r = if_keeps P _ rest pos r p

  pub advance_while-Inside :
      (fuel : ℕ) (pos : Pos)
      → Inside lines pos
      → Inside lines (advance_while alnum fuel lines pos class)
  advance_while-Inside fuel pos i = rw (advance_while-loop fuel pos) (
      loop-Inside (next_pos lines) advance_choice lines (ahead lines) (next_pos-Closer lines)
        advance_choice-keeps fuel pos i)

  pub retreat_while-Inside :
      (fuel : ℕ) (pos : Pos)
      → Inside lines pos
      → Inside lines (retreat_while alnum fuel lines pos class)
  retreat_while-Inside fuel pos i = rw (retreat_while-loop fuel pos) (
      loop-Inside (prev_pos lines) retreat_choice lines (behind lines) (prev_pos-Closer lines)
        retreat_choice-keeps fuel pos i)

  pub run_start-Inside :
      (fuel : ℕ) (pos : Pos)
      → Inside lines pos
      → Inside lines (run_start alnum fuel lines pos class)
  run_start-Inside fuel pos i = rw (run_start-loop fuel pos) (
      loop-Inside (prev_pos lines) run_choice lines (behind lines) (prev_pos-Closer lines)
        run_choice-keeps fuel pos i)

  pub run_end-Inside :
      (fuel : ℕ) (pos : Pos) → Inside lines pos → Inside lines (run_end alnum fuel lines pos class)
  run_end-Inside fuel pos i = rw (run_end-loop fuel pos) (
      loop-Inside (next_pos lines) run_choice lines (ahead lines) (next_pos-Closer lines)
        run_choice-keeps fuel pos i)
