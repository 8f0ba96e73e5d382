-- ===== src/Workbench/Editor/Motions.antt =====
-- crates/tradar-query-workbench/src/components/query_editor.rs: the motions. A loop over positions
-- recurses on a fuel of the size of the buffer; each round goes to another position of it.
pub mod Loops
pub mod Enough
use tradar.Base.{
  ℕ, zero, suc, ◌+◌, ◌-◌, Bool, true, false, not, ◌&&◌, ◌||◌, List, [], ◌∷◌, Option, none, some,
  ltb, ◌==◌, if◌then◌else◌, length, get_elem?, min, Text, is_whitespace,
}
use tradar.Core.VimList.{VimMove, apply}
use tradar.Workbench.Editor.{
  QueryEditor, Command, vim_move, move_left, move_right, line_start, line_end, word_forward,
  word_back, word_end, line_at, current_line, clamp_col, move_row_to,
}
use tradar.Workbench.Editor.Edits.{is_word_char}

abbrev pub Pos : Type 0
Pos = ℕ × ℕ

pub data CharClass : Type 0 where
  space word punct : CharClass

abbrev pub same_class : CharClass → CharClass → Bool
same_class space space = true
same_class word word = true
same_class punct punct = true
same_class _ _ = false

abbrev pub is_space : CharClass → Bool
is_space = same_class space

unfoldable pub next_pos : List Text → Pos → Option Pos
next_pos lines (row, col) =
    if ltb (col + 1) (length (line_at row lines))
    then some (row, col + 1)
    else if ltb (row + 1) (length lines)
    then some (row + 1, 0)
    else none

unfoldable pub prev_pos : List Text → Pos → Option Pos
prev_pos lines (row, col) =
    if ltb 0 col
    then some (row, col - 1)
    else if ltb 0 row
    then some (row - 1, length (line_at (row - 1) lines) - 1)
    else none

-- As many as there are positions, at least.
unfoldable pub size : List Text → ℕ
size [] = 0
size (l ∷ ls) = length l + 1 + size ls

abbrev pub cursor : QueryEditor → Pos
cursor e = (e.cursor_row, e.cursor_col)

abbrev pub at_pos : Pos → QueryEditor → QueryEditor
at_pos pos e = record e { cursor_row = pos.0; cursor_col = pos.1 }

abbrev pub or_here : Pos → Option Pos → Pos
or_here pos none = pos
or_here pos (some next) = next

module _ (alnum : ℕ → Bool) where
  unfoldable pub char_class : ℕ → CharClass
  unfolding is_whitespace is_word_char
  char_class c = if is_whitespace c then space else if is_word_char alnum c then word else punct

  abbrev pub class_of : Option ℕ → CharClass
  class_of none = space
  class_of (some c) = char_class c

  unfoldable pub class_at : List Text → Pos → CharClass
  unfolding char_class
  class_at lines (row, col) = class_of (get_elem? (line_at row lines) col)

  -- One round of a loop: where to go on from `pos`, or where it ends.
  unfoldable pub advance_while : ℕ → List Text → Pos → CharClass → Pos
  unfolding class_at next_pos
  advance_while zero lines pos class = pos
  advance_while (suc fuel) lines pos class = elim (next_pos lines pos) [
    | none ↦ pos
    | some next ↦
        let rest = advance_while fuel lines next class in
        if not (same_class (class_at lines pos) class)
        then pos
        else if not (next.0 == pos.0) && not (is_space class)
        then next
        else rest
  ]

  unfoldable pub retreat_while : ℕ → List Text → Pos → CharClass → Pos
  unfolding class_at prev_pos
  retreat_while zero lines pos class = pos
  retreat_while (suc fuel) lines pos class = elim (prev_pos lines pos) [
    | none ↦ pos
    | some prev ↦
        let rest = retreat_while fuel lines prev class in
        if same_class (class_at lines pos) class then rest else pos
  ]

  unfoldable pub run_start : ℕ → List Text → Pos → CharClass → Pos
  unfolding class_at prev_pos
  run_start zero lines pos class = pos
  run_start (suc fuel) lines pos class = elim (prev_pos lines pos) [
    | none ↦ pos
    | some prev ↦
        let rest = run_start fuel lines prev class in
        if prev.0 == pos.0 && same_class (class_at lines prev) class then rest else pos
  ]

  unfoldable pub run_end : ℕ → List Text → Pos → CharClass → Pos
  unfolding class_at next_pos
  run_end zero lines pos class = pos
  run_end (suc fuel) lines pos class = elim (next_pos lines pos) [
    | none ↦ pos
    | some next ↦
        let rest = run_end fuel lines next class in
        if next.0 == pos.0 && same_class (class_at lines next) class then rest else pos
  ]

  unfoldable pub move_word_forward : QueryEditor → QueryEditor
  unfolding class_at advance_while size clamp_col
  move_word_forward e =
      let fuel = size e.lines in
      let start_class = class_at e.lines (cursor e) in
      let behind =
        if is_space start_class
        then cursor e
        else advance_while fuel e.lines (cursor e) start_class in
      clamp_col (at_pos (advance_while fuel e.lines behind space) e)

  abbrev pub start_of_run : ℕ → List Text → Pos → Pos
  start_of_run fuel lines pos =
      let class = class_at lines pos in
      if is_space class then pos else run_start fuel lines pos class

  abbrev pub backward_from : Option Pos → QueryEditor → QueryEditor
  backward_from none e = record e { cursor_col = 0 }
  backward_from (some prev) e =
      let fuel = size e.lines in
      clamp_col (at_pos (start_of_run fuel e.lines (retreat_while fuel e.lines prev space)) e)

  unfoldable pub move_word_backward : QueryEditor → QueryEditor
  unfolding class_at prev_pos retreat_while run_start size clamp_col
  move_word_backward e = backward_from (prev_pos e.lines (cursor e)) e

  abbrev pub end_of_run : ℕ → List Text → Pos → Pos
  end_of_run fuel lines pos =
      let class = class_at lines pos in if is_space class then pos else run_end fuel lines pos class

  unfoldable pub move_word_end : QueryEditor → QueryEditor
  unfolding class_at next_pos advance_while run_end size clamp_col
  move_word_end e =
      let fuel = size e.lines in
      let stepped = or_here (cursor e) (next_pos e.lines (cursor e)) in
      clamp_col (at_pos (end_of_run fuel e.lines (advance_while fuel e.lines stepped space)) e)

  -- The editor after a motion; nothing for a command that is none.
  unfoldable pub apply_motion_command : Command → QueryEditor → Option QueryEditor
  unfolding move_row_to apply move_word_forward move_word_backward move_word_end
  apply_motion_command (vim_move mv) e =
      some (move_row_to alnum (apply mv e.cursor_row (length e.lines) e.visible_height) e)
  apply_motion_command move_left e = some (record e { cursor_col = e.cursor_col - 1 })
  apply_motion_command move_right e =
      some (record e { cursor_col = min (e.cursor_col + 1) (length (current_line e) - 1) })
  apply_motion_command line_start e = some (record e { cursor_col = 0 })
  apply_motion_command line_end e = some (record e { cursor_col = length (current_line e) - 1 })
  apply_motion_command word_forward e = some (move_word_forward e)
  apply_motion_command word_back e = some (move_word_backward e)
  apply_motion_command word_end e = some (move_word_end e)
  apply_motion_command _ e = none
