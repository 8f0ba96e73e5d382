-- ===== src/Workbench/Editor/Operators.antt =====
-- crates/tradar-query-workbench/src/components/query_editor.rs: selections, operators with a motion or
-- a text object, and the repetition of the last edit.
use tradar.Base.{
  ℕ, ◌+◌, ◌-◌, Bool, true, false, ◌&&◌, ◌||◌, List, [], ◌∷◌, ◌++◌, Option, none, some, ltb, leb,
  ◌==◌, if◌then◌else◌, length, take, drop, min, Text,
}
use tradar.Workbench.Editor.{
  QueryEditor, EditorMode, normal, insert, visual_line, Operator, delete, change, yank, Scope,
  inner, around, Command, word_forward, word_back, word_end, line_start, line_end, enter_insert,
  append, operator_delete, operator_change, operator_yank, RepeatableAction, Register, charwise,
  linewise, line_at, clamp_col, checkpoint,
}
use tradar.Workbench.Editor.Edits.{
  delete_current_line, yank_current_line, change_current_line, delete_char_under_cursor,
  delete_char_before_cursor, case_toggled, lines_joined, line_indented, line_dedented, paste,
}
use tradar.Workbench.Editor.Motions.{
  Pos, space, is_space, next_pos, prev_pos, size, class_at, run_start, run_end, cursor, at_pos,
  or_here, apply_motion_command,
}

-- `<=` on pairs
abbrev pub pos_leb : Pos → Pos → Bool
pos_leb (r, c) (s, d) = ltb r s || (r == s && leb c d)

abbrev pub pos_eq : Pos → Pos → Bool
pos_eq (r, c) (s, d) = r == s && c == d

abbrev pub ordered : Pos → Pos → Pos × Pos
ordered a b = if pos_leb a b then (a, b) else (b, a)

unfoldable pub selection_bounds : QueryEditor → Pos × Pos
selection_bounds e = ordered (or_here (cursor e) e.visual_anchor) (cursor e)

-- The lines in between, each with a newline behind it.
abbrev pub middle : List Text → Text
middle [] = []
middle (l ∷ ls) = l ++ b'\n' ∷ middle ls

unfoldable pub charwise_slice : List Text → Pos → Pos → Text
charwise_slice lines (sr, sc) (er, ec) =
    let last = take (ec + 1) (line_at er lines) in
    if sr == er
    then drop sc last
    else drop sc (line_at sr lines)
      ++ b'\n' ∷ (middle (take (er - (sr + 1)) (drop (sr + 1) lines)) ++ last)

abbrev pub is_linewise : EditorMode → Bool
is_linewise visual_line = true
is_linewise _ = false

abbrev pub cut_lines : ℕ → ℕ → List Text → List Text
cut_lines sr er lines = take (er + 1 - sr) (drop sr lines)

abbrev pub selected : QueryEditor → Pos × Pos → Register
selected e (start, end) =
    if is_linewise e.mode
    then linewise (cut_lines start.0 end.0 e.lines)
    else charwise (charwise_slice e.lines start end)

unfoldable pub exit_visual : QueryEditor → QueryEditor
unfolding clamp_col
exit_visual e = clamp_col (record e { mode = normal; visual_anchor = none })

unfoldable pub selection_yanked : QueryEditor → QueryEditor
unfolding selection_bounds charwise_slice exit_visual
selection_yanked e =
    let bounds = selection_bounds e in
    exit_visual (at_pos bounds.0 (record e { register = some (selected e bounds) }))

abbrev pub or_one_line : List Text → List Text
or_one_line [] = [] ∷ []
or_one_line (l ∷ ls) = l ∷ ls

abbrev pub without_lines : ℕ → ℕ → List Text → List Text
without_lines sr er lines = or_one_line (take sr lines ++ drop (er + 1) lines)

-- The first line up to the selection, with the rest of the last one behind it.
abbrev pub without_chars : Pos → Pos → List Text → List Text
without_chars (sr, sc) (er, ec) lines =
    take sr lines
    ++ (take sc (line_at sr lines) ++ drop (ec + 1) (line_at er lines)) ∷ drop (er + 1) lines

abbrev pub cut : Bool → Pos × Pos → QueryEditor → QueryEditor
cut true (start, end) e =
    let left = without_lines start.0 end.0 e.lines in
    record e { lines = left; cursor_row = min start.0 (length left - 1); cursor_col = 0 }
cut false (start, end) e = record e {
  lines = without_chars start end e.lines;
  cursor_row = start.0;
  cursor_col = start.1;
}

module _ (alnum : ℕ → Bool) where
  unfoldable pub selection_deleted : Bool → QueryEditor → QueryEditor
  unfolding checkpoint selection_bounds charwise_slice clamp_col
  selection_deleted enter e =
      let bounds = selection_bounds e in
      clamp_col (record (cut (is_linewise e.mode) bounds (checkpoint alnum e)) {
        register = some (selected e bounds);
        visual_anchor = none;
        mode = if enter then insert else normal;
      })

  abbrev pub motion_is_exclusive : Command → Bool
  motion_is_exclusive word_forward = true
  motion_is_exclusive word_back = true
  motion_is_exclusive line_start = true
  motion_is_exclusive _ = false

  abbrev pub is_operator_motion : Command → Bool
  is_operator_motion word_forward = true
  is_operator_motion word_back = true
  is_operator_motion word_end = true
  is_operator_motion line_start = true
  is_operator_motion line_end = true
  is_operator_motion _ = false

  -- The operator on the selection from `lo` to `hi`, and what `.` repeats afterwards.
  abbrev pub operate : Operator → RepeatableAction → Pos → Pos → QueryEditor → QueryEditor
  operate delete action lo hi e =
      record (selection_deleted false (at_pos hi (record e { visual_anchor = some lo }))) {
        last_action = some action;
      }
  operate change action lo hi e =
      selection_deleted true (at_pos hi (record e { visual_anchor = some lo }))
  operate yank action lo hi e =
      record (selection_yanked (at_pos hi (record e { visual_anchor = some lo }))) {
        last_action = some action;
      }

  -- The operator from `lo` to the end of the motion, whose last character an exclusive one leaves.
  abbrev pub over : Operator → Command → Pos → Pos → QueryEditor → QueryEditor
  over op motion lo hi e =
      operate op (RepeatableAction.operator_motion op motion) lo
        (if motion_is_exclusive motion then or_here lo (prev_pos e.lines hi) else hi) e

  -- From where the cursor was in `e` to where the motion has taken it.
  abbrev pub over_motion : Operator → Command → Option QueryEditor → QueryEditor → QueryEditor
  over_motion op motion none e = e
  over_motion op motion (some moved) e =
      let range = ordered (cursor e) (cursor moved) in
      if pos_eq range.0 range.1
      then at_pos (cursor e) moved
      else over op motion range.0 range.1 moved

  unfoldable pub operator_motion : Operator → Command → QueryEditor → QueryEditor
  unfolding apply_motion_command prev_pos selection_deleted selection_yanked
  operator_motion op motion e =
      if is_operator_motion motion
      then over_motion op motion (apply_motion_command alnum motion e) e
      else e

  abbrev pub spaced : List Text → Option Pos → Bool
  spaced lines none = false
  spaced lines (some pos) = is_space (class_at alnum lines pos)

  -- With the white space behind, or else with that in front.
  abbrev pub widened : ℕ → List Text → Pos → Pos → Pos × Pos
  widened fuel lines lo hi =
      let after = next_pos lines hi in
      let before = prev_pos lines lo in
      if spaced lines after
      then (lo, run_end alnum fuel lines (or_here hi after) space)
      else if spaced lines before
      then (run_start alnum fuel lines (or_here lo before) space, hi)
      else (lo, hi)

  unfoldable pub word_text_object : Scope → QueryEditor → Pos × Pos
  unfolding class_at run_start run_end next_pos prev_pos size
  word_text_object scope e =
      let class = class_at alnum e.lines (cursor e) in
      let lo = run_start alnum (size e.lines) e.lines (cursor e) class in
      let hi = run_end alnum (size e.lines) e.lines (cursor e) class in
      elim scope [ inner ↦ (lo, hi) | around ↦ widened (size e.lines) e.lines lo hi ]

  abbrev pub is_word_forward : Command → Bool
  is_word_forward word_forward = true
  is_word_forward _ = false

  unfoldable pub complete_text_object : Operator → Scope → Command → QueryEditor → QueryEditor
  unfolding word_text_object selection_deleted selection_yanked
  complete_text_object op scope command e =
      let object = word_text_object scope e in
      if is_word_forward command
      then operate op (RepeatableAction.text_object op scope command) object.0 object.1 e
      else e

  -- `dd`, `cc`, `yy`
  abbrev pub doubled : Operator → QueryEditor → QueryEditor
  doubled delete e = record (delete_current_line (checkpoint alnum e)) {
    last_action = some RepeatableAction.deleted_line;
  }
  doubled change e = change_current_line (checkpoint alnum e)
  doubled yank e = record (yank_current_line e) { last_action = some RepeatableAction.yanked_line }

  abbrev pub repeats : Operator → Command → Bool
  repeats delete operator_delete = true
  repeats change operator_change = true
  repeats yank operator_yank = true
  repeats _ _ = false

  unfoldable pub complete_operator : Operator → Command → QueryEditor → QueryEditor
  unfolding checkpoint delete_current_line change_current_line yank_current_line operator_motion
  complete_operator op enter_insert e = record e { pending_scope = some inner }
  complete_operator op append e = record e { pending_scope = some around }
  complete_operator op command e =
      let f = record e { pending_operator = none } in
      if repeats op command then doubled op f else operator_motion op command f

  module _ (toggled : ℕ → ℕ) where
    abbrev pub repeat_action : RepeatableAction → QueryEditor → QueryEditor
    repeat_action RepeatableAction.deleted_char e = delete_char_under_cursor alnum e
    repeat_action RepeatableAction.deleted_char_before e = delete_char_before_cursor alnum e
    repeat_action RepeatableAction.deleted_line e = delete_current_line (checkpoint alnum e)
    repeat_action RepeatableAction.yanked_line e = yank_current_line e
    repeat_action RepeatableAction.pasted_after e = paste alnum false e
    repeat_action RepeatableAction.pasted_before e = paste alnum true e
    repeat_action RepeatableAction.toggled_case e = case_toggled alnum toggled e
    repeat_action RepeatableAction.joined_lines e = lines_joined alnum e
    repeat_action RepeatableAction.indented_line e = line_indented alnum e
    repeat_action RepeatableAction.dedented_line e = line_dedented alnum e
    repeat_action (RepeatableAction.operator_motion op motion) e = operator_motion op motion e
    repeat_action (RepeatableAction.text_object op scope command) e =
        complete_text_object op scope command e

    abbrev pub repeat_if : Option RepeatableAction → QueryEditor → QueryEditor
    repeat_if none e = e
    repeat_if (some action) e = repeat_action action e

    unfoldable pub last_repeated : QueryEditor → QueryEditor
    unfolding checkpoint delete_char_under_cursor delete_char_before_cursor delete_current_line
        yank_current_line paste case_toggled lines_joined line_indented line_dedented
        operator_motion complete_text_object
    last_repeated e = repeat_if e.last_action e
