-- ===== src/Workbench/Editor/Keys.antt =====
-- crates/tradar-query-workbench/src/components/query_editor.rs: what a key does in each mode. The key
-- map that turns a key into a command (crates/tradar-core/src/keymap.rs) has answered already.
use tradar.Base.{
  ℕ, ◌+◌, ◌-◌, Bool, true, false, [], ◌∷◌, ◌++◌, Option, none, some, ltb, if◌then◌else◌, length,
  remove_at, insert_at, set_at, min, ◌||◌, Text,
}
use tradar.Workbench.Editor.{
  QueryEditor, EditorMode, normal, insert, visual, visual_line, Operator, delete, change, yank,
  Scope, Command, RepeatableAction, line_at, current_line, clamp_col, checkpoint, fold_toggled,
  undo_edit, redo_edit,
}
use tradar.Workbench.Editor.Edits.{
  with_line, auto_close_for, is_at, type_char, break_line, delete_char_under_cursor,
  delete_char_before_cursor, case_toggled, lines_joined, line_indented, line_dedented, paste,
  char_at,
}
use tradar.Workbench.Editor.Motions.{apply_motion_command, cursor}
use tradar.Workbench.Editor.Operators.{
  exit_visual, selection_yanked, selection_deleted, operator_motion, complete_text_object,
  complete_operator, last_repeated, pos_eq,
}

-- `Resolution`
pub data Resolution : Type 0 where
  command : Command → Resolution
  pending unbound : Resolution

-- The keys of Insert mode.
pub data InsertKey : Type 0 where
  escape enter backspace left right up down other : InsertKey
  char : (c : ℕ) (control : Bool) → InsertKey

-- Is the closer of the removed character at `col`?
abbrev pub closes_pair : Text → ℕ → Text → Bool
closes_pair [] col line = false
closes_pair (c ∷ cs) col line = elim (auto_close_for c) [
  | none ↦ false
  | some closer ↦ is_at closer col line
]

module _ (alnum : ℕ → Bool) (toggled : ℕ → ℕ) where
  abbrev pub with_action : RepeatableAction → QueryEditor → QueryEditor
  with_action action e = record e { last_action = some action }

  -- The last `match` of `handle_normal_key`
  unfoldable pub normal_command : Command → QueryEditor → QueryEditor
  unfolding checkpoint delete_char_under_cursor delete_char_before_cursor paste operator_motion
      fold_toggled lines_joined case_toggled line_indented line_dedented last_repeated undo_edit
      redo_edit
  normal_command Command.enter_insert e = record (checkpoint alnum e) { mode = insert }
  normal_command Command.append e = record (checkpoint alnum e) {
    cursor_col = if ltb 0 (length (current_line e)) then e.cursor_col + 1 else e.cursor_col;
    mode = insert;
  }
  normal_command Command.insert_line_start e = record (checkpoint alnum e) {
    cursor_col = 0;
    mode = insert;
  }
  normal_command Command.append_line_end e = record (checkpoint alnum e) {
    cursor_col = length (current_line e);
    mode = insert;
  }
  normal_command Command.open_below e = record (checkpoint alnum e) {
    lines = insert_at (e.cursor_row + 1) [] e.lines;
    cursor_row = e.cursor_row + 1;
    cursor_col = 0;
    mode = insert;
  }
  normal_command Command.open_above e = record (checkpoint alnum e) {
    lines = insert_at e.cursor_row [] e.lines;
    cursor_col = 0;
    mode = insert;
  }
  normal_command Command.enter_visual e = record e {
    visual_anchor = some (cursor e);
    mode = visual;
  }
  normal_command Command.enter_visual_line e = record e {
    visual_anchor = some (cursor e);
    mode = visual_line;
  }
  normal_command Command.delete_char e =
      with_action RepeatableAction.deleted_char (delete_char_under_cursor alnum e)
  normal_command Command.delete_char_before e =
      with_action RepeatableAction.deleted_char_before (delete_char_before_cursor alnum e)
  normal_command Command.paste_after e =
      with_action RepeatableAction.pasted_after (paste alnum false e)
  normal_command Command.paste_before e =
      with_action RepeatableAction.pasted_before (paste alnum true e)
  normal_command Command.operator_delete e = record e { pending_operator = some delete }
  normal_command Command.operator_change e = record e { pending_operator = some change }
  normal_command Command.operator_yank e = record e { pending_operator = some yank }
  normal_command Command.delete_to_line_end e = operator_motion alnum delete Command.line_end e
  normal_command Command.change_to_line_end e = operator_motion alnum change Command.line_end e
  normal_command Command.yank_to_line_end e = operator_motion alnum yank Command.line_end e
  normal_command Command.toggle_fold e = fold_toggled alnum e
  normal_command Command.join_lines e =
      with_action RepeatableAction.joined_lines (lines_joined alnum e)
  normal_command Command.toggle_case e =
      with_action RepeatableAction.toggled_case (case_toggled alnum toggled e)
  normal_command Command.indent_line e =
      with_action RepeatableAction.indented_line (line_indented alnum e)
  normal_command Command.dedent_line e =
      with_action RepeatableAction.dedented_line (line_dedented alnum e)
  normal_command Command.repeat_last e = last_repeated alnum toggled e
  normal_command Command.undo e = undo_edit e
  normal_command Command.redo e = redo_edit e
  normal_command _ e = e

  abbrev pub or_else : Option QueryEditor → QueryEditor → QueryEditor
  or_else none e = e
  or_else (some moved) e = moved

  -- With no operator pending: a motion, or another command.
  unfoldable pub plain_command : Command → QueryEditor → QueryEditor
  unfolding apply_motion_command normal_command
  plain_command c e = or_else (apply_motion_command alnum c e) (normal_command c e)

  -- What an operator, and the scope of an object behind it, make of the command. A scope is set only
  -- beside an operator; the source panics otherwise.
  unfoldable pub operator_command :
      Option Scope → Option Operator → Command → QueryEditor → QueryEditor
  unfolding complete_text_object complete_operator plain_command
  operator_command (some scope) (some op) c e =
      complete_text_object alnum op scope c
        (record e { pending_scope = none; pending_operator = none })
  operator_command (some scope) none c e = e
  operator_command none (some op) c e = complete_operator alnum op c e
  operator_command none none c e = plain_command c e

  unfoldable pub handle_normal_key : Resolution → QueryEditor → QueryEditor
  unfolding operator_command
  handle_normal_key (command c) e = operator_command e.pending_scope e.pending_operator c e
  handle_normal_key _ e = record e { pending_operator = none; pending_scope = none }

  abbrev pub visual_command : Command → QueryEditor → QueryEditor
  visual_command Command.yank_selection e = selection_yanked e
  visual_command Command.delete_selection e = selection_deleted alnum false e
  visual_command Command.change_selection e = selection_deleted alnum true e
  visual_command _ e = e

  -- A key other than Escape, which is `exit_visual`
  unfoldable pub handle_visual_key : Resolution → QueryEditor → QueryEditor
  unfolding apply_motion_command selection_yanked selection_deleted
  handle_visual_key (command c) e = or_else (apply_motion_command alnum c e) (visual_command c e)
  handle_visual_key _ e = e

  unfoldable pub checkpoint_if_non_modal : QueryEditor → QueryEditor
  unfolding checkpoint
  checkpoint_if_non_modal e = if e.vim_enabled then e else checkpoint alnum e

  abbrev pub is_here : QueryEditor → Option (ℕ × ℕ) → Bool
  is_here e none = false
  is_here e (some pos) = pos_eq pos (cursor e)

  unfoldable pub checkpoint_before_typing : QueryEditor → QueryEditor
  unfolding checkpoint
  checkpoint_before_typing e =
      if e.vim_enabled || is_here e e.typing_run_end then e else checkpoint alnum e

  -- The character in front of the cursor goes, and its closer, if that is next.
  unfoldable pub backspace_char : QueryEditor → QueryEditor
  unfolding auto_close_for
  backspace_char e =
      let col = e.cursor_col - 1 in
      let f = record (with_line (remove_at col) e) { cursor_col = col } in
      if closes_pair (char_at col (current_line e)) col (current_line f)
      then with_line (remove_at col) f
      else f

  -- The line goes to the end of the one above.
  unfoldable pub backspace_line : QueryEditor → QueryEditor
  backspace_line e =
      let above = line_at (e.cursor_row - 1) e.lines in
      record e {
        lines =
            set_at (e.cursor_row - 1) (above ++ current_line e) (remove_at e.cursor_row e.lines);
        cursor_row = e.cursor_row - 1;
        cursor_col = length above;
      }

  abbrev pub run_ended : QueryEditor → QueryEditor
  run_ended e = record e { typing_run_end = none }

  unfoldable pub handle_insert_key : InsertKey → QueryEditor → QueryEditor
  unfolding clamp_col checkpoint_if_non_modal break_line backspace_char backspace_line
      checkpoint_before_typing type_char
  handle_insert_key escape e = if e.vim_enabled then clamp_col (record e { mode = normal }) else e
  handle_insert_key enter e = break_line (checkpoint_if_non_modal e)
  handle_insert_key backspace e =
      let f = checkpoint_if_non_modal e in
      if ltb 0 e.cursor_col
      then backspace_char f
      else if ltb 0 e.cursor_row
      then backspace_line f
      else f
  handle_insert_key left e = record (run_ended e) { cursor_col = e.cursor_col - 1 }
  handle_insert_key right e = record (run_ended e) {
    cursor_col = min (e.cursor_col + 1) (length (current_line e));
  }
  handle_insert_key up e =
      if ltb 0 e.cursor_row
      then clamp_col (record (run_ended e) { cursor_row = e.cursor_row - 1 })
      else run_ended e
  handle_insert_key down e =
      if ltb (e.cursor_row + 1) (length e.lines)
      then clamp_col (record (run_ended e) { cursor_row = e.cursor_row + 1 })
      else run_ended e
  handle_insert_key (char c true) e = e
  handle_insert_key (char c false) e =
      let f = type_char c (checkpoint_before_typing e) in
      if e.vim_enabled then f else record f { typing_run_end = some (cursor f) }
  handle_insert_key other e = e

  -- `handle_visual_key`, Escape included
  abbrev pub visual_key : Resolution → InsertKey → QueryEditor → QueryEditor
  visual_key r escape e = exit_visual e
  visual_key r k e = handle_visual_key r e

  abbrev pub key_in : EditorMode → Resolution → InsertKey → QueryEditor → QueryEditor
  key_in normal r k e = handle_normal_key r e
  key_in insert r k e = handle_insert_key k e
  key_in visual r k e = visual_key r k e
  key_in visual_line r k e = visual_key r k e

  -- A key, as Insert mode sees it, and what the key map makes of it.
  unfoldable pub forward_key : Resolution → InsertKey → QueryEditor → QueryEditor
  unfolding exit_visual handle_normal_key handle_insert_key handle_visual_key
  forward_key r k e = key_in e.mode r k e
