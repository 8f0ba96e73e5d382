-- ===== src/Workbench/Editor/WellFormed/Selecting.antt =====
-- Which keys of the editor (Workbench/Editor/Keys) select, and that the other end of a selection is on
-- a line of the buffer.
use tradar.Base.{ℕ, Bool, true, false, Option, none, some, ◌≡◌, refl, sym, ap, subst, if◌then◌else◌}
use tradar.Workbench.Editor.{
  QueryEditor, EditorMode, normal, insert, visual, visual_line, Operator, delete, change, yank,
  Scope, Command, RepeatableAction, checkpoint, undo_edit, redo_edit, clamp_col, range_at_cursor,
  fold_toggled,
}
use tradar.Workbench.Editor.Edits.{
  paste, delete_char_under_cursor, delete_char_before_cursor, case_toggled, lines_joined,
  line_indented, line_dedented, yank_current_line,
}
use tradar.Workbench.Editor.Operators.{
  repeats, complete_operator, repeat_action, repeat_if, last_repeated, exit_visual,
}
use tradar.Workbench.Editor.Keys.{
  Resolution, command, pending, unbound, normal_command, or_else, plain_command, operator_command,
  handle_normal_key, visual_command, handle_visual_key, InsertKey, escape, visual_key, key_in,
  forward_key,
}
use tradar.Workbench.Editor.WellFormed.{WellFormed, if_keeps}
use tradar.Workbench.Editor.WellFormed.Moved.{Moves, apply_motion_command-Moves}
use tradar.Workbench.Editor.WellFormed.Selected.{Anchored}
use tradar.Workbench.Editor.WellFormed.Commanded.{pending-WellFormed}
use tradar.Workbench.Editor.WellFormed.Inserted.{handle_insert_key-Calm}
use tradar.Workbench.Editor.WellFormed.Calm.{
  is_visual, Calm, undone-Calm, redone-Calm, toggle_range-Calm, selection_yanked-Calm,
  selection_deleted-Calm, paste_from-Calm, operator_motion-Calm, complete_text_object-Calm,
  delete_current_line-Calm, doubled-Calm,
}

-- While something is selected, its other end is on a line of the buffer.
abbrev pub Selecting : QueryEditor → Type 0
Selecting e = is_visual e.mode ≡ true → Anchored e

pub not_both : {A : Type 0} {b : Bool} → b ≡ false → b ≡ true → A
not_both f t = cc

module _ (alnum : ℕ → Bool) (toggled : ℕ → ℕ) where
  edited-Calm : (b : Bool) (e f : QueryEditor) → Calm e → Calm f → Calm (if b then e else f)
  edited-Calm b e f c d = if_keeps Calm b e f (λ h. c) (λ h. d)

  repeat_action-Calm :
      (a : RepeatableAction) (e : QueryEditor)
      → WellFormed e
      → Calm e
      → Calm (repeat_action alnum toggled a e)
  unfolding delete_char_under_cursor delete_char_before_cursor case_toggled lines_joined
      line_indented line_dedented paste checkpoint clamp_col yank_current_line
  repeat_action-Calm RepeatableAction.deleted_char e w c = edited-Calm _ _ e c c
  repeat_action-Calm RepeatableAction.deleted_char_before e w c = edited-Calm _ _ e c c
  repeat_action-Calm RepeatableAction.deleted_line e w c =
      delete_current_line-Calm alnum (checkpoint alnum e) c
  repeat_action-Calm RepeatableAction.yanked_line e w c = c
  repeat_action-Calm RepeatableAction.pasted_after e w c =
      paste_from-Calm alnum false e.register e c
  repeat_action-Calm RepeatableAction.pasted_before e w c =
      paste_from-Calm alnum true e.register e c
  repeat_action-Calm RepeatableAction.toggled_case e w c = edited-Calm _ e _ c c
  repeat_action-Calm RepeatableAction.joined_lines e w c = edited-Calm _ e _ c c
  repeat_action-Calm RepeatableAction.indented_line e w c = c
  repeat_action-Calm RepeatableAction.dedented_line e w c = edited-Calm _ e _ c c
  repeat_action-Calm (RepeatableAction.operator_motion op motion) e w c =
      operator_motion-Calm alnum op motion e w c
  repeat_action-Calm (RepeatableAction.text_object op scope k) e w c =
      complete_text_object-Calm alnum op scope k e c

  repeat_if-Calm :
      (a : Option RepeatableAction) (e : QueryEditor)
      → WellFormed e
      → Calm e
      → Calm (repeat_if alnum toggled a e)
  repeat_if-Calm none e w c = c
  repeat_if-Calm (some a) e w c = repeat_action-Calm a e w c

  normal_command-Selecting :
      (k : Command) (e : QueryEditor)
      → WellFormed e
      → Calm e
      → Selecting (normal_command alnum toggled k e)
  unfolding normal_command fold_toggled undo_edit redo_edit last_repeated checkpoint
  normal_command-Selecting Command.enter_insert e w c = not_both refl
  normal_command-Selecting Command.append e w c = not_both refl
  normal_command-Selecting Command.insert_line_start e w c = not_both refl
  normal_command-Selecting Command.append_line_end e w c = not_both refl
  normal_command-Selecting Command.open_below e w c = not_both refl
  normal_command-Selecting Command.open_above e w c = not_both refl
  normal_command-Selecting Command.enter_visual e w c = λ v. w.rowed.row_in
  normal_command-Selecting Command.enter_visual_line e w c = λ v. w.rowed.row_in
  normal_command-Selecting Command.delete_char e w c =
      not_both (repeat_action-Calm RepeatableAction.deleted_char e w c)
  normal_command-Selecting Command.delete_char_before e w c =
      not_both (repeat_action-Calm RepeatableAction.deleted_char_before e w c)
  normal_command-Selecting Command.paste_after e w c =
      not_both (repeat_action-Calm RepeatableAction.pasted_after e w c)
  normal_command-Selecting Command.paste_before e w c =
      not_both (repeat_action-Calm RepeatableAction.pasted_before e w c)
  normal_command-Selecting Command.delete_to_line_end e w c =
      not_both (operator_motion-Calm alnum delete Command.line_end e w c)
  normal_command-Selecting Command.change_to_line_end e w c =
      not_both (operator_motion-Calm alnum change Command.line_end e w c)
  normal_command-Selecting Command.yank_to_line_end e w c =
      not_both (operator_motion-Calm alnum yank Command.line_end e w c)
  normal_command-Selecting Command.toggle_fold e w c =
      not_both (toggle_range-Calm (range_at_cursor alnum e) e c)
  normal_command-Selecting Command.join_lines e w c =
      not_both (repeat_action-Calm RepeatableAction.joined_lines e w c)
  normal_command-Selecting Command.toggle_case e w c =
      not_both (repeat_action-Calm RepeatableAction.toggled_case e w c)
  normal_command-Selecting Command.indent_line e w c =
      not_both (repeat_action-Calm RepeatableAction.indented_line e w c)
  normal_command-Selecting Command.dedent_line e w c =
      not_both (repeat_action-Calm RepeatableAction.dedented_line e w c)
  normal_command-Selecting Command.repeat_last e w c = not_both (repeat_if-Calm e.last_action e w c)
  normal_command-Selecting Command.undo e w c = not_both (undone-Calm e.undo_stack e c)
  normal_command-Selecting Command.redo e w c = not_both (redone-Calm e.redo_stack e c)
  normal_command-Selecting Command.operator_delete e w c = not_both c
  normal_command-Selecting Command.operator_change e w c = not_both c
  normal_command-Selecting Command.operator_yank e w c = not_both c
  normal_command-Selecting _ e w c = not_both c

  or_else-Selecting :
      (e f : QueryEditor) (moved : Option QueryEditor)
      → Moves e moved
      → (Selecting e → Selecting f)
      → Selecting e
      → Selecting (or_else alnum toggled moved f)
  or_else-Selecting e f none m k s = k s
  or_else-Selecting e f (some g) (same, w) k s = subst Selecting (sym same) s

  complete_operator-Calm :
      (op : Operator) (k : Command) (e : QueryEditor)
      → WellFormed e
      → Calm e
      → Calm (complete_operator alnum op k e)
  unfolding complete_operator
  complete_operator-Calm op Command.enter_insert e w c = c
  complete_operator-Calm op Command.append e w c = c
  complete_operator-Calm op k e w c =
      let f = record e { pending_operator = none } in
      if_keeps Calm (repeats alnum op k) _ _ (λ h. doubled-Calm alnum op f c)
        (λ h. operator_motion-Calm alnum op k f (pending-WellFormed none e.pending_scope e w) c)

  operator_command-Selecting :
      (scope : Option Scope) (op : Option Operator) (k : Command) (e : QueryEditor)
      → WellFormed e
      → Calm e
      → Selecting (operator_command alnum toggled scope op k e)
  unfolding operator_command plain_command
  operator_command-Selecting (some scope) (some op) k e w c = not_both (
      complete_text_object-Calm alnum op scope k
        (record e { pending_scope = none; pending_operator = none }) c)
  operator_command-Selecting (some scope) none k e w c = not_both c
  operator_command-Selecting none (some op) k e w c = not_both (complete_operator-Calm op k e w c)
  operator_command-Selecting none none k e w c =
      or_else-Selecting e _ _ (apply_motion_command-Moves alnum k e w)
        (λ s. normal_command-Selecting k e w c) (not_both c)

  handle_normal_key-Selecting :
      (r : Resolution) (e : QueryEditor)
      → WellFormed e
      → Calm e
      → Selecting (handle_normal_key alnum toggled r e)
  unfolding handle_normal_key
  handle_normal_key-Selecting (command k) e w c =
      operator_command-Selecting e.pending_scope e.pending_operator k e w c
  handle_normal_key-Selecting pending e w c = not_both c
  handle_normal_key-Selecting unbound e w c = not_both c

  visual_command-Selecting :
      (k : Command) (e : QueryEditor) → Selecting e → Selecting (visual_command alnum toggled k e)
  visual_command-Selecting Command.yank_selection e s = not_both (selection_yanked-Calm e)
  visual_command-Selecting Command.delete_selection e s =
      not_both (selection_deleted-Calm alnum false e)
  visual_command-Selecting Command.change_selection e s =
      not_both (selection_deleted-Calm alnum true e)
  visual_command-Selecting _ e s = s

  handle_visual_key-Selecting :
      (r : Resolution) (e : QueryEditor)
      → WellFormed e
      → Selecting e
      → Selecting (handle_visual_key alnum toggled r e)
  unfolding handle_visual_key
  handle_visual_key-Selecting (command k) e w s =
      or_else-Selecting e _ _ (apply_motion_command-Moves alnum k e w)
        (visual_command-Selecting k e) s
  handle_visual_key-Selecting pending e w s = s
  handle_visual_key-Selecting unbound e w s = s

  visual_key-Selecting :
      (r : Resolution) (k : InsertKey) (e : QueryEditor)
      → WellFormed e
      → Selecting e
      → Selecting (visual_key alnum toggled r k e)
  unfolding exit_visual clamp_col
  visual_key-Selecting r escape e w s = not_both refl
  visual_key-Selecting r _ e w s = handle_visual_key-Selecting r e w s

  key_in-Selecting :
      (m : EditorMode) (r : Resolution) (k : InsertKey) (e : QueryEditor)
      → e.mode ≡ m
      → WellFormed e
      → Selecting e
      → Selecting (key_in alnum toggled m r k e)
  key_in-Selecting normal r k e m w s = handle_normal_key-Selecting r e w (ap is_visual m)
  key_in-Selecting insert r k e m w s = not_both (handle_insert_key-Calm alnum toggled k e m w)
  key_in-Selecting visual r k e m w s = visual_key-Selecting r k e w s
  key_in-Selecting visual_line r k e m w s = visual_key-Selecting r k e w s

  pub forward_key-Selecting :
      (r : Resolution) (k : InsertKey) (e : QueryEditor)
      → WellFormed e
      → Selecting e
      → Selecting (forward_key alnum toggled r k e)
  unfolding forward_key
  forward_key-Selecting r k e w s = key_in-Selecting e.mode r k e refl w s
