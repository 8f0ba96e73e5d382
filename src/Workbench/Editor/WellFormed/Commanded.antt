-- ===== src/Workbench/Editor/WellFormed/Commanded.antt =====
-- The commands of Normal mode (Workbench/Editor/Keys) keep the cursor in the buffer.
use tradar.Base.{
  ℕ, ◌+◌, ◌-◌, ◌≤◌, Bool, true, false, ◌&&◌, [], Option, none, some, ◌≡◌, refl, inl, inr, arith,
  ltb, leb, if◌then◌else◌, Bool-cases, length, insert_at, subst,
}
use tradar.Workbench.Editor.{
  QueryEditor, EditorMode, normal, insert, visual, visual_line, Operator, delete, change, yank,
  Scope, inner, around, Command, RepeatableAction, current_line, max_col, checkpoint,
  range_at_cursor, toggle_range, is_folded, fold_toggled, foldable_ranges,
}
use tradar.Workbench.Editor.Motions.{cursor}
use tradar.Workbench.Editor.Operators.{
  complete_operator, repeats, repeat_action, repeat_if, last_repeated,
}
use tradar.Workbench.Editor.Keys.{normal_command}
use tradar.Workbench.Editor.WellFormed.{
  Rowed, WellFormed, if_keeps, clamp_col-WellFormed, checkpoint-Rowed, length-insert_at,
  undo_edit-WellFormed, redo_edit-WellFormed,
}
use tradar.Workbench.Editor.WellFormed.Edited.{
  delete_char_under_cursor-WellFormed, delete_char_before_cursor-WellFormed,
  case_toggled-WellFormed, lines_joined-WellFormed, line_indented-WellFormed,
  line_dedented-WellFormed,
}
use tradar.Workbench.Editor.WellFormed.Pasted.{
  delete_current_line-WellFormed, yank_current_line-WellFormed, paste-WellFormed,
}
use tradar.Workbench.Editor.WellFormed.Moved.{WellFormed-Inside, Found, first_range-Found}
use tradar.Workbench.Editor.WellFormed.Operated.{
  acted-WellFormed, operator_motion-WellFormed, complete_text_object-WellFormed, doubled-WellFormed,
}

-- What an operator waits for is not part of it.
pub pending-WellFormed :
    (op : Option Operator) (scope : Option Scope) (e : QueryEditor)
    → WellFormed e
    → WellFormed (record e { pending_operator = op; pending_scope = scope })
pending-WellFormed op scope e w = record {
  rowed = record {
    row_in = w.rowed.row_in;
    undo_in = w.rowed.undo_in;
    redo_in = w.rowed.redo_in;
    register_in = w.rowed.register_in;
  };
  col_in = w.col_in;
}

-- A line that the cursor is in, with it at a column of the line, to insert there.
inserting-WellFormed :
    (alnum : ℕ → Bool) (col : ℕ) (e : QueryEditor)
    → Rowed e
    → col ≤ length (current_line e)
    → WellFormed (record (checkpoint alnum e) { cursor_col = col; mode = insert })
unfolding checkpoint
inserting-WellFormed alnum col e r h =
    let c = checkpoint-Rowed alnum e r in
    record {
      rowed = record {
        row_in = c.row_in;
        undo_in = c.undo_in;
        redo_in = c.redo_in;
        register_in = c.register_in;
      };
      col_in = h;
    }

-- An empty line above or below the cursor.
opened-WellFormed :
    (alnum : ℕ → Bool) (row : ℕ) (e : QueryEditor)
    → Rowed e
    → row ≤ length e.lines
    → WellFormed (record (checkpoint alnum e) {
      lines = insert_at row [] e.lines;
      cursor_row = row;
      cursor_col = 0;
      mode = insert;
    })
opened-WellFormed alnum row e r h =
    let c = checkpoint-Rowed alnum e r in
    record {
      rowed = record {
        row_in = omega (arith, length-insert_at row [] e.lines);
        undo_in = c.undo_in;
        redo_in = c.redo_in;
        register_in = c.register_in;
      };
      col_in = omega arith;
    }

visual-WellFormed :
    (m : EditorMode) (e : QueryEditor)
    → e.mode ≡ normal
    → ((n : ℕ) → max_col m n ≡ n - 1)
    → WellFormed e
    → WellFormed (record e { visual_anchor = some (cursor e); mode = m })
visual-WellFormed m e n k w = record {
  rowed = record {
    row_in = w.rowed.row_in;
    undo_in = w.rowed.undo_in;
    redo_in = w.rowed.redo_in;
    register_in = w.rowed.register_in;
  };
  col_in =
      rw (k (length (current_line e)))
        (subst (λ m. e.cursor_col ≤ max_col m (length (current_line e))) n w.col_in);
}

-- `a` goes one character on, on a line that has one.
append_col :
    (e : QueryEditor)
    → e.mode ≡ normal
    → WellFormed e
    → (if ltb 0 (length (current_line e)) then e.cursor_col + 1 else e.cursor_col)
      ≤ length (current_line e)
append_col e m w =
    let c : e.cursor_col ≤ length (current_line e) - 1 =
      subst (λ m. e.cursor_col ≤ max_col m (length (current_line e))) m w.col_in in
    elim (Bool-cases (ltb 0 (length (current_line e)))) [
      | inl h ↦ rw h (ground (arith, h, c))
      | inr h ↦ rw h (omega (arith, c))
    ]

toggle_range-WellFormed :
    (r : Option (ℕ × ℕ)) (e : QueryEditor)
    → WellFormed e
    → Found (λ r. leb r.0 e.cursor_row && leb e.cursor_row r.1) r
    → WellFormed (toggle_range r e)
toggle_range-WellFormed none e w f = w
toggle_range-WellFormed (some (start, end)) e w f =
    if_keeps WellFormed (is_folded start e.folded) _ _
      (λ h. record {
        rowed = record {
          row_in = w.rowed.row_in;
          undo_in = w.rowed.undo_in;
          redo_in = w.rowed.redo_in;
          register_in = w.rowed.register_in;
        };
        col_in = w.col_in;
      })
      (λ h. clamp_col-WellFormed _ (record {
        row_in = ground (arith, f, w.rowed.row_in);
        undo_in = w.rowed.undo_in;
        redo_in = w.rowed.redo_in;
        register_in = w.rowed.register_in;
      }))

module _ (alnum : ℕ → Bool) where
  pub complete_operator-WellFormed :
      (op : Operator) (c : Command) (e : QueryEditor)
      → WellFormed e
      → WellFormed (complete_operator alnum op c e)
  unfolding complete_operator
  complete_operator-WellFormed op Command.enter_insert e w =
      pending-WellFormed e.pending_operator (some inner) e w
  complete_operator-WellFormed op Command.append e w =
      pending-WellFormed e.pending_operator (some around) e w
  complete_operator-WellFormed op c e w =
      let f = record e { pending_operator = none } in
      let v = pending-WellFormed none e.pending_scope e w in
      if_keeps WellFormed (repeats alnum op c) _ _ (λ h. doubled-WellFormed alnum op f v)
        (λ h. operator_motion-WellFormed alnum op c f v)

  module _ (toggled : ℕ → ℕ) where
    repeat_action-WellFormed :
        (a : RepeatableAction) (e : QueryEditor)
        → WellFormed e
        → WellFormed (repeat_action alnum toggled a e)
    repeat_action-WellFormed RepeatableAction.deleted_char e w =
        delete_char_under_cursor-WellFormed alnum e w
    repeat_action-WellFormed RepeatableAction.deleted_char_before e w =
        delete_char_before_cursor-WellFormed alnum e w
    repeat_action-WellFormed RepeatableAction.deleted_line e w =
        delete_current_line-WellFormed _ (checkpoint-Rowed alnum e w.rowed)
    repeat_action-WellFormed RepeatableAction.yanked_line e w = yank_current_line-WellFormed e w
    repeat_action-WellFormed RepeatableAction.pasted_after e w = paste-WellFormed alnum false e w
    repeat_action-WellFormed RepeatableAction.pasted_before e w = paste-WellFormed alnum true e w
    repeat_action-WellFormed RepeatableAction.toggled_case e w =
        case_toggled-WellFormed alnum toggled e w
    repeat_action-WellFormed RepeatableAction.joined_lines e w = lines_joined-WellFormed alnum e w
    repeat_action-WellFormed RepeatableAction.indented_line e w = line_indented-WellFormed alnum e w
    repeat_action-WellFormed RepeatableAction.dedented_line e w = line_dedented-WellFormed alnum e w
    repeat_action-WellFormed (RepeatableAction.operator_motion op motion) e w =
        operator_motion-WellFormed alnum op motion e w
    repeat_action-WellFormed (RepeatableAction.text_object op scope c) e w =
        complete_text_object-WellFormed alnum op scope c e w

    repeat_if-WellFormed :
        (a : Option RepeatableAction) (e : QueryEditor)
        → WellFormed e
        → WellFormed (repeat_if alnum toggled a e)
    repeat_if-WellFormed none e w = w
    repeat_if-WellFormed (some a) e w = repeat_action-WellFormed a e w

    pub normal_command-WellFormed :
        (c : Command) (e : QueryEditor)
        → e.mode ≡ normal
        → WellFormed e
        → WellFormed (normal_command alnum toggled c e)
    unfolding normal_command last_repeated fold_toggled
    normal_command-WellFormed Command.enter_insert e m w =
        inserting-WellFormed alnum e.cursor_col e w.rowed (WellFormed-Inside e w).1
    normal_command-WellFormed Command.append e m w =
        inserting-WellFormed alnum _ e w.rowed (append_col e m w)
    normal_command-WellFormed Command.insert_line_start e m w =
        inserting-WellFormed alnum 0 e w.rowed (omega arith)
    normal_command-WellFormed Command.append_line_end e m w =
        inserting-WellFormed alnum _ e w.rowed (omega arith)
    normal_command-WellFormed Command.open_below e m w =
        opened-WellFormed alnum (e.cursor_row + 1) e w.rowed (omega (arith, w.rowed.row_in))
    normal_command-WellFormed Command.open_above e m w =
        opened-WellFormed alnum e.cursor_row e w.rowed (omega (arith, w.rowed.row_in))
    normal_command-WellFormed Command.enter_visual e m w =
        visual-WellFormed visual e m (λ n. refl) w
    normal_command-WellFormed Command.enter_visual_line e m w =
        visual-WellFormed visual_line e m (λ n. refl) w
    normal_command-WellFormed Command.delete_char e m w =
        acted-WellFormed _ _ (delete_char_under_cursor-WellFormed alnum e w)
    normal_command-WellFormed Command.delete_char_before e m w =
        acted-WellFormed _ _ (delete_char_before_cursor-WellFormed alnum e w)
    normal_command-WellFormed Command.paste_after e m w =
        acted-WellFormed _ _ (paste-WellFormed alnum false e w)
    normal_command-WellFormed Command.paste_before e m w =
        acted-WellFormed _ _ (paste-WellFormed alnum true e w)
    normal_command-WellFormed Command.operator_delete e m w =
        pending-WellFormed (some delete) e.pending_scope e w
    normal_command-WellFormed Command.operator_change e m w =
        pending-WellFormed (some change) e.pending_scope e w
    normal_command-WellFormed Command.operator_yank e m w =
        pending-WellFormed (some yank) e.pending_scope e w
    normal_command-WellFormed Command.delete_to_line_end e m w =
        operator_motion-WellFormed alnum delete Command.line_end e w
    normal_command-WellFormed Command.change_to_line_end e m w =
        operator_motion-WellFormed alnum change Command.line_end e w
    normal_command-WellFormed Command.yank_to_line_end e m w =
        operator_motion-WellFormed alnum yank Command.line_end e w
    normal_command-WellFormed Command.toggle_fold e m w =
        toggle_range-WellFormed (range_at_cursor alnum e) e w
          (first_range-Found _ (foldable_ranges alnum e))
    normal_command-WellFormed Command.join_lines e m w =
        acted-WellFormed _ _ (lines_joined-WellFormed alnum e w)
    normal_command-WellFormed Command.toggle_case e m w =
        acted-WellFormed _ _ (case_toggled-WellFormed alnum toggled e w)
    normal_command-WellFormed Command.indent_line e m w =
        acted-WellFormed _ _ (line_indented-WellFormed alnum e w)
    normal_command-WellFormed Command.dedent_line e m w =
        acted-WellFormed _ _ (line_dedented-WellFormed alnum e w)
    normal_command-WellFormed Command.repeat_last e m w = repeat_if-WellFormed e.last_action e w
    normal_command-WellFormed Command.undo e m w = undo_edit-WellFormed e w
    normal_command-WellFormed Command.redo e m w = redo_edit-WellFormed e w
    normal_command-WellFormed _ e m w = w
