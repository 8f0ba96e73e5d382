-- ===== src/Workbench/Editor/WellFormed/Handled.antt =====
-- The keys of Normal and Visual mode (Workbench/Editor/Keys) keep the cursor in the buffer.
use tradar.Base.{ap, ℕ, Bool, true, false, Option, none, some, ◌≡◌, refl}
use tradar.Workbench.Editor.{
  QueryEditor, EditorMode, normal, insert, visual, visual_line, Operator, Scope, Command,
}
use tradar.Workbench.Editor.Keys.{
  Resolution, command, pending, unbound, or_else, plain_command, operator_command,
  handle_normal_key, visual_command, handle_visual_key, InsertKey, escape, visual_key, key_in,
  forward_key,
}
use tradar.Workbench.Editor.WellFormed.{WellFormed}
use tradar.Workbench.Editor.WellFormed.Moved.{Moves, apply_motion_command-Moves}
use tradar.Workbench.Editor.WellFormed.Selected.{
  Anchored, exit_visual-WellFormed, selection_yanked-WellFormed, selection_deleted-WellFormed,
}
use tradar.Workbench.Editor.WellFormed.Inserted.{handle_insert_key-WellFormed}
use tradar.Workbench.Editor.WellFormed.Operated.{complete_text_object-WellFormed}
use tradar.Workbench.Editor.WellFormed.Calm.{is_visual}
use tradar.Workbench.Editor.WellFormed.Selecting.{Selecting, forward_key-Selecting}
use tradar.Workbench.Editor.WellFormed.Commanded.{
  pending-WellFormed, complete_operator-WellFormed, normal_command-WellFormed,
}

module _ (alnum : ℕ → Bool) (toggled : ℕ → ℕ) where
  or_else-WellFormed :
      (e f : QueryEditor) (moved : Option QueryEditor)
      → Moves e moved
      → WellFormed f
      → WellFormed (or_else alnum toggled moved f)
  or_else-WellFormed e f none m v = v
  or_else-WellFormed e f (some g) m v = m.1

  operator_command-WellFormed :
      (scope : Option Scope) (op : Option Operator) (c : Command) (e : QueryEditor)
      → e.mode ≡ normal
      → WellFormed e
      → WellFormed (operator_command alnum toggled scope op c e)
  unfolding operator_command plain_command
  operator_command-WellFormed (some scope) (some op) c e m w =
      complete_text_object-WellFormed alnum op scope c _ (pending-WellFormed none none e w)
  operator_command-WellFormed (some scope) none c e m w = w
  operator_command-WellFormed none (some op) c e m w = complete_operator-WellFormed alnum op c e w
  operator_command-WellFormed none none c e m w =
      or_else-WellFormed e _ _ (apply_motion_command-Moves alnum c e w)
        (normal_command-WellFormed alnum toggled c e m w)

  -- A key of Normal mode, whatever the key map makes of it and whatever operator, scope or edit to
  -- repeat is pending, leaves a well-formed editor well-formed: the cursor on a character of a line
  -- of the buffer, or one behind the last where text is to be inserted.
  handle_normal_key-WellFormed :
      (r : Resolution) (e : QueryEditor)
      → e.mode ≡ normal
      → WellFormed e
      → WellFormed (handle_normal_key alnum toggled r e)
  unfolding handle_normal_key
  handle_normal_key-WellFormed (command c) e m w =
      operator_command-WellFormed e.pending_scope e.pending_operator c e m w
  handle_normal_key-WellFormed pending e m w = pending-WellFormed none none e w
  handle_normal_key-WellFormed unbound e m w = pending-WellFormed none none e w

  visual_command-WellFormed :
      (c : Command) (e : QueryEditor)
      → WellFormed e
      → Anchored e
      → WellFormed (visual_command alnum toggled c e)
  visual_command-WellFormed Command.yank_selection e w a =
      selection_yanked-WellFormed e w.rowed w.rowed.row_in a
  visual_command-WellFormed Command.delete_selection e w a =
      selection_deleted-WellFormed alnum false e w.rowed w.rowed.row_in a
  visual_command-WellFormed Command.change_selection e w a =
      selection_deleted-WellFormed alnum true e w.rowed w.rowed.row_in a
  visual_command-WellFormed _ e w a = w

  -- A key of Visual mode leaves a well-formed editor well-formed, if the other end of the selection
  -- is in the buffer.
  handle_visual_key-WellFormed :
      (r : Resolution) (e : QueryEditor)
      → WellFormed e
      → Anchored e
      → WellFormed (handle_visual_key alnum toggled r e)
  unfolding handle_visual_key
  handle_visual_key-WellFormed (command c) e w a =
      or_else-WellFormed e _ _ (apply_motion_command-Moves alnum c e w)
        (visual_command-WellFormed c e w a)
  handle_visual_key-WellFormed pending e w a = w
  handle_visual_key-WellFormed unbound e w a = w

  visual_key-WellFormed :
      (r : Resolution) (k : InsertKey) (e : QueryEditor)
      → WellFormed e
      → Anchored e
      → WellFormed (visual_key alnum toggled r k e)
  visual_key-WellFormed r escape e w a = exit_visual-WellFormed e w.rowed
  visual_key-WellFormed r _ e w a = handle_visual_key-WellFormed r e w a

  key_in-WellFormed :
      (m : EditorMode) (r : Resolution) (k : InsertKey) (e : QueryEditor)
      → e.mode ≡ m
      → WellFormed e
      → Selecting e
      → WellFormed (key_in alnum toggled m r k e)
  key_in-WellFormed normal r k e m w s = handle_normal_key-WellFormed r e m w
  key_in-WellFormed insert r k e m w s = handle_insert_key-WellFormed alnum toggled k e m w
  key_in-WellFormed visual r k e m w s = visual_key-WellFormed r k e w (s (ap is_visual m))
  key_in-WellFormed visual_line r k e m w s = visual_key-WellFormed r k e w (s (ap is_visual m))

  -- A key, in every mode, whatever the key map makes of it and whatever operator, scope or edit to
  -- repeat is pending, leaves a sound editor sound: the cursor is in a line of the buffer, on a
  -- character, or one behind the last while text is inserted; every state to undo or redo to, and a
  -- register of lines, has a line; and the other end of what is selected is in the buffer.
  pub forward_key-Sound :
      (r : Resolution) (k : InsertKey) (e : QueryEditor)
      → WellFormed e × Selecting e
      → WellFormed (forward_key alnum toggled r k e) × Selecting (forward_key alnum toggled r k e)
  unfolding forward_key
  forward_key-Sound r k e (w, s) =
      (key_in-WellFormed e.mode r k e refl w s, forward_key-Selecting alnum toggled r k e w s)
