-- ===== src/Workbench/Editor/WellFormed/Calm.antt =====
-- No command of the editor (Workbench/Editor/Keys) selects, but those that enter Visual mode.
use tradar.Base.{
  ℕ, Bool, true, false, List, [], ◌∷◌, Option, none, some, ◌≡◌, refl, ap, ◌∙◌, ltb, ◌==◌, length,
  Text, split,
}
use tradar.Workbench.Editor.{
  Snapshot, QueryEditor, Operator, delete, change, yank, Scope, Command, RepeatableAction, Register,
  charwise, linewise, checkpoint, undone, redone, restore, clamp_col, toggle_range, is_folded,
}
pub use tradar.Workbench.Editor.{is_visual}
use tradar.Workbench.Editor.Edits.{
  insert_char, insert_chars, break_line, insert_pieces, first_piece, insert_multiline, pasted,
  paste_from, delete_current_line, yank_current_line, change_current_line,
}
use tradar.Workbench.Editor.Motions.{Pos, cursor}
use tradar.Workbench.Editor.Operators.{
  selection_deleted, selection_yanked, exit_visual, operate, over_motion, operator_motion,
  is_operator_motion, pos_eq, ordered, is_word_forward, complete_text_object, doubled,
}
use tradar.Workbench.Editor.WellFormed.{WellFormed, if_keeps}
use tradar.Workbench.Editor.WellFormed.Moved.{Moves, apply_motion_command-Moves}

-- Nothing is selected.
abbrev pub Calm : QueryEditor → Type 0
Calm e = is_visual e.mode ≡ false

insert_chars-mode : (s : Text) (e : QueryEditor) → (insert_chars s e).mode ≡ e.mode
unfolding insert_chars insert_char
insert_chars-mode [] e = refl
insert_chars-mode (c ∷ s) e = insert_chars-mode s (insert_char c e)

insert_pieces-mode : (ps : List Text) (e : QueryEditor) → (insert_pieces ps e).mode ≡ e.mode
unfolding break_line
insert_pieces-mode [] e = refl
insert_pieces-mode (p ∷ ps) e =
    insert_pieces-mode ps (insert_chars p (break_line e)) ∙ insert_chars-mode p (break_line e)

first_piece-mode : (ps : List Text) (e : QueryEditor) → (first_piece ps e).mode ≡ e.mode
first_piece-mode [] e = refl
first_piece-mode (p ∷ ps) e = insert_pieces-mode ps (insert_chars p e) ∙ insert_chars-mode p e

pasted-mode : (before : Bool) (r : Register) (e : QueryEditor) → (pasted before r e).mode ≡ e.mode
unfolding insert_multiline
pasted-mode before (linewise ls) e = refl
pasted-mode before (charwise s) e = first_piece-mode (split (λ c. c == b'\n') s) _

pub undone-Calm : (stack : List Snapshot) (e : QueryEditor) → Calm e → Calm (undone stack e)
unfolding restore clamp_col
undone-Calm [] e c = c
undone-Calm (s ∷ stack) e c = c

pub redone-Calm : (stack : List Snapshot) (e : QueryEditor) → Calm e → Calm (redone stack e)
unfolding restore clamp_col
redone-Calm [] e c = c
redone-Calm (s ∷ stack) e c = c

pub toggle_range-Calm : (r : Option (ℕ × ℕ)) (e : QueryEditor) → Calm e → Calm (toggle_range r e)
unfolding clamp_col
toggle_range-Calm none e c = c
toggle_range-Calm (some (start, end)) e c =
    if_keeps Calm (is_folded start e.folded) _ _ (λ h. c) (λ h. c)

pub selection_yanked-Calm : (e : QueryEditor) → Calm (selection_yanked e)
unfolding selection_yanked exit_visual clamp_col
selection_yanked-Calm e = refl

module _ (alnum : ℕ → Bool) where
  pub selection_deleted-Calm :
      (enter : Bool) (e : QueryEditor) → Calm (selection_deleted alnum enter e)
  unfolding selection_deleted clamp_col
  selection_deleted-Calm true e = refl
  selection_deleted-Calm false e = refl

  pub paste_from-Calm :
      (before : Bool) (r : Option Register) (e : QueryEditor)
      → Calm e
      → Calm (paste_from alnum before r e)
  unfolding clamp_col checkpoint
  paste_from-Calm before none e c = c
  paste_from-Calm before (some r) e c = ap is_visual (pasted-mode before r (checkpoint alnum e)) ∙ c

  operate-Calm :
      (op : Operator) (action : RepeatableAction) (lo hi : Pos) (e : QueryEditor)
      → Calm (operate alnum op action lo hi e)
  operate-Calm delete action lo hi e = selection_deleted-Calm false _
  operate-Calm change action lo hi e = selection_deleted-Calm true _
  operate-Calm yank action lo hi e = selection_yanked-Calm _

  over_motion-Calm :
      (op : Operator) (motion : Command) (moved : Option QueryEditor) (e : QueryEditor)
      → Moves e moved
      → Calm e
      → Calm (over_motion alnum op motion moved e)
  over_motion-Calm op motion none e m c = c
  over_motion-Calm op motion (some f) e (same, w) c =
      if_keeps Calm (pos_eq (ordered (cursor e) (cursor f)).0 (ordered (cursor e) (cursor f)).1) _ _
        (λ h. ap (λ f. is_visual f.mode) same ∙ c) (λ h. operate-Calm op _ _ _ f)

  pub operator_motion-Calm :
      (op : Operator) (motion : Command) (e : QueryEditor)
      → WellFormed e
      → Calm e
      → Calm (operator_motion alnum op motion e)
  unfolding operator_motion
  operator_motion-Calm op motion e w c =
      if_keeps Calm (is_operator_motion alnum motion) _ e
        (λ h. over_motion-Calm op motion _ e (apply_motion_command-Moves alnum motion e w) c)
        (λ h. c)

  pub complete_text_object-Calm :
      (op : Operator) (scope : Scope) (k : Command) (e : QueryEditor)
      → Calm e
      → Calm (complete_text_object alnum op scope k e)
  unfolding complete_text_object
  complete_text_object-Calm op scope k e c =
      if_keeps Calm (is_word_forward alnum k) _ e (λ h. operate-Calm op _ _ _ e) (λ h. c)

  pub delete_current_line-Calm : (e : QueryEditor) → Calm e → Calm (delete_current_line e)
  unfolding delete_current_line clamp_col
  delete_current_line-Calm e c = if_keeps Calm (ltb 1 (length e.lines)) _ _ (λ h. c) (λ h. c)

  pub doubled-Calm : (op : Operator) (e : QueryEditor) → Calm e → Calm (doubled alnum op e)
  unfolding change_current_line yank_current_line checkpoint
  doubled-Calm delete e c = delete_current_line-Calm (checkpoint alnum e) c
  doubled-Calm change e c = refl
  doubled-Calm yank e c = c
