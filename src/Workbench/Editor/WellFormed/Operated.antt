-- ===== src/Workbench/Editor/WellFormed/Operated.antt =====
-- Operators, and the repetition of the last edit (Workbench/Editor/Operators), keep the cursor in the
-- buffer.
use tradar.Base.{
  ℕ, Bool, true, false, List, Option, none, some, sym, inl, inr, Bool-cases, Text, subst,
}
use tradar.Workbench.Editor.{
  QueryEditor, Operator, delete, change, yank, Scope, inner, around, Command, RepeatableAction,
}
use tradar.Workbench.Editor.Motions.{Pos, space, next_pos, prev_pos, size, cursor, at_pos}
use tradar.Workbench.Editor.Motions.Loops.{Inside}
use tradar.Workbench.Editor.Motions.Enough.{run_start-Inside, run_end-Inside}
use tradar.Workbench.Editor.Operators.{
  ordered, pos_eq, motion_is_exclusive, is_operator_motion, operate, over, over_motion,
  operator_motion, spaced, widened, word_text_object, is_word_forward, complete_text_object,
  doubled,
}
use tradar.Workbench.Editor.WellFormed.{Rowed, WellFormed, if_keeps, checkpoint-Rowed}
use tradar.Workbench.Editor.WellFormed.Pasted.{
  delete_current_line-WellFormed, yank_current_line-WellFormed, change_current_line-WellFormed,
}
use tradar.Workbench.Editor.WellFormed.Moved.{
  WellFormed-Inside, or_here-Inside, next_pos-Inside, prev_pos-Inside, Moves,
  apply_motion_command-Moves,
}
use tradar.Workbench.Editor.WellFormed.Selected.{
  ordered-keeps, selection_yanked-WellFormed, selection_deleted-WellFormed,
}

pub acted-WellFormed :
    (action : Option RepeatableAction) (e : QueryEditor)
    → WellFormed e
    → WellFormed (record e { last_action = action })
acted-WellFormed action e w = record {
  rowed = record {
    row_in = w.rowed.row_in;
    undo_in = w.rowed.undo_in;
    redo_in = w.rowed.redo_in;
    register_in = w.rowed.register_in;
  };
  col_in = w.col_in;
}

selecting-Rowed :
    (lo hi : Pos) (e : QueryEditor)
    → WellFormed e
    → Inside e.lines hi
    → Rowed (at_pos hi (record e { visual_anchor = some lo }))
selecting-Rowed lo hi e w i = record {
  row_in = i.0;
  undo_in = w.rowed.undo_in;
  redo_in = w.rowed.redo_in;
  register_in = w.rowed.register_in;
}

module _ (alnum : ℕ → Bool) where
  operate-WellFormed :
      (op : Operator) (action : RepeatableAction) (lo hi : Pos) (e : QueryEditor)
      → WellFormed e
      → Inside e.lines lo
      → Inside e.lines hi
      → WellFormed (operate alnum op action lo hi e)
  operate-WellFormed delete action lo hi e w i j = acted-WellFormed (some action) _ (
      selection_deleted-WellFormed alnum false (at_pos hi (record e { visual_anchor = some lo }))
        (selecting-Rowed lo hi e w j) j.0 i.0)
  operate-WellFormed change action lo hi e w i j =
      selection_deleted-WellFormed alnum true (at_pos hi (record e { visual_anchor = some lo }))
        (selecting-Rowed lo hi e w j) j.0 i.0
  operate-WellFormed yank action lo hi e w i j = acted-WellFormed (some action) _ (
      selection_yanked-WellFormed (at_pos hi (record e { visual_anchor = some lo }))
        (selecting-Rowed lo hi e w j) j.0 i.0)

  over-WellFormed :
      (op : Operator) (motion : Command) (lo hi : Pos) (e : QueryEditor)
      → WellFormed e
      → Inside e.lines lo
      → Inside e.lines hi
      → WellFormed (over alnum op motion lo hi e)
  over-WellFormed op motion lo hi e w i j = elim (Bool-cases (motion_is_exclusive alnum motion)) [
    | inl h ↦ simp h (
        operate-WellFormed op _ lo _ e w i
          (or_here-Inside e.lines lo (prev_pos e.lines hi) i (prev_pos-Inside e.lines hi j)))
    | inr h ↦ simp h (operate-WellFormed op _ lo hi e w i j)
  ]

  moved_to-WellFormed :
      (op : Operator) (motion : Command) (pos : Pos) (e : QueryEditor)
      → WellFormed e
      → WellFormed (at_pos pos e)
      → WellFormed (over_motion alnum op motion (some (at_pos pos e)) e)
  moved_to-WellFormed op motion pos e w v =
      let (lo, hi) =
        ordered-keeps (Inside e.lines) (cursor e) pos (WellFormed-Inside e w)
          (WellFormed-Inside (at_pos pos e) v) in
      if_keeps WellFormed (pos_eq (ordered (cursor e) pos).0 (ordered (cursor e) pos).1) _ _
        (λ h. w) (λ h. over-WellFormed op motion _ _ (at_pos pos e) v lo hi)

  over_motion-WellFormed :
      (op : Operator) (motion : Command) (moved : Option QueryEditor) (e : QueryEditor)
      → WellFormed e
      → Moves e moved
      → WellFormed (over_motion alnum op motion moved e)
  over_motion-WellFormed op motion none e w m = w
  over_motion-WellFormed op motion (some f) e w (same, v) =
      subst (λ f. WellFormed (over_motion alnum op motion (some f) e)) (sym same)
        (moved_to-WellFormed op motion (cursor f) e w (subst WellFormed same v))

  pub operator_motion-WellFormed :
      (op : Operator) (motion : Command) (e : QueryEditor)
      → WellFormed e
      → WellFormed (operator_motion alnum op motion e)
  unfolding operator_motion
  operator_motion-WellFormed op motion e w =
      if_keeps WellFormed (is_operator_motion alnum motion) _ e
        (λ h. over_motion-WellFormed op motion _ e w (apply_motion_command-Moves alnum motion e w))
        (λ h. w)

  widened-Inside :
      (fuel : ℕ) (lines : List Text) (lo hi : Pos)
      → Inside lines lo
      → Inside lines hi
      → Inside lines (widened alnum fuel lines lo hi).0
        × Inside lines (widened alnum fuel lines lo hi).1
  widened-Inside fuel lines lo hi i j = elim (Bool-cases (spaced alnum lines (next_pos lines hi))) [
    | inl h ↦ rw h (
      i,
      run_end-Inside alnum lines space fuel _
          (or_here-Inside lines hi (next_pos lines hi) j (next_pos-Inside lines hi j)),
    )
    | inr h ↦ elim (Bool-cases (spaced alnum lines (prev_pos lines lo))) [
      | inl g ↦
          rw (h, g)
            (
              run_start-Inside alnum lines space fuel _
                  (or_here-Inside lines lo (prev_pos lines lo) i (prev_pos-Inside lines lo i)),
              j,
            )
      | inr g ↦ rw (h, g) (i, j)
    ]
  ]

  word_text_object-Inside :
      (scope : Scope) (e : QueryEditor)
      → Inside e.lines (cursor e)
      → Inside e.lines (word_text_object alnum scope e).0
        × Inside e.lines (word_text_object alnum scope e).1
  unfolding word_text_object
  word_text_object-Inside inner e i = (
    run_start-Inside alnum e.lines _ _ (cursor e) i,
    run_end-Inside alnum e.lines _ _ (cursor e) i,
  )
  word_text_object-Inside around e i =
      widened-Inside (size e.lines) e.lines _ _ (run_start-Inside alnum e.lines _ _ (cursor e) i)
        (run_end-Inside alnum e.lines _ _ (cursor e) i)

  pub complete_text_object-WellFormed :
      (op : Operator) (scope : Scope) (c : Command) (e : QueryEditor)
      → WellFormed e
      → WellFormed (complete_text_object alnum op scope c e)
  unfolding complete_text_object
  complete_text_object-WellFormed op scope c e w =
      let (lo, hi) = word_text_object-Inside scope e (WellFormed-Inside e w) in
      if_keeps WellFormed (is_word_forward alnum c) _ e (λ h. operate-WellFormed op _ _ _ e w lo hi)
        (λ h. w)

  pub doubled-WellFormed :
      (op : Operator) (e : QueryEditor) → WellFormed e → WellFormed (doubled alnum op e)
  doubled-WellFormed delete e w =
      acted-WellFormed _ _ (delete_current_line-WellFormed _ (checkpoint-Rowed alnum e w.rowed))
  doubled-WellFormed change e w =
      change_current_line-WellFormed _ (checkpoint-Rowed alnum e w.rowed)
  doubled-WellFormed yank e w = acted-WellFormed _ _ (yank_current_line-WellFormed e w)
