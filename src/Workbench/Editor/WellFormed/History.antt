-- ===== src/Workbench/Editor/WellFormed/History.antt =====
-- The history of the editor (Workbench/Editor): what `undo_edit` and `redo_edit` bring back.
use tradar.Base.{
  ℕ, ◌≡◌, ◌≢◌, ◌≤◌, ◌-◌, inl, inr, refl, ◌∙◌, arith, Bool, ltb, Bool-cases, List, [], ◌∷◌, length,
  min,
}
use tradar.Workbench.Editor.{
  Snapshot, QueryEditor, clamp_col, snapshot, recorded, drop_oldest, max_undo_history, checkpoint,
  restore, undo_edit, redo_edit, undone,
}
use tradar.Workbench.Editor.WellFormed.{WellFormed}

-- The newest entry survives the limit.
recorded-newest :
    (s : Snapshot) (stack : List Snapshot) → (rest : List Snapshot) × (recorded s stack ≡ s ∷ rest)
recorded-newest s [] = ([], refl)
recorded-newest s (t ∷ stack) = elim (Bool-cases (ltb max_undo_history (length (s ∷ t ∷ stack)))) [
  | inl h ↦ (drop_oldest (t ∷ stack), rw h refl)
  | inr h ↦ (t ∷ stack, rw h refl)
]

min-below : {m n : ℕ} → m ≤ n → min m n ≡ m
min-below h = omega arith

-- Restoring the snapshot of a well-formed editor, in its mode, brings its buffer and cursor back.
restore-snapshot :
    (e f : QueryEditor)
    → WellFormed e
    → f.mode ≡ e.mode
    → snapshot (restore (snapshot e) f) ≡ snapshot e
unfolding restore clamp_col
restore-snapshot e f w m =
    let row : e.cursor_row ≤ length e.lines - 1 = omega (arith, w.rowed.row_in) in
    rw (m, min-below row, min-below w.col_in) refl

undo_edit-top :
    (s : Snapshot) (rest : List Snapshot) (f : QueryEditor)
    → f.undo_stack ≡ s ∷ rest
    → snapshot (undo_edit f) ≡ snapshot (restore s f)
unfolding undo_edit restore clamp_col
undo_edit-top s rest f h = simp (h)

redo_edit-top :
    (s : Snapshot) (rest : List Snapshot) (f : QueryEditor)
    → f.redo_stack ≡ s ∷ rest
    → snapshot (redo_edit f) ≡ snapshot (restore s f)
unfolding redo_edit restore clamp_col
redo_edit-top s rest f h = simp (h)

-- Undoing in the mode in which the checkpoint was taken, with no other checkpoint since, brings back
-- the lines and the cursor that a well-formed editor had there, whatever the edit has done.
pub undo_edit-checkpoint :
    (alnum : ℕ → Bool) (e f : QueryEditor)
    → WellFormed e
    → f.mode ≡ e.mode
    → f.undo_stack ≡ (checkpoint alnum e).undo_stack
    → snapshot (undo_edit f) ≡ snapshot e
unfolding checkpoint
undo_edit-checkpoint alnum e f w m h =
    let (rest, newest) = recorded-newest (snapshot e) e.undo_stack in
    undo_edit-top (snapshot e) rest f (h ∙ newest) ∙ restore-snapshot e f w m

undone-redo_stack :
    (stack : List Snapshot) (f : QueryEditor)
    → stack ≢ []
    → ((undone stack f).redo_stack ≡ snapshot f ∷ f.redo_stack) × ((undone stack f).mode ≡ f.mode)
unfolding restore clamp_col
undone-redo_stack [] f n = absurd (n refl)
undone-redo_stack (s ∷ rest) f n = (refl, refl)

-- Redoing right after an undo brings back the lines and the cursor of a well-formed editor.
pub redo_edit-undo_edit :
    (f : QueryEditor)
    → WellFormed f
    → f.undo_stack ≢ []
    → snapshot (redo_edit (undo_edit f)) ≡ snapshot f
unfolding undo_edit
redo_edit-undo_edit f w n =
    let (r, m) = undone-redo_stack f.undo_stack f n in
    redo_edit-top (snapshot f) f.redo_stack (undo_edit f) r ∙ restore-snapshot f (undo_edit f) w m
