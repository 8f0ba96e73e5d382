-- ===== src/Workbench/Editor/WellFormed.antt =====
-- The cursor of the editor is always on a character of the buffer, or one behind the last of a line
-- while text is inserted.
pub mod Edited
pub mod Pasted
pub mod Moved
pub mod Selected
pub mod Operated
pub mod Commanded
pub mod Handled
pub mod Calm
pub mod Selecting
pub mod Called
pub mod Substituted
pub mod Reached
pub mod Typed
pub mod Inserted
pub mod History
use tradar.Base.{
  ℕ, zero, suc, ◌+◌, ◌-◌, ◌≤◌, ◌<◌, Bool, true, false, List, [], ◌∷◌, Option, none, some, ◌≡◌, ◌⊎◌,
  refl, sym, ap, ◌∙◌, inl, inr, arith, ltb, leb, if◌then◌else◌, Bool-cases, length, remove_at,
  insert_at, set_at, min, All, Text,
}
use tradar.Workbench.Editor.{
  Register, charwise, linewise, Snapshot, QueryEditor, EditorMode, line_at, current_line, max_col,
  clamp_col, recorded, drop_oldest, checkpoint, restore, undo_edit, redo_edit, undone, redone,
  max_undo_history,
}

abbrev pub HasLine : Snapshot → Type 0
HasLine s = 0 < length s.lines

-- A register of lines has one.
abbrev pub Filled : Option Register → Type 0
Filled none = Unit
Filled (some (charwise s)) = Unit
Filled (some (linewise ls)) = 0 < length ls

-- The cursor is in a line, and there is a line in what can be restored and in what was yanked as lines.
pub record Rowed (e : QueryEditor) : Type 0 where
  pub row_in : e.cursor_row < length e.lines
  pub undo_in : All HasLine e.undo_stack
  pub redo_in : All HasLine e.redo_stack
  pub register_in : Filled e.register

pub record WellFormed (e : QueryEditor) : Type 0 where
  pub rowed : Rowed e
  pub col_in : e.cursor_col ≤ max_col e.mode (length (current_line e))

-- Whichever branch is taken.
pub if_keeps :
    (P : QueryEditor → Type 0) (b : Bool) (e f : QueryEditor)
    → (b ≡ true → P e)
    → (b ≡ false → P f)
    → P (if b then e else f)
if_keeps P true e f p q = p refl
if_keeps P false e f p q = q refl

pub clamp_col-WellFormed : (e : QueryEditor) → Rowed e → WellFormed (clamp_col e)
unfolding clamp_col
clamp_col-WellFormed e r = record {
  rowed = record {
    row_in = r.row_in;
    undo_in = r.undo_in;
    redo_in = r.redo_in;
    register_in = r.register_in;
  };
  col_in = omega arith;
}

module _ {A : Type 0} where
  pub length-set_at : (i : ℕ) (a : A) (xs : List A) → length (set_at i a xs) ≡ length xs
  length-set_at i a [] = refl
  length-set_at zero a (x ∷ xs) = refl
  length-set_at (suc i) a (x ∷ xs) = ap suc (length-set_at i a xs)

  pub length-insert_at : (i : ℕ) (a : A) (xs : List A) → length (insert_at i a xs) ≡ suc (length xs)
  length-insert_at zero a xs = refl
  length-insert_at (suc i) a [] = refl
  length-insert_at (suc i) a (x ∷ xs) = ap suc (length-insert_at i a xs)

  pub length-remove_at :
      (i : ℕ) (xs : List A) → i < length xs → suc (length (remove_at i xs)) ≡ length xs
  length-remove_at i [] h = absurd (omega arith)
  length-remove_at zero (x ∷ xs) h = refl
  length-remove_at (suc i) (x ∷ xs) h = ap suc (length-remove_at i xs (omega arith))

pub line_at-set_at :
    (i : ℕ) (l : Text) (ls : List Text) → i < length ls → line_at i (set_at i l ls) ≡ l
line_at-set_at i l [] h = absurd (omega arith)
line_at-set_at zero l (x ∷ ls) h = refl
line_at-set_at (suc i) l (x ∷ ls) h = line_at-set_at i l ls (omega arith)

drop_oldest-All : (stack : List Snapshot) → All HasLine stack → All HasLine (drop_oldest stack)
drop_oldest-All [] a = tt
drop_oldest-All (s ∷ []) a = tt
drop_oldest-All (s ∷ t ∷ stack) a = (a.0, drop_oldest-All (t ∷ stack) a.1)

recorded-All :
    (s : Snapshot) (stack : List Snapshot)
    → HasLine s
    → All HasLine stack
    → All HasLine (recorded s stack)
recorded-All s stack h a = elim (Bool-cases (ltb max_undo_history (length (s ∷ stack)))) [
  | inl e ↦ rw e (drop_oldest-All (s ∷ stack) (h, a))
  | inr e ↦ rw e (h, a)
]

pub checkpoint-Rowed : (alnum : ℕ → Bool) (e : QueryEditor) → Rowed e → Rowed (checkpoint alnum e)
unfolding checkpoint
checkpoint-Rowed alnum e r = record {
  row_in = r.row_in;
  undo_in = recorded-All _ e.undo_stack (omega (arith, r.row_in)) r.undo_in;
  redo_in = tt;
  register_in = r.register_in;
}

restore-WellFormed :
    (s : Snapshot) (e : QueryEditor)
    → HasLine s
    → All HasLine e.undo_stack
    → All HasLine e.redo_stack
    → Filled e.register
    → WellFormed (restore s e)
unfolding restore
restore-WellFormed s e h u r g =
    clamp_col-WellFormed _
      (record { row_in = omega arith; undo_in = u; redo_in = r; register_in = g })

undone-WellFormed :
    (stack : List Snapshot) (e : QueryEditor)
    → All HasLine stack
    → WellFormed e
    → WellFormed (undone stack e)
undone-WellFormed [] e a w = w
undone-WellFormed (s ∷ stack) e a w =
    restore-WellFormed s (record e { undo_stack = stack; redo_stack = _ }) a.0 a.1
      (omega (arith, w.rowed.row_in), w.rowed.redo_in) w.rowed.register_in

pub undo_edit-WellFormed : (e : QueryEditor) → WellFormed e → WellFormed (undo_edit e)
unfolding undo_edit
undo_edit-WellFormed e w = undone-WellFormed e.undo_stack e w.rowed.undo_in w

redone-WellFormed :
    (stack : List Snapshot) (e : QueryEditor)
    → All HasLine stack
    → WellFormed e
    → WellFormed (redone stack e)
redone-WellFormed [] e a w = w
redone-WellFormed (s ∷ stack) e a w =
    restore-WellFormed s (record e { redo_stack = stack; undo_stack = _ }) a.0
      (omega (arith, w.rowed.row_in), w.rowed.undo_in) a.1 w.rowed.register_in

pub redo_edit-WellFormed : (e : QueryEditor) → WellFormed e → WellFormed (redo_edit e)
unfolding redo_edit
redo_edit-WellFormed e w = redone-WellFormed e.redo_stack e w.rowed.redo_in w
