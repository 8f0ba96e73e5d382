-- ===== src/Workbench/Editor/WellFormed/Moved.antt =====
-- The motions (Workbench/Editor/Motions) change nothing but the cursor, which they keep in the buffer.
use tradar.Base.{
  ℕ, ◌-◌, ◌≤◌, ◌<◌, Bool, true, false, ◌&&◌, List, [], ◌∷◌, Option, none, some, ◌≡◌, refl, inl, inr,
  arith, ltb, leb, if◌then◌else◌, Bool-cases, length, min, Text,
}
use tradar.Workbench.Editor.{
  QueryEditor, Command, vim_move, move_left, move_right, line_start, line_end, word_forward,
  word_back, word_end, current_line, max_col, clamp_col, first_range, fold_containing, past_fold,
  move_row_to, foldable_ranges, is_folded,
}
use tradar.Workbench.Editor.Motions.{
  Pos, space, next_pos, prev_pos, size, class_at, cursor, at_pos, or_here, backward_from,
  move_word_forward, move_word_backward, move_word_end, apply_motion_command,
}
use tradar.Workbench.Editor.Motions.Loops.{
  Inside, Reaches, Closer, next_pos-Closer, prev_pos-Closer,
}
use tradar.Workbench.Editor.Motions.Enough.{
  advance_while-Inside, retreat_while-Inside, run_start-Inside, run_end-Inside,
}
use tradar.Workbench.Editor.WellFormed.{Rowed, WellFormed, clamp_col-WellFormed}
use tradar.Workbench.Editor.WellFormed.Edited.{max_col-le, max_col-ge}

pub WellFormed-Inside : (e : QueryEditor) → WellFormed e → Inside e.lines (cursor e)
WellFormed-Inside e w =
    (w.rowed.row_in, omega (arith, w.col_in, max_col-le e.mode (length (current_line e))))

-- A cursor in the buffer, put on a character.
pub at_pos-Rowed :
    (pos : Pos) (e : QueryEditor) → pos.0 < length e.lines → Rowed e → Rowed (at_pos pos e)
at_pos-Rowed pos e i r = record {
  row_in = i;
  undo_in = r.undo_in;
  redo_in = r.redo_in;
  register_in = r.register_in;
}

pub or_here-Inside :
    (lines : List Text) (pos : Pos) (next : Option Pos)
    → Inside lines pos
    → Reaches (Inside lines) next
    → Inside lines (or_here pos next)
or_here-Inside lines pos none i j = i
or_here-Inside lines pos (some next) i j = j

Closer-Inside :
    (lines : List Text) (rank : Pos → ℕ) (pos : Pos) (next : Option Pos)
    → Reaches (Closer lines rank pos) next
    → Reaches (Inside lines) next
Closer-Inside lines rank pos none c = tt
Closer-Inside lines rank pos (some next) c = c.0

pub next_pos-Inside :
    (lines : List Text) (pos : Pos) → Inside lines pos → Reaches (Inside lines) (next_pos lines pos)
next_pos-Inside lines pos i = Closer-Inside lines _ pos _ (next_pos-Closer lines pos i)

pub prev_pos-Inside :
    (lines : List Text) (pos : Pos) → Inside lines pos → Reaches (Inside lines) (prev_pos lines pos)
prev_pos-Inside lines pos i = Closer-Inside lines _ pos _ (prev_pos-Closer lines pos i)

abbrev pub Found : (ℕ × ℕ → Bool) → Option (ℕ × ℕ) → Type 0
Found p none = Unit
Found p (some r) = p r ≡ true

pub first_range-Found : (p : ℕ × ℕ → Bool) (rs : List (ℕ × ℕ)) → Found p (first_range p rs)
first_range-Found p [] = tt
first_range-Found p (r ∷ rs) = elim (Bool-cases (p r)) [
  | inl h ↦ rw h h
  | inr h ↦ rw h (first_range-Found p rs)
]

past_fold-inside :
    (target : ℕ) (folded : List ℕ) (fold : Option (ℕ × ℕ)) (e : QueryEditor)
    → target < length e.lines
    → Found (λ r. is_folded r.0 folded && (ltb r.0 target && leb target r.1)) fold
    → past_fold target fold e < length e.lines
past_fold-inside target folded none e h f = h
past_fold-inside target folded (some (start, end)) e h f =
    elim (Bool-cases (leb e.cursor_row target)) [
      | inl g ↦ rw g (omega (arith, h))
      | inr g ↦ rw g (ground (arith, h, f))
    ]

pub move_row_to-Rowed :
    (alnum : ℕ → Bool) (row : ℕ) (e : QueryEditor) → Rowed e → WellFormed (move_row_to alnum row e)
unfolding move_row_to fold_containing
move_row_to-Rowed alnum row e r =
    let target = min row (length e.lines - 1) in
    clamp_col-WellFormed _ (record {
      row_in =
          past_fold-inside target e.folded (fold_containing alnum target e) e
            (omega (arith, r.row_in)) (first_range-Found _ (foldable_ranges alnum e));
      undo_in = r.undo_in;
      redo_in = r.redo_in;
      register_in = r.register_in;
    })

-- What a motion makes of an editor, if there is one.
abbrev pub Moves : QueryEditor → Option QueryEditor → Type 0
Moves e none = Unit
Moves e (some f) = (f ≡ at_pos (cursor f) e) × WellFormed f

clamped-Moves :
    (pos : Pos) (e : QueryEditor)
    → WellFormed e
    → Inside e.lines pos
    → Moves e (some (clamp_col (at_pos pos e)))
unfolding clamp_col
clamped-Moves pos e w i =
    (refl, clamp_col-WellFormed (at_pos pos e) (at_pos-Rowed pos e i.0 w.rowed))

-- A column of the line that the cursor is in.
column-Moves :
    (col : ℕ) (e : QueryEditor)
    → WellFormed e
    → col ≤ max_col e.mode (length (current_line e))
    → Moves e (some (record e { cursor_col = col }))
column-Moves col e w i = (
  refl,
  record {
    rowed = record {
      row_in = w.rowed.row_in;
      undo_in = w.rowed.undo_in;
      redo_in = w.rowed.redo_in;
      register_in = w.rowed.register_in;
    };
    col_in = i;
  },
)

module _ (alnum : ℕ → Bool) where
  move_row_to-Moves :
      (row : ℕ) (e : QueryEditor) → WellFormed e → Moves e (some (move_row_to alnum row e))
  unfolding move_row_to clamp_col
  move_row_to-Moves row e w = (refl, move_row_to-Rowed alnum row e w.rowed)

  skipped-Inside :
      (b : Bool) (lines : List Text) (p q : Pos)
      → Inside lines p
      → Inside lines q
      → Inside lines (if b then p else q)
  skipped-Inside true lines p q i j = i
  skipped-Inside false lines p q i j = j

  move_word_forward-Moves :
      (e : QueryEditor) → WellFormed e → Moves e (some (move_word_forward alnum e))
  unfolding move_word_forward
  move_word_forward-Moves e w =
      let i = WellFormed-Inside e w in
      clamped-Moves _ e w (
        advance_while-Inside alnum e.lines space (size e.lines) _ (
          skipped-Inside _ e.lines (cursor e) _ i (
            advance_while-Inside alnum e.lines (class_at alnum e.lines (cursor e)) (size e.lines) _
              i)))

  move_word_end-Moves : (e : QueryEditor) → WellFormed e → Moves e (some (move_word_end alnum e))
  unfolding move_word_end
  move_word_end-Moves e w =
      let i = WellFormed-Inside e w in
      let n = size e.lines in
      let stepped =
        or_here-Inside e.lines (cursor e) (next_pos e.lines (cursor e)) i
          (next_pos-Inside e.lines (cursor e) i) in
      let found = advance_while-Inside alnum e.lines space n _ stepped in
      clamped-Moves _ e w
        (skipped-Inside _ e.lines _ _ found (run_end-Inside alnum e.lines _ n _ found))

  backward_from-Moves :
      (e : QueryEditor) (prev : Option Pos)
      → WellFormed e
      → Reaches (Inside e.lines) prev
      → Moves e (some (backward_from alnum prev e))
  backward_from-Moves e none w i = column-Moves 0 e w (omega arith)
  backward_from-Moves e (some prev) w i =
      let n = size e.lines in
      let found = retreat_while-Inside alnum e.lines space n prev i in
      clamped-Moves _ e w
        (skipped-Inside _ e.lines _ _ found (run_start-Inside alnum e.lines _ n _ found))

  -- A motion leaves all but the cursor of a well-formed editor, and the cursor in the buffer.
  pub apply_motion_command-Moves :
      (c : Command) (e : QueryEditor) → WellFormed e → Moves e (apply_motion_command alnum c e)
  unfolding apply_motion_command move_word_backward
  apply_motion_command-Moves (vim_move mv) e w = move_row_to-Moves _ e w
  apply_motion_command-Moves move_left e w = column-Moves _ e w (omega (arith, w.col_in))
  apply_motion_command-Moves move_right e w =
      column-Moves _ e w (omega (arith, max_col-ge e.mode (length (current_line e))))
  apply_motion_command-Moves line_start e w = column-Moves 0 e w (omega arith)
  apply_motion_command-Moves line_end e w =
      column-Moves _ e w (max_col-ge e.mode (length (current_line e)))
  apply_motion_command-Moves word_forward e w = move_word_forward-Moves e w
  apply_motion_command-Moves word_back e w =
      let i = WellFormed-Inside e w in
      backward_from-Moves e _ w (prev_pos-Inside e.lines (cursor e) i)
  apply_motion_command-Moves word_end e w = move_word_end-Moves e w
  apply_motion_command-Moves _ e w = tt
