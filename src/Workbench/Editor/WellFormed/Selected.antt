-- ===== src/Workbench/Editor/WellFormed/Selected.antt =====
-- What is done to a selection or a text object (Workbench/Editor/Operators) keeps the cursor in the
-- buffer.
use tradar.Base.{
  ℕ, ◌+◌, ◌-◌, ◌≤◌, ◌<◌, Bool, true, false, List, [], ◌∷◌, ◌++◌, Option, none, some, inl, inr,
  arith, Bool-cases, length, length-take, length-drop, length-append, take, drop, Text,
}
use tradar.Workbench.Editor.{QueryEditor, checkpoint}
use tradar.Workbench.Editor.Motions.{Pos, cursor, at_pos, or_here}
use tradar.Workbench.Editor.Motions.Loops.{Reaches}
use tradar.Workbench.Editor.Operators.{
  pos_leb, ordered, selection_bounds, is_linewise, selected, exit_visual, selection_yanked,
  or_one_line, cut, selection_deleted,
}
use tradar.Workbench.Editor.WellFormed.{
  Filled, Rowed, WellFormed, clamp_col-WellFormed, checkpoint-Rowed,
}

-- The other end of a selection is on a line of the buffer.
abbrev pub OnLine : List Text → Pos → Type 0
OnLine lines pos = pos.0 < length lines

abbrev pub Anchored : QueryEditor → Type 0
Anchored e = Reaches (OnLine e.lines) e.visual_anchor

or_here-OnLine :
    (lines : List Text) (pos : Pos) (next : Option Pos)
    → OnLine lines pos
    → Reaches (OnLine lines) next
    → OnLine lines (or_here pos next)
or_here-OnLine lines pos none i j = i
or_here-OnLine lines pos (some next) i j = j

pub ordered-keeps :
    (P : Pos → Type 0) (a b : Pos) → P a → P b → P (ordered a b).0 × P (ordered a b).1
ordered-keeps P a b p q = elim (Bool-cases (pos_leb a b)) [
  | inl h ↦ rw h (p, q)
  | inr h ↦ rw h (q, p)
]

ordered-rows : (a b : Pos) → (ordered a b).0.0 ≤ (ordered a b).1.0
ordered-rows (r, c) (s, d) = elim (Bool-cases (pos_leb (r, c) (s, d))) [
  | inl h ↦ rw h (ground (arith, h))
  | inr h ↦ rw h (ground (arith, h))
]

selection_bounds-OnLine :
    (e : QueryEditor)
    → OnLine e.lines (cursor e)
    → Anchored e
    → OnLine e.lines (selection_bounds e).0 × ((selection_bounds e).0.0 ≤ (selection_bounds e).1.0)
unfolding selection_bounds
selection_bounds-OnLine e i a = (
  (ordered-keeps (OnLine e.lines) (or_here (cursor e) e.visual_anchor) (cursor e)
      (or_here-OnLine e.lines (cursor e) e.visual_anchor i a) i).0,
  ordered-rows (or_here (cursor e) e.visual_anchor) (cursor e),
)

selected-Filled :
    (e : QueryEditor) (start end : Pos)
    → start.0 < length e.lines
    → start.0 ≤ end.0
    → Filled (some (selected e (start, end)))
selected-Filled e start end h g = elim (Bool-cases (is_linewise e.mode)) [
  | inl l ↦ rw l (
      omega (
        arith,
        length-take (end.0 + 1 - start.0) (drop start.0 e.lines),
        length-drop start.0 e.lines,
      ))
  | inr l ↦ rw l tt
]

or_one_line-length : (ls : List Text) → 0 < length (or_one_line ls)
or_one_line-length [] = omega arith
or_one_line-length (l ∷ ls) = omega arith

cut-Rowed :
    (b : Bool) (start end : Pos) (e : QueryEditor)
    → start.0 < length e.lines
    → Rowed e
    → Rowed (cut b (start, end) e)
cut-Rowed true start end e h r = record {
  row_in = omega (arith, or_one_line-length (take start.0 e.lines ++ drop (end.0 + 1) e.lines));
  undo_in = r.undo_in;
  redo_in = r.redo_in;
  register_in = r.register_in;
}
cut-Rowed false start end e h r = record {
  row_in =
      rw (length-append (take start.0 e.lines) _) (omega (arith, h, length-take start.0 e.lines));
  undo_in = r.undo_in;
  redo_in = r.redo_in;
  register_in = r.register_in;
}

pub exit_visual-WellFormed : (e : QueryEditor) → Rowed e → WellFormed (exit_visual e)
unfolding exit_visual
exit_visual-WellFormed e r = clamp_col-WellFormed _ (record {
  row_in = r.row_in;
  undo_in = r.undo_in;
  redo_in = r.redo_in;
  register_in = r.register_in;
})

pub selection_yanked-WellFormed :
    (e : QueryEditor)
    → Rowed e
    → OnLine e.lines (cursor e)
    → Anchored e
    → WellFormed (selection_yanked e)
unfolding selection_yanked
selection_yanked-WellFormed e w c a =
    let (i, rows) = selection_bounds-OnLine e c a in
    let f =
      at_pos (selection_bounds e).0
        (record e { register = some (selected e (selection_bounds e)) }) in
    exit_visual-WellFormed f (record {
      row_in = i;
      undo_in = w.undo_in;
      redo_in = w.redo_in;
      register_in = selected-Filled e (selection_bounds e).0 (selection_bounds e).1 i rows;
    })

pub selection_deleted-WellFormed :
    (alnum : ℕ → Bool) (enter : Bool) (e : QueryEditor)
    → Rowed e
    → OnLine e.lines (cursor e)
    → Anchored e
    → WellFormed (selection_deleted alnum enter e)
unfolding selection_deleted checkpoint
selection_deleted-WellFormed alnum enter e w c a =
    let (i, rows) = selection_bounds-OnLine e c a in
    let r =
      cut-Rowed (is_linewise e.mode) (selection_bounds e).0 (selection_bounds e).1
        (checkpoint alnum e) i (checkpoint-Rowed alnum e w) in
    clamp_col-WellFormed _ (record {
      row_in = r.row_in;
      undo_in = r.undo_in;
      redo_in = r.redo_in;
      register_in = selected-Filled e (selection_bounds e).0 (selection_bounds e).1 i rows;
    })
