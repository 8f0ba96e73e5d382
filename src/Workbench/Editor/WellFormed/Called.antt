-- ===== src/Workbench/Editor/WellFormed/Called.antt =====
-- What the screen around the editor calls (crates/tradar-query-workbench/src/components/
-- query_screen.rs) keeps the cursor in the buffer: inserting, completing a word, searching and
-- drawing.
use tradar.Base.{
  ℕ, zero, suc, ◌+◌, ◌-◌, ◌≤◌, ◌<◌, Bool, ◌||◌, List, [], ◌∷◌, Option, none, some, ◌≡◌, inl, inr,
  refl, sym, subst, arith, ltb, leb, ◌==◌, Bool-cases, length, is_empty, split-cons, Text,
}
use native.Mathlib.Nat.{mod-lt}
use tradar.Workbench.Editor.{QueryEditor, insert, line_at, current_line, clamp_col, checkpoint}
use tradar.Workbench.Editor.Edits.{
  insert_char, insert_chars, break_line, insert_pieces, insert_multiline, insert_at_cursor,
  replace_word_before_cursor,
}
use tradar.Workbench.Editor.Motions.{Pos}
use tradar.Workbench.Editor.Motions.Loops.{Reaches}
use tradar.Workbench.Editor.Find.{step_row, find_in_row, find_steps, gone_to, find_pattern}
use tradar.Workbench.Editor.Screen.{
  index_where, or_first, scroll_to, scroll_into_view, visible_rows, drawn,
}
use tradar.Workbench.Editor.WellFormed.{
  Rowed, WellFormed, clamp_col-WellFormed, length-set_at, checkpoint-Rowed,
}
use tradar.Workbench.Editor.WellFormed.Edited.{
  max_col-le, break_line-Rowed, replace_word_before_cursor-WellFormed,
}
use tradar.Workbench.Editor.WellFormed.Selected.{OnLine, Anchored}
use tradar.Workbench.Editor.WellFormed.Selecting.{Selecting, not_both}
use tradar.Workbench.Editor.WellFormed.Typed.{Inserting, insert_char-Inserting}

abbrev pub Sound : QueryEditor → Type 0
Sound e = WellFormed e × Selecting e

-- The cursor is on a character or behind the last one, whatever the mode.
abbrev InColumn : QueryEditor → Type 0
InColumn e = Rowed e × (e.cursor_col ≤ length (current_line e))

InColumn-Inserting : (e : QueryEditor) → InColumn e → Inserting (record e { mode = insert })
InColumn-Inserting e (r, c) = record {
  rowed = record {
    row_in = r.row_in;
    undo_in = r.undo_in;
    redo_in = r.redo_in;
    register_in = r.register_in;
  };
  inserts = refl;
  col_in = c;
}

insert_chars-InColumn : (s : Text) (e : QueryEditor) → InColumn e → InColumn (insert_chars s e)
unfolding insert_chars insert_char
insert_chars-InColumn [] e i = i
insert_chars-InColumn (c ∷ s) e i =
    let j = insert_char-Inserting c (record e { mode = insert }) (InColumn-Inserting e i) in
    insert_chars-InColumn s (insert_char c e) (
      record {
        row_in = j.rowed.row_in;
        undo_in = j.rowed.undo_in;
        redo_in = j.rowed.redo_in;
        register_in = j.rowed.register_in;
      },
      j.col_in,
    )

break_line-InColumn : (e : QueryEditor) → InColumn e → InColumn (break_line e)
unfolding break_line
break_line-InColumn e (r, c) = (break_line-Rowed e r, omega arith)

insert_pieces-InColumn :
    (ps : List Text) (e : QueryEditor) → InColumn e → InColumn (insert_pieces ps e)
insert_pieces-InColumn [] e i = i
insert_pieces-InColumn (p ∷ ps) e i =
    insert_pieces-InColumn ps (insert_chars p (break_line e))
      (insert_chars-InColumn p (break_line e) (break_line-InColumn e i))

insert_multiline-InColumn :
    (s : Text) (e : QueryEditor) → InColumn e → InColumn (insert_multiline s e)
unfolding insert_multiline
insert_multiline-InColumn s e i =
    let (w, ws, h) = split-cons (λ c. c == b'\n') s in
    rw h (insert_pieces-InColumn ws (insert_chars w e) (insert_chars-InColumn w e i))

WellFormed-InColumn : (e : QueryEditor) → WellFormed e → InColumn e
WellFormed-InColumn e w =
    (w.rowed, omega (arith, w.col_in, max_col-le e.mode (length (current_line e))))

pub on_same_line :
    (e : QueryEditor) (lines : List Text)
    → length lines ≡ length e.lines
    → Anchored e
    → Reaches (OnLine lines) e.visual_anchor
on_same_line e lines h a = subst (λ n. Reaches (λ pos. pos.0 < n) e.visual_anchor) (sym h) a

step-OnLine :
    (lines : List Text) (row : ℕ) (o : Option ℕ) (rest : Option Pos)
    → row < length lines
    → Reaches (OnLine lines) rest
    → Reaches (OnLine lines) (elim o [ none ↦ rest | some col ↦ some (row, col) ])
step-OnLine lines row none rest h r = r
step-OnLine lines row (some col) rest h r = h

found-OnLine :
    (n step : ℕ) (backwards : Bool) (needle : Text) (e : QueryEditor)
    → 0 < length e.lines
    → Reaches (OnLine e.lines) (find_steps n step backwards needle e)
found-OnLine zero step backwards needle e h = tt
found-OnLine (suc n) step backwards needle e h =
    let row = step_row backwards (length e.lines) e.cursor_row step in
    let on : row < length e.lines = elim (Bool-cases backwards) [
      | inl b ↦ rw b (mod-lt _ h)
      | inr b ↦ rw b (mod-lt _ h)
    ] in
    step-OnLine e.lines row (find_in_row backwards step needle (line_at row e.lines) e.cursor_col) _
      on (found-OnLine n (step + 1) backwards needle e h)

module _ (alnum : ℕ → Bool) where
  pub insert_at_cursor-Sound :
      (s : Text) (e : QueryEditor) → Sound e → Sound (insert_at_cursor alnum s e)
  unfolding insert_at_cursor checkpoint
  insert_at_cursor-Sound s e (w, v) =
      let (r, c) = WellFormed-InColumn e w in
      let i =
        InColumn-Inserting (insert_multiline s (checkpoint alnum e))
          (insert_multiline-InColumn s (checkpoint alnum e) (checkpoint-Rowed alnum e r, c)) in
      (record { rowed = i.rowed; col_in = i.col_in }, not_both refl)

  pub replace_word_before_cursor-Sound :
      (s : Text) (e : QueryEditor) → Sound e → Sound (replace_word_before_cursor alnum s e)
  unfolding replace_word_before_cursor checkpoint clamp_col
  replace_word_before_cursor-Sound s e (w, v) = (
    replace_word_before_cursor-WellFormed alnum s e w,
    (λ m. on_same_line e _ (length-set_at e.cursor_row _ e.lines) (v m)),
  )

  pub find_pattern-Sound :
      (needle : Text) (backwards : Bool) (e : QueryEditor)
      → Sound e
      → Sound (find_pattern needle backwards e).1
  unfolding find_pattern clamp_col
  find_pattern-Sound needle backwards e (w, v) =
      elim (Bool-cases (is_empty needle || is_empty e.lines)) [
        | inl h ↦ rw h (w, v)
        | inr h ↦ rw h (
            went (find_steps (length e.lines + 1) 0 backwards needle e) (
              found-OnLine (length e.lines + 1) 0 backwards needle e
                (omega (arith, w.rowed.row_in))))
      ]
    where
      went : (o : Option Pos) → Reaches (OnLine e.lines) o → Sound (gone_to o e).1
      went none h = (w, v)
      went (some pos) h = (
        clamp_col-WellFormed _ (record {
          row_in = h;
          undo_in = w.rowed.undo_in;
          redo_in = w.rowed.redo_in;
          register_in = w.rowed.register_in;
        }),
        v,
      )

-- Only where the screen stands changes.
placed-Sound :
    (scroll height : ℕ) (e : QueryEditor)
    → Sound e
    → Sound (record e { scroll = scroll; visible_height = height })
placed-Sound scroll height e (w, v) = (
  record {
    rowed = record {
      row_in = w.rowed.row_in;
      undo_in = w.rowed.undo_in;
      redo_in = w.rowed.redo_in;
      register_in = w.rowed.register_in;
    };
    col_in = w.col_in;
  },
  v,
)

scroll_to-Sound :
    (o : Option ℕ) (visible : List ℕ) (e : QueryEditor) → Sound e → Sound (scroll_to o visible e)
scroll_to-Sound none visible e s = s
scroll_to-Sound (some cursor_idx) visible e s =
    let scroll_idx = or_first (index_where (leb e.scroll) visible) in
    elim (Bool-cases (ltb cursor_idx scroll_idx)) [
      | inl h ↦ rw h (placed-Sound _ e.visible_height e s)
      | inr h ↦ elim (Bool-cases (leb (scroll_idx + e.visible_height) cursor_idx)) [
        | inl g ↦ rw (h, g) (placed-Sound _ e.visible_height e s)
        | inr g ↦ rw (h, g) s
      ]
    ]

pub drawn-Sound :
    (alnum : ℕ → Bool) (height : ℕ) (e : QueryEditor) → Sound e → Sound (drawn alnum height e)
unfolding drawn scroll_into_view
drawn-Sound alnum height e s =
    let f = record e { visible_height = height - 1 } in
    let t = placed-Sound e.scroll (height - 1) e s in
    elim (Bool-cases (height - 1 == 0)) [
      | inl h ↦ rw h t
      | inr h ↦ rw h (scroll_to-Sound _ (visible_rows alnum f) f t)
    ]
