-- ===== src/Workbench/Editor/WellFormed/Edited.antt =====
-- The edits of Workbench/Editor/Edits keep the cursor in the buffer.
use tradar.Base.{
  ℕ, zero, suc, ◌+◌, ◌-◌, ◌≤◌, ◌<◌, Bool, List, [], ◌∷◌, ◌++◌, ◌≡◌, refl, ap, inl, inr, arith, ltb,
  leb, ◌==◌, Bool-cases, length, take, drop, replicate, drop_while, remove_at, insert_at, set_at,
  Text, split-cons, is_whitespace,
}
use tradar.Workbench.Editor.{
  QueryEditor, EditorMode, normal, insert, visual, visual_line, line_at, current_line, max_col,
  checkpoint,
}
use tradar.Workbench.Editor.Edits.{
  with_line, insert_char, insert_chars, break_line, insert_pieces, insert_multiline,
  delete_char_under_cursor, delete_char_before_cursor, case_toggled, toggle_at, insert_all_at,
  joined, word_start, lines_joined, line_indented, removable, line_dedented,
  replace_word_before_cursor,
}
use tradar.Workbench.Editor.WellFormed.{
  Rowed, WellFormed, clamp_col-WellFormed, length-set_at, length-insert_at, length-remove_at,
  line_at-set_at, checkpoint-Rowed,
}

pub with_line-Rowed : (f : Text → Text) (e : QueryEditor) → Rowed e → Rowed (with_line f e)
with_line-Rowed f e r = record {
  row_in = omega (arith, length-set_at e.cursor_row (f (current_line e)) e.lines, r.row_in);
  undo_in = r.undo_in;
  redo_in = r.redo_in;
  register_in = r.register_in;
}

pub current_line-with_line :
    (f : Text → Text) (e : QueryEditor)
    → Rowed e
    → current_line (with_line f e) ≡ f (current_line e)
current_line-with_line f e r = line_at-set_at e.cursor_row (f (current_line e)) e.lines r.row_in

insert_char-Rowed : (c : ℕ) (e : QueryEditor) → Rowed e → Rowed (insert_char c e)
unfolding insert_char
insert_char-Rowed c e r =
    let w = with_line-Rowed (insert_at e.cursor_col c) e r in
    record {
      row_in = w.row_in;
      undo_in = w.undo_in;
      redo_in = w.redo_in;
      register_in = w.register_in;
    }

pub insert_chars-Rowed : (s : Text) (e : QueryEditor) → Rowed e → Rowed (insert_chars s e)
unfolding insert_chars
insert_chars-Rowed [] e r = r
insert_chars-Rowed (c ∷ s) e r = insert_chars-Rowed s (insert_char c e) (insert_char-Rowed c e r)

pub break_line-Rowed : (e : QueryEditor) → Rowed e → Rowed (break_line e)
unfolding break_line
break_line-Rowed e r = record {
  row_in = omega (
    arith,
    r.row_in,
    length-insert_at (e.cursor_row + 1) (drop e.cursor_col (current_line e))
        (set_at e.cursor_row (take e.cursor_col (current_line e)) e.lines),
    length-set_at e.cursor_row (take e.cursor_col (current_line e)) e.lines,
  );
  undo_in = r.undo_in;
  redo_in = r.redo_in;
  register_in = r.register_in;
}

insert_pieces-Rowed : (ps : List Text) (e : QueryEditor) → Rowed e → Rowed (insert_pieces ps e)
insert_pieces-Rowed [] e r = r
insert_pieces-Rowed (p ∷ ps) e r =
    insert_pieces-Rowed ps (insert_chars p (break_line e))
      (insert_chars-Rowed p (break_line e) (break_line-Rowed e r))

pub insert_multiline-Rowed : (s : Text) (e : QueryEditor) → Rowed e → Rowed (insert_multiline s e)
unfolding insert_multiline
insert_multiline-Rowed s e r =
    let (w, ws, h) = split-cons (λ c. c == b'\n') s in
    rw h (insert_pieces-Rowed ws (insert_chars w e) (insert_chars-Rowed w e r))

pub insert_all_at-length :
    (at : ℕ) (ls lines : List Text) → length (insert_all_at at ls lines) ≡ length ls + length lines
insert_all_at-length at [] lines = omega arith
insert_all_at-length at (l ∷ ls) lines =
    omega
      (arith, insert_all_at-length (at + 1) ls (insert_at at l lines), length-insert_at at l lines)

pub max_col-le : (m : EditorMode) (n : ℕ) → max_col m n ≤ n
max_col-le normal n = omega arith
max_col-le insert n = omega arith
max_col-le visual n = omega arith
max_col-le visual_line n = omega arith

pub max_col-ge : (m : EditorMode) (n : ℕ) → n - 1 ≤ max_col m n
max_col-ge normal n = omega arith
max_col-ge insert n = omega arith
max_col-ge visual n = omega arith
max_col-ge visual_line n = omega arith

-- One character and one column less.
pub max_col-pred : (m : EditorMode) (n c : ℕ) → c ≤ max_col m (suc n) → c - 1 ≤ max_col m n
max_col-pred normal n c h = omega arith
max_col-pred insert n c h = omega arith
max_col-pred visual n c h = omega arith
max_col-pred visual_line n c h = omega arith

-- `joined` at the cursor
abbrev joined_line : QueryEditor → Text
joined_line e =
    joined (current_line e) (drop_while is_whitespace (line_at (e.cursor_row + 1) e.lines))

length-toggle_at : (t : ℕ → ℕ) (i : ℕ) (l : Text) → length (toggle_at t i l) ≡ length l
length-toggle_at t i [] = refl
length-toggle_at t zero (c ∷ l) = refl
length-toggle_at t (suc i) (c ∷ l) = ap suc (length-toggle_at t i l)

module _ (alnum : ℕ → Bool) where
  -- The line of the cursor, changed behind a checkpoint.
  edited-Rowed :
      (f : Text → Text) (e : QueryEditor) → Rowed e → Rowed (with_line f (checkpoint alnum e))
  edited-Rowed f e r = with_line-Rowed f (checkpoint alnum e) (checkpoint-Rowed alnum e r)

  pub delete_char_under_cursor-WellFormed :
      (e : QueryEditor) → WellFormed e → WellFormed (delete_char_under_cursor alnum e)
  unfolding delete_char_under_cursor
  delete_char_under_cursor-WellFormed e w =
      elim (Bool-cases (ltb e.cursor_col (length (current_line e)))) [
        | inr h ↦ rw h w
        | inl h ↦
            let r = edited-Rowed (remove_at e.cursor_col) e w.rowed in
            rw h (
              clamp_col-WellFormed _ (record {
                row_in = r.row_in;
                undo_in = r.undo_in;
                redo_in = r.redo_in;
                register_in = tt;
              }))
      ]

  pub delete_char_before_cursor-WellFormed :
      (e : QueryEditor) → WellFormed e → WellFormed (delete_char_before_cursor alnum e)
  unfolding delete_char_before_cursor
  delete_char_before_cursor-WellFormed e w = elim (Bool-cases (ltb 0 e.cursor_col)) [
    | inr h ↦ rw h w
    | inl h ↦
        let r = edited-Rowed (remove_at (e.cursor_col - 1)) e w.rowed in
        let len : suc (length (remove_at (e.cursor_col - 1) (current_line e)))
            ≡ length (current_line e) =
          length-remove_at (e.cursor_col - 1) (current_line e)
            (ground (arith, h, max_col-le e.mode (length (current_line e)), w.col_in)) in
        rw h (record {
          rowed = record {
            row_in = r.row_in;
            undo_in = r.undo_in;
            redo_in = r.redo_in;
            register_in = tt;
          };
          col_in =
              rw
                (line_at-set_at e.cursor_row (remove_at (e.cursor_col - 1) (current_line e)) e.lines
                  w.rowed.row_in)
                (max_col-pred e.mode _ e.cursor_col (rw len w.col_in));
        })
  ]

  pub line_dedented-WellFormed :
      (e : QueryEditor) → WellFormed e → WellFormed (line_dedented alnum e)
  unfolding line_dedented
  line_dedented-WellFormed e w = elim (Bool-cases (removable (current_line e) == 0)) [
    | inl h ↦ rw h w
    | inr h ↦
        let r = edited-Rowed (drop (removable (current_line e))) e w.rowed in
        rw h (
          clamp_col-WellFormed _ (record {
            row_in = r.row_in;
            undo_in = r.undo_in;
            redo_in = r.redo_in;
            register_in = r.register_in;
          }))
  ]

  pub case_toggled-WellFormed :
      (toggled : ℕ → ℕ) (e : QueryEditor) → WellFormed e → WellFormed (case_toggled alnum toggled e)
  unfolding case_toggled
  case_toggled-WellFormed toggled e w =
      elim (Bool-cases (leb (length (current_line e)) e.cursor_col)) [
        | inl h ↦ rw h w
        | inr h ↦
            let r = edited-Rowed (λ l. toggle_at toggled e.cursor_col l) e w.rowed in
            rw h (record {
              rowed = record {
                row_in = r.row_in;
                undo_in = r.undo_in;
                redo_in = r.redo_in;
                register_in = r.register_in;
              };
              col_in =
                  rw
                    (
                      line_at-set_at e.cursor_row (toggle_at toggled e.cursor_col (current_line e))
                          e.lines w.rowed.row_in,
                      length-toggle_at toggled e.cursor_col (current_line e),
                    )
                    (omega (arith, max_col-ge e.mode (length (current_line e))));
            })
      ]

  pub line_indented-WellFormed :
      (e : QueryEditor) → WellFormed e → WellFormed (line_indented alnum e)
  unfolding line_indented
  line_indented-WellFormed e w =
      let r = edited-Rowed (λ l. replicate 4 b' ' ++ l) e w.rowed in
      clamp_col-WellFormed _ (record {
        row_in = r.row_in;
        undo_in = r.undo_in;
        redo_in = r.redo_in;
        register_in = r.register_in;
      })

  pub lines_joined-WellFormed : (e : QueryEditor) → WellFormed e → WellFormed (lines_joined alnum e)
  unfolding lines_joined checkpoint
  lines_joined-WellFormed e w = elim (Bool-cases (leb (length e.lines) (e.cursor_row + 1))) [
    | inl h ↦ rw h w
    | inr h ↦
        let r = checkpoint-Rowed alnum e w.rowed in
        let more : e.cursor_row + 1 < length e.lines = ground (arith, h) in
        rw h (
          clamp_col-WellFormed _ (record {
            row_in = omega (
              arith,
              length-set_at e.cursor_row (joined_line e) (remove_at (e.cursor_row + 1) e.lines),
              length-remove_at (e.cursor_row + 1) e.lines more,
              more,
            );
            undo_in = r.undo_in;
            redo_in = r.redo_in;
            register_in = r.register_in;
          }))
  ]

  pub replace_word_before_cursor-WellFormed :
      (s : Text) (e : QueryEditor)
      → WellFormed e
      → WellFormed (replace_word_before_cursor alnum s e)
  unfolding replace_word_before_cursor
  replace_word_before_cursor-WellFormed s e w =
      let before = take e.cursor_col (current_line e) in
      let start = word_start alnum before 0 0 in
      let r = edited-Rowed (λ l. take start l ++ (s ++ drop (length before) l)) e w.rowed in
      clamp_col-WellFormed _ (record {
        row_in = r.row_in;
        undo_in = r.undo_in;
        redo_in = r.redo_in;
        register_in = r.register_in;
      })
