-- ===== src/Workbench/Editor/WellFormed/Typed.antt =====
-- What typing does to the line of the cursor (Workbench/Editor/Edits), while text is inserted.
use tradar.Base.{
  ℕ, zero, subst, suc, ◌-◌, ◌≤◌, ◌<◌, Bool, true, false, ◌&&◌, [], ◌∷◌, Option, none, some, ◌≡◌,
  inl, inr, arith, ltb, Bool-cases, Option-cases, length, remove_at, insert_at, Text,
}
use tradar.Workbench.Editor.{QueryEditor, insert, current_line, max_col, checkpoint}
use tradar.Workbench.Editor.Edits.{
  with_line, insert_char, auto_close_for, is_closer, is_at, closed_by, type_char, break_line,
}
use tradar.Workbench.Editor.Keys.{closes_pair}
use tradar.Workbench.Editor.WellFormed.{
  Rowed, WellFormed, length-insert_at, length-remove_at, line_at-set_at, checkpoint-Rowed,
}
use tradar.Workbench.Editor.WellFormed.Edited.{with_line-Rowed, break_line-Rowed}

-- The cursor of an editor that inserts, its end of the line included.
pub record Inserting (e : QueryEditor) : Type 0 where
  pub rowed : Rowed e
  pub inserts : e.mode ≡ insert
  pub col_in : e.cursor_col ≤ length (current_line e)

pub Inserting-WellFormed : (e : QueryEditor) → Inserting e → WellFormed e
Inserting-WellFormed e i = record { rowed = i.rowed; col_in = rw i.inserts i.col_in }

pub WellFormed-Inserting : (e : QueryEditor) → e.mode ≡ insert → WellFormed e → Inserting e
WellFormed-Inserting e m w = record {
  rowed = w.rowed;
  inserts = m;
  col_in = subst (λ m. e.cursor_col ≤ max_col m (length (current_line e))) m w.col_in;
}

pub positive : {m n : ℕ} → m ≡ n → ltb 0 n ≡ true → 0 < m
positive e h = ground (arith, e, h)

is_at-inside : (c col : ℕ) (line : Text) → is_at c col line ≡ true → col < length line
is_at-inside c col [] h = cc
is_at-inside c zero (x ∷ line) h = omega arith
is_at-inside c (suc col) (x ∷ line) h = omega (arith, is_at-inside c col line h)

module _ (alnum : ℕ → Bool) where
  pub checkpoint-Inserting : (e : QueryEditor) → Inserting e → Inserting (checkpoint alnum e)
  unfolding checkpoint
  checkpoint-Inserting e i = record {
    rowed = checkpoint-Rowed alnum e i.rowed;
    inserts = i.inserts;
    col_in = i.col_in;
  }

pub insert_char-Inserting : (c : ℕ) (e : QueryEditor) → Inserting e → Inserting (insert_char c e)
unfolding insert_char
insert_char-Inserting c e i =
    let w = with_line-Rowed (insert_at e.cursor_col c) e i.rowed in
    record {
      rowed = record {
        row_in = w.row_in;
        undo_in = w.undo_in;
        redo_in = w.redo_in;
        register_in = w.register_in;
      };
      inserts = i.inserts;
      col_in =
          rw
            (
              line_at-set_at e.cursor_row (insert_at e.cursor_col c (current_line e)) e.lines
                  i.rowed.row_in,
              length-insert_at e.cursor_col c (current_line e),
            )
            (omega (arith, i.col_in));
    }

pub break_line-Inserting : (e : QueryEditor) → Inserting e → Inserting (break_line e)
unfolding break_line
break_line-Inserting e i =
    let r = break_line-Rowed e i.rowed in
    record {
      rowed = record {
        row_in = r.row_in;
        undo_in = r.undo_in;
        redo_in = r.redo_in;
        register_in = r.register_in;
      };
      inserts = i.inserts;
      col_in = omega arith;
    }

-- A character and its closer around the cursor, or the character alone.
closed_by-Inserting :
    (closer : Option ℕ) (c : ℕ) (e : QueryEditor) → Inserting e → Inserting (closed_by closer c e)
unfolding insert_char
closed_by-Inserting none c e i = insert_char-Inserting c e i
closed_by-Inserting (some closer) c e i =
    let j = insert_char-Inserting closer (insert_char c e) (insert_char-Inserting c e i) in
    record {
      rowed = record {
        row_in = j.rowed.row_in;
        undo_in = j.rowed.undo_in;
        redo_in = j.rowed.redo_in;
        register_in = j.rowed.register_in;
      };
      inserts = j.inserts;
      col_in = omega (arith, j.col_in);
    }

pub type_char-Inserting : (c : ℕ) (e : QueryEditor) → Inserting e → Inserting (type_char c e)
unfolding type_char
type_char-Inserting c e i =
    elim (Bool-cases (is_closer c && is_at c e.cursor_col (current_line e))) [
      | inl h ↦ rw h (record {
        rowed = record {
          row_in = i.rowed.row_in;
          undo_in = i.rowed.undo_in;
          redo_in = i.rowed.redo_in;
          register_in = i.rowed.register_in;
        };
        inserts = i.inserts;
        col_in = omega (arith, is_at-inside c e.cursor_col (current_line e) (ground arith));
      })
      | inr h ↦ rw h (closed_by-Inserting (auto_close_for c) c e i)
    ]

-- One character less in front of the cursor.
pub cut_before-Inserting :
    (e : QueryEditor)
    → 0 < e.cursor_col
    → Inserting e
    → Inserting
        (record (with_line (remove_at (e.cursor_col - 1)) e) { cursor_col = e.cursor_col - 1 })
cut_before-Inserting e h i =
    let w = with_line-Rowed (remove_at (e.cursor_col - 1)) e i.rowed in
    let in_line : e.cursor_col - 1 < length (current_line e) = omega (arith, i.col_in, h) in
    record {
      rowed = record {
        row_in = w.row_in;
        undo_in = w.undo_in;
        redo_in = w.redo_in;
        register_in = w.register_in;
      };
      inserts = i.inserts;
      col_in =
          rw
            (line_at-set_at e.cursor_row (remove_at (e.cursor_col - 1) (current_line e)) e.lines
              i.rowed.row_in)
            (omega (arith, i.col_in, length-remove_at (e.cursor_col - 1) (current_line e) in_line));
    }

-- The character at the cursor goes.
pub cut_at-Inserting :
    (e : QueryEditor)
    → e.cursor_col < length (current_line e)
    → Inserting e
    → Inserting (with_line (remove_at e.cursor_col) e)
cut_at-Inserting e h i =
    let w = with_line-Rowed (remove_at e.cursor_col) e i.rowed in
    record {
      rowed = w;
      inserts = i.inserts;
      col_in =
          rw
            (line_at-set_at e.cursor_row (remove_at e.cursor_col (current_line e)) e.lines
              i.rowed.row_in)
            (omega (arith, i.col_in, length-remove_at e.cursor_col (current_line e) h));
    }

pub closes_pair-inside :
    (cs : Text) (col : ℕ) (line : Text) → closes_pair cs col line ≡ true → col < length line
closes_pair-inside [] col line h = cc
closes_pair-inside (c ∷ cs) col line h = elim (Option-cases (auto_close_for c)) [
  | inl e ↦ cc
  | inr (d, e) ↦ is_at-inside d col line (
      subst
        (λ o. (elim o as (λ _. Bool) [ none ↦ false | some closer ↦ is_at closer col line ]) ≡ true)
        e h)
]
