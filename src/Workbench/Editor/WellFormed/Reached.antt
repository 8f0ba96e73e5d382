-- ===== src/Workbench/Editor/WellFormed/Reached.antt =====
-- What an editor can come to by its keys and by what the screen around it calls
-- (crates/tradar-query-workbench/src/components/query_screen.rs).
use tradar.Base.{
  ℕ, ◌<◌, Bool, true, false, ◌&&◌, List, [], ◌∷◌, inl, inr, refl, arith, Bool-cases, ◌==◌, length,
  Text,
}
use tradar.Base.Lines.{lines, at_newline, onto_first}
use tradar.Core.VimList.{VimMove}
use tradar.Workbench.Editor.{
  QueryEditor, Dialect, new, set_vim_enabled, set_text, set_cursor, scrolled, undo_edit, redo_edit,
  clamp_col, move_row_to, current_line,
}
use tradar.Workbench.Editor.Keys.{Resolution, InsertKey, forward_key}
use tradar.Workbench.Editor.WellFormed.{
  clamp_col-WellFormed, undo_edit-WellFormed, redo_edit-WellFormed,
}
use tradar.Workbench.Editor.Edits.{insert_at_cursor, replace_word_before_cursor}
use tradar.Workbench.Editor.Find.{find_pattern}
use tradar.Workbench.Editor.Find.Substitute.{substitute}
use tradar.Workbench.Editor.Screen.{drawn}
use tradar.Workbench.Editor.WellFormed.Called.{
  Sound, insert_at_cursor-Sound, replace_word_before_cursor-Sound, find_pattern-Sound, drawn-Sound,
}
use tradar.Workbench.Editor.WellFormed.Substituted.{substitute-Sound}
use tradar.Workbench.Editor.WellFormed.Edited.{max_col-le}
use tradar.Workbench.Editor.WellFormed.Moved.{move_row_to-Rowed}
use tradar.Workbench.Editor.WellFormed.Calm.{Calm, undone-Calm, redone-Calm}
use tradar.Workbench.Editor.WellFormed.Selecting.{not_both}
use tradar.Workbench.Editor.WellFormed.Handled.{forward_key-Sound}

-- The key map may answer anything. `undo_edit` and `redo_edit`, which a key calls past the mode, come
-- while nothing is selected.
pub data Reached (alnum : ℕ → Bool) (toggled : ℕ → ℕ) : QueryEditor → Type 0 where
  at_start : Reached alnum toggled new
  text_set :
      (s : Text) (e : QueryEditor) → Reached alnum toggled e → Reached alnum toggled (set_text s e)
  dialect_set :
      (d : Dialect) (e : QueryEditor)
      → Reached alnum toggled e
      → Reached alnum toggled (record e { dialect = d })
  cursor_set :
      (row col : ℕ) (e : QueryEditor)
      → Reached alnum toggled e
      → Reached alnum toggled (set_cursor row col e)
  moved :
      (mv : VimMove) (e : QueryEditor)
      → Reached alnum toggled e
      → Reached alnum toggled (scrolled alnum mv e)
  key :
      (r : Resolution) (k : InsertKey) (e : QueryEditor)
      → Reached alnum toggled e
      → Reached alnum toggled (forward_key alnum toggled r k e)
  undone :
      (e : QueryEditor) → Calm e → Reached alnum toggled e → Reached alnum toggled (undo_edit e)
  redone :
      (e : QueryEditor) → Calm e → Reached alnum toggled e → Reached alnum toggled (redo_edit e)
  inserted :
      (s : Text) (e : QueryEditor)
      → Reached alnum toggled e
      → Reached alnum toggled (insert_at_cursor alnum s e)
  completed :
      (s : Text) (e : QueryEditor)
      → Reached alnum toggled e
      → Reached alnum toggled (replace_word_before_cursor alnum s e)
  searched :
      (needle : Text) (backwards : Bool) (e : QueryEditor)
      → Reached alnum toggled e
      → Reached alnum toggled (find_pattern needle backwards e).1
  substituted :
      (pattern by : Text) (all_on_line whole_buffer : Bool) (e : QueryEditor)
      → Reached alnum toggled e
      → Reached alnum toggled (substitute alnum pattern by all_on_line whole_buffer e).1
  shown :
      (height : ℕ) (e : QueryEditor)
      → Reached alnum toggled e
      → Reached alnum toggled (drawn alnum height e)
  vim_set :
      (enabled : Bool) (e : QueryEditor)
      → Reached alnum toggled e
      → Reached alnum toggled (set_vim_enabled enabled e)

onto_first-length : (c : ℕ) (ls : List Text) → 0 < length (onto_first c ls)
onto_first-length c [] = omega arith
onto_first-length c (l ∷ ls) = omega arith

lines-length : (c : ℕ) (s : Text) → 0 < length (lines (c ∷ s))
unfolding lines
lines-length c [] = elim (Bool-cases (c == b'\n')) [
  | inl h ↦ rw h (omega arith)
  | inr h ↦ elim (Bool-cases (c == b'\r' && false)) [
    | inl g ↦ absurd (ground (arith, g))
    | inr g ↦ rw (h, g) (omega arith)
  ]
]
lines-length c (d ∷ s) = elim (Bool-cases (c == b'\n')) [
  | inl h ↦ rw h (omega arith)
  | inr h ↦ elim (Bool-cases (c == b'\r' && at_newline (d ∷ s))) [
    | inl g ↦ rw (h, g) (lines-length d s)
    | inr g ↦ rw (h, g) (onto_first-length c (lines (d ∷ s)))
  ]
]

new-Sound : Sound new
unfolding new
new-Sound = (
  record {
    rowed = record { row_in = omega arith; undo_in = tt; redo_in = tt; register_in = tt };
    col_in = omega arith;
  },
  not_both refl,
)

set_text-Sound : (s : Text) (e : QueryEditor) → Sound e → Sound (set_text s e)
unfolding set_text
set_text-Sound [] e (w, v) = (
  record {
    rowed = record {
      row_in = omega arith;
      undo_in = tt;
      redo_in = tt;
      register_in = w.rowed.register_in;
    };
    col_in = omega arith;
  },
  not_both refl,
)
set_text-Sound (c ∷ s) e (w, v) = (
  record {
    rowed = record {
      row_in = lines-length c s;
      undo_in = tt;
      redo_in = tt;
      register_in = w.rowed.register_in;
    };
    col_in = omega arith;
  },
  not_both refl,
)

set_cursor-Sound : (row col : ℕ) (e : QueryEditor) → Sound e → Sound (set_cursor row col e)
unfolding set_cursor clamp_col
set_cursor-Sound row col e (w, v) = (
  clamp_col-WellFormed _ (record {
    row_in = omega (arith, w.rowed.row_in);
    undo_in = w.rowed.undo_in;
    redo_in = w.rowed.redo_in;
    register_in = w.rowed.register_in;
  }),
  v,
)

vim_set-Sound : (enabled : Bool) (e : QueryEditor) → Sound e → Sound (set_vim_enabled enabled e)
unfolding set_vim_enabled
vim_set-Sound true e (w, v) = (
  record {
    rowed = record {
      row_in = w.rowed.row_in;
      undo_in = w.rowed.undo_in;
      redo_in = w.rowed.redo_in;
      register_in = w.rowed.register_in;
    };
    col_in = w.col_in;
  },
  v,
)
vim_set-Sound false e (w, v) = (
  record {
    rowed = record {
      row_in = w.rowed.row_in;
      undo_in = w.rowed.undo_in;
      redo_in = w.rowed.redo_in;
      register_in = w.rowed.register_in;
    };
    col_in = omega (arith, w.col_in, max_col-le e.mode (length (current_line e)));
  },
  not_both refl,
)

module _ (alnum : ℕ → Bool) (toggled : ℕ → ℕ) where
  scrolled-Sound : (mv : VimMove) (e : QueryEditor) → Sound e → Sound (scrolled alnum mv e)
  unfolding scrolled move_row_to clamp_col
  scrolled-Sound mv e (w, v) = (move_row_to-Rowed alnum _ e w.rowed, v)

  -- Whatever the screen has called since the start, with any key, text, pattern and height, and with no
  -- undoing or redoing past the mode while something is selected: the cursor is in a line of the buffer,
  -- on a character, or one behind the last while text is inserted; every state to undo or redo to, and a
  -- register of lines, has a line; and the other end of what is selected is on a line of the buffer.
  pub Reached-Sound : (e : QueryEditor) → Reached alnum toggled e → Sound e
  unfolding undo_edit redo_edit
  Reached-Sound e at_start = new-Sound
  Reached-Sound e (text_set s d r) = set_text-Sound s d (Reached-Sound d r)
  Reached-Sound e (dialect_set l d r) =
      let (w, v) = Reached-Sound d r in
      (
        record {
          rowed = record {
            row_in = w.rowed.row_in;
            undo_in = w.rowed.undo_in;
            redo_in = w.rowed.redo_in;
            register_in = w.rowed.register_in;
          };
          col_in = w.col_in;
        },
        v,
      )
  Reached-Sound e (cursor_set row col d r) = set_cursor-Sound row col d (Reached-Sound d r)
  Reached-Sound e (moved mv d r) = scrolled-Sound mv d (Reached-Sound d r)
  Reached-Sound e (key res k d r) = forward_key-Sound alnum toggled res k d (Reached-Sound d r)
  Reached-Sound e (undone d c r) =
      (undo_edit-WellFormed d (Reached-Sound d r).0, not_both (undone-Calm d.undo_stack d c))
  Reached-Sound e (redone d c r) =
      (redo_edit-WellFormed d (Reached-Sound d r).0, not_both (redone-Calm d.redo_stack d c))
  Reached-Sound e (inserted s d r) = insert_at_cursor-Sound alnum s d (Reached-Sound d r)
  Reached-Sound e (completed s d r) = replace_word_before_cursor-Sound alnum s d (Reached-Sound d r)
  Reached-Sound e (searched needle b d r) = find_pattern-Sound alnum needle b d (Reached-Sound d r)
  Reached-Sound e (substituted pattern by all whole d r) =
      substitute-Sound alnum pattern by all d whole (Reached-Sound d r)
  Reached-Sound e (shown height d r) = drawn-Sound alnum height d (Reached-Sound d r)
  Reached-Sound e (vim_set b d r) = vim_set-Sound b d (Reached-Sound d r)
