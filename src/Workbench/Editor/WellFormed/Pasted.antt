-- ===== src/Workbench/Editor/WellFormed/Pasted.antt =====
-- Whole lines that go, come and are changed (Workbench/Editor/Edits) keep the cursor in the buffer.
use tradar.Base.{
  ℕ, ◌+◌, ◌-◌, Bool, true, false, [], Option, none, some, arith, ltb, length, remove_at, set_at,
  min,
}
use tradar.Workbench.Editor.{QueryEditor, Register, charwise, linewise}
use tradar.Workbench.Editor.Edits.{
  pasted, delete_current_line, yank_current_line, change_current_line, paste, paste_from,
}
use tradar.Workbench.Editor.WellFormed.{
  Filled, Rowed, WellFormed, if_keeps, clamp_col-WellFormed, length-set_at, length-remove_at,
  checkpoint-Rowed,
}
use tradar.Workbench.Editor.WellFormed.Edited.{
  with_line-Rowed, insert_multiline-Rowed, insert_all_at-length,
}

pub delete_current_line-WellFormed :
    (e : QueryEditor) → Rowed e → WellFormed (delete_current_line e)
unfolding delete_current_line
delete_current_line-WellFormed e r =
    let left = remove_at e.cursor_row e.lines in
    let fewer = record e { lines = left; cursor_row = min e.cursor_row (length left - 1) } in
    let emptied = record e { lines = set_at 0 [] e.lines; cursor_col = 0 } in
    let kept =
      if_keeps Rowed (ltb 1 (length e.lines)) fewer emptied
        (λ h. record {
          row_in = ground (arith, h, length-remove_at e.cursor_row e.lines r.row_in);
          undo_in = r.undo_in;
          redo_in = r.redo_in;
          register_in = r.register_in;
        })
        (λ h. record {
          row_in = omega (arith, r.row_in, length-set_at 0 [] e.lines);
          undo_in = r.undo_in;
          redo_in = r.redo_in;
          register_in = r.register_in;
        }) in
    clamp_col-WellFormed _ (record {
      row_in = omega (arith, kept.row_in);
      undo_in = kept.undo_in;
      redo_in = kept.redo_in;
      register_in = omega arith;
    })

pub yank_current_line-WellFormed :
    (e : QueryEditor) → WellFormed e → WellFormed (yank_current_line e)
unfolding yank_current_line
yank_current_line-WellFormed e w = record {
  rowed = record {
    row_in = w.rowed.row_in;
    undo_in = w.rowed.undo_in;
    redo_in = w.rowed.redo_in;
    register_in = omega arith;
  };
  col_in = w.col_in;
}

pub change_current_line-WellFormed :
    (e : QueryEditor) → Rowed e → WellFormed (change_current_line e)
unfolding change_current_line
change_current_line-WellFormed e r =
    let w = with_line-Rowed (λ l. []) e r in
    record {
      rowed = record {
        row_in = w.row_in;
        undo_in = w.undo_in;
        redo_in = w.redo_in;
        register_in = omega arith;
      };
      col_in = omega arith;
    }

pasted-Rowed :
    (before : Bool) (register : Register) (e : QueryEditor)
    → Rowed e
    → Filled (some register)
    → Rowed (pasted before register e)
pasted-Rowed before (charwise s) e r f = insert_multiline-Rowed s _ (record {
  row_in = r.row_in;
  undo_in = r.undo_in;
  redo_in = r.redo_in;
  register_in = r.register_in;
})
pasted-Rowed true (linewise ls) e r f = record {
  row_in = omega (arith, r.row_in, insert_all_at-length e.cursor_row ls e.lines);
  undo_in = r.undo_in;
  redo_in = r.redo_in;
  register_in = r.register_in;
}
pasted-Rowed false (linewise ls) e r f = record {
  row_in = omega (arith, f, r.row_in, insert_all_at-length (e.cursor_row + 1) ls e.lines);
  undo_in = r.undo_in;
  redo_in = r.redo_in;
  register_in = r.register_in;
}

paste_from-WellFormed :
    (alnum : ℕ → Bool) (before : Bool) (register : Option Register) (e : QueryEditor)
    → Filled register
    → WellFormed e
    → WellFormed (paste_from alnum before register e)
paste_from-WellFormed alnum before none e f w = w
paste_from-WellFormed alnum before (some r) e f w =
    clamp_col-WellFormed _ (pasted-Rowed before r _ (checkpoint-Rowed alnum e w.rowed) f)

pub paste-WellFormed :
    (alnum : ℕ → Bool) (before : Bool) (e : QueryEditor)
    → WellFormed e
    → WellFormed (paste alnum before e)
unfolding paste
paste-WellFormed alnum before e w =
    paste_from-WellFormed alnum before e.register e w.rowed.register_in w
