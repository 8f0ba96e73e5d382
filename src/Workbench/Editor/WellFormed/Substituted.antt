-- ===== src/Workbench/Editor/WellFormed/Substituted.antt =====
-- `substitute` keeps the cursor in the buffer.
use tradar.Base.{
  ℕ, zero, suc, ◌+◌, ◌<◌, Bool, true, false, List, [], ◌∷◌, Option, none, some, ◌≡◌, ◌⊎◌, inl, inr,
  refl, sym, subst, ap, ◌∙◌, arith, Bool-cases, length, is_empty, All, Text,
}
use tradar.Workbench.Editor.{is_visual, QueryEditor, clamp_col, checkpoint}
use tradar.Workbench.Editor.Motions.Loops.{Reaches}
use tradar.Workbench.Editor.Find.Substitute.{
  Pass, start_pass, rows_from, rows_to_change, changed_row, substitute_rows, gone_to_row,
  substitute,
}
use tradar.Workbench.Editor.WellFormed.{
  Rowed, clamp_col-WellFormed, length-set_at, checkpoint-Rowed,
}
use tradar.Workbench.Editor.WellFormed.Selected.{OnLine}
use tradar.Workbench.Editor.WellFormed.Called.{Sound, on_same_line}

-- What the loop of `substitute` keeps.
record Kept (e : QueryEditor) (pass : Pass) : Type 0 where
  rowed : Rowed pass.editor
  same_length : length pass.editor.lines ≡ length e.lines
  same_mode : pass.editor.mode ≡ e.mode
  same_anchor : pass.editor.visual_anchor ≡ e.visual_anchor
  changed :
      (pass.last_changed_row ≡ none) × (pass.editor ≡ e)
      ⊎ ((row : ℕ) × (pass.last_changed_row ≡ some row) × (row < length e.lines))

rows_from-All : (row n : ℕ) → All (λ r. r < row + n) (rows_from row n)
rows_from-All row zero = tt
rows_from-All row (suc n) = (
  omega arith,
  subst (λ m. All (λ r. r < m) (rows_from (row + 1) n)) (omega arith) (rows_from-All (row + 1) n),
)

rows_to_change-All :
    (b : Bool) (e : QueryEditor) → Rowed e → All (λ r. r < length e.lines) (rows_to_change b e)
rows_to_change-All true e r =
    subst (λ m. All (λ r. r < m) (rows_from 0 (length e.lines))) (omega arith)
      (rows_from-All 0 (length e.lines))
rows_to_change-All false e r = (r.row_in, tt)

module _ (alnum : ℕ → Bool) (pattern by : Text) (all_on_line : Bool) (e : QueryEditor) where
  changed_row-Kept :
      (row : ℕ) (o : Option ℕ) (pass : Pass)
      → row < length e.lines
      → Kept e pass
      → Kept e (changed_row alnum pattern by all_on_line row o pass)
  unfolding checkpoint
  changed_row-Kept row none pass h k = k
  changed_row-Kept row (some n) pass h k = elim (Bool-cases pass.checkpointed) [
    | inl c ↦ rw c (record {
      rowed = record {
        row_in = omega (arith, k.rowed.row_in, length-set_at row _ pass.editor.lines);
        undo_in = k.rowed.undo_in;
        redo_in = k.rowed.redo_in;
        register_in = k.rowed.register_in;
      };
      same_length = omega (arith, k.same_length, length-set_at row _ pass.editor.lines);
      same_mode = k.same_mode;
      same_anchor = k.same_anchor;
      changed = inr (row, refl, h);
    })
    | inr c ↦
        let r = checkpoint-Rowed alnum pass.editor k.rowed in
        rw c (record {
          rowed = record {
            row_in = omega (arith, k.rowed.row_in, length-set_at row _ pass.editor.lines);
            undo_in = r.undo_in;
            redo_in = r.redo_in;
            register_in = k.rowed.register_in;
          };
          same_length = omega (arith, k.same_length, length-set_at row _ pass.editor.lines);
          same_mode = k.same_mode;
          same_anchor = k.same_anchor;
          changed = inr (row, refl, h);
        })
  ]

  substitute_rows-Kept :
      (rows : List ℕ) (pass : Pass)
      → All (λ r. r < length e.lines) rows
      → Kept e pass
      → Kept e (substitute_rows alnum pattern by all_on_line rows pass)
  unfolding substitute_rows
  substitute_rows-Kept [] pass h k = k
  substitute_rows-Kept (row ∷ rows) pass (h, hs) k =
      substitute_rows-Kept rows _ hs (changed_row-Kept row _ pass h k)

  gone_to_row-Sound :
      (pass : Pass)
      → Sound e
      → Kept e pass
      → Sound (gone_to_row alnum pattern by all_on_line pass.last_changed_row pass.editor)
  unfolding clamp_col
  gone_to_row-Sound pass (w, v) k = elim k.changed [
    | inl (n, s) ↦ rw n (subst Sound (sym s) (w, v))
    | inr (row, n, h) ↦ rw n (
      clamp_col-WellFormed (record pass.editor { cursor_row = row })
          (record {
            row_in = omega (arith, h, k.same_length);
            undo_in = k.rowed.undo_in;
            redo_in = k.rowed.redo_in;
            register_in = k.rowed.register_in;
          }),
      (λ m. subst (Reaches (OnLine pass.editor.lines)) (sym k.same_anchor) (
          on_same_line e pass.editor.lines k.same_length (v (ap is_visual (sym k.same_mode) ∙ m)))),
    )
  ]

  pub substitute-Sound :
      (whole_buffer : Bool)
      → Sound e
      → Sound (substitute alnum pattern by all_on_line whole_buffer e).1
  unfolding substitute
  substitute-Sound whole_buffer (w, v) =
      let start : Kept e (start_pass e) = record {
        rowed = w.rowed;
        same_length = refl;
        same_mode = refl;
        same_anchor = refl;
        changed = inl (refl, refl);
      } in
      let k =
        substitute_rows-Kept (rows_to_change whole_buffer e) (start_pass e)
          (rows_to_change-All whole_buffer e w.rowed) start in
      elim (Bool-cases (is_empty pattern)) [
        | inl h ↦ rw h (w, v)
        | inr h ↦ rw h (gone_to_row-Sound _ (w, v) k)
      ]
