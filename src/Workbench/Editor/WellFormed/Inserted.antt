-- ===== src/Workbench/Editor/WellFormed/Inserted.antt =====
-- The keys of Insert mode (Workbench/Editor/Keys) keep the cursor in the buffer.
use tradar.Base.{
  ap, ℕ, ◌+◌, ◌-◌, ◌<◌, Bool, true, false, ◌||◌, ◌++◌, ◌≡◌, refl, inl, inr, arith, ltb, Bool-cases,
  length, length-append, remove_at,
}
use tradar.Workbench.Editor.{QueryEditor, EditorMode, insert, line_at, current_line, checkpoint}
use tradar.Workbench.Editor.Edits.{with_line, char_at}
use tradar.Workbench.Editor.Keys.{
  InsertKey, escape, enter, backspace, left, right, up, down, other, char, closes_pair,
  checkpoint_if_non_modal, checkpoint_before_typing, is_here, backspace_char, backspace_line,
  run_ended, handle_insert_key,
}
use tradar.Workbench.Editor.WellFormed.{
  WellFormed, if_keeps, clamp_col-WellFormed, length-set_at, length-remove_at, line_at-set_at,
}
use tradar.Workbench.Editor.WellFormed.Calm.{is_visual, Calm}
use tradar.Workbench.Editor.WellFormed.Typed.{
  Inserting, Inserting-WellFormed, WellFormed-Inserting, positive, checkpoint-Inserting,
  break_line-Inserting, type_char-Inserting, cut_before-Inserting, cut_at-Inserting,
  closes_pair-inside,
}

module _ (alnum : ℕ → Bool) (toggled : ℕ → ℕ) where
  backspace_line-Inserting :
      (e : QueryEditor)
      → 0 < e.cursor_row
      → Inserting e
      → Inserting (backspace_line alnum toggled e)
  unfolding backspace_line
  backspace_line-Inserting e h i =
      let above = line_at (e.cursor_row - 1) e.lines in
      let fewer = length-remove_at e.cursor_row e.lines i.rowed.row_in in
      record {
        rowed = record {
          row_in = omega (
            arith,
            fewer,
            i.rowed.row_in,
            h,
            length-set_at (e.cursor_row - 1) (above ++ current_line e)
                (remove_at e.cursor_row e.lines),
          );
          undo_in = i.rowed.undo_in;
          redo_in = i.rowed.redo_in;
          register_in = i.rowed.register_in;
        };
        inserts = i.inserts;
        col_in =
            rw
              (
                line_at-set_at (e.cursor_row - 1) (above ++ current_line e)
                    (remove_at e.cursor_row e.lines) (omega (arith, fewer, i.rowed.row_in, h)),
                length-append above (current_line e),
              )
              (omega arith);
      }

  backspace_char-Inserting :
      (e : QueryEditor)
      → 0 < e.cursor_col
      → Inserting e
      → Inserting (backspace_char alnum toggled e)
  unfolding backspace_char
  backspace_char-Inserting e h i =
      let f = record (with_line (remove_at (e.cursor_col - 1)) e) {
        cursor_col = e.cursor_col - 1;
      } in
      let j = cut_before-Inserting e h i in
      let removed = char_at (e.cursor_col - 1) (current_line e) in
      elim (Bool-cases (closes_pair removed (e.cursor_col - 1) (current_line f))) [
        | inl c ↦ rw c (
            cut_at-Inserting f (closes_pair-inside removed (e.cursor_col - 1) (current_line f) c) j)
        | inr c ↦ rw c j
      ]

  checkpoint_if_non_modal-Inserting :
      (e : QueryEditor) → Inserting e → Inserting (checkpoint_if_non_modal alnum toggled e)
  unfolding checkpoint_if_non_modal
  checkpoint_if_non_modal-Inserting e i =
      if_keeps Inserting e.vim_enabled e (checkpoint alnum e) (λ h. i)
        (λ h. checkpoint-Inserting alnum e i)

  checkpoint_if_non_modal-cursor :
      (e : QueryEditor)
      → ((checkpoint_if_non_modal alnum toggled e).cursor_row ≡ e.cursor_row)
        × ((checkpoint_if_non_modal alnum toggled e).cursor_col ≡ e.cursor_col)
  unfolding checkpoint_if_non_modal checkpoint
  checkpoint_if_non_modal-cursor e =
      if_keeps (λ f. (f.cursor_row ≡ e.cursor_row) × (f.cursor_col ≡ e.cursor_col)) e.vim_enabled e
        (checkpoint alnum e) (λ h. (refl, refl)) (λ h. (refl, refl))

  checkpoint_before_typing-Inserting :
      (e : QueryEditor) → Inserting e → Inserting (checkpoint_before_typing alnum toggled e)
  unfolding checkpoint_before_typing
  checkpoint_before_typing-Inserting e i =
      if_keeps Inserting (e.vim_enabled || is_here alnum toggled e e.typing_run_end) e
        (checkpoint alnum e) (λ h. i) (λ h. checkpoint-Inserting alnum e i)

  run_ended-WellFormed : (e : QueryEditor) → WellFormed e → WellFormed (run_ended alnum toggled e)
  run_ended-WellFormed e w = record {
    rowed = record {
      row_in = w.rowed.row_in;
      undo_in = w.rowed.undo_in;
      redo_in = w.rowed.redo_in;
      register_in = w.rowed.register_in;
    };
    col_in = w.col_in;
  }

  -- The three keys that change the text.
  pub entered-Inserting :
      (e : QueryEditor) → Inserting e → Inserting (handle_insert_key alnum toggled enter e)
  unfolding handle_insert_key
  entered-Inserting e i =
      break_line-Inserting (checkpoint_if_non_modal alnum toggled e)
        (checkpoint_if_non_modal-Inserting e i)

  pub erased-Inserting :
      (e : QueryEditor) → Inserting e → Inserting (handle_insert_key alnum toggled backspace e)
  unfolding handle_insert_key
  erased-Inserting e i =
      let f = checkpoint_if_non_modal alnum toggled e in
      let j = checkpoint_if_non_modal-Inserting e i in
      if_keeps Inserting (ltb 0 e.cursor_col) _ _
        (λ h.
          backspace_char-Inserting f
            (omega (arith, positive (checkpoint_if_non_modal-cursor e).1 h)) j)
        (λ h.
          if_keeps Inserting (ltb 0 e.cursor_row) _ f
            (λ g.
              backspace_line-Inserting f
                (omega (arith, positive (checkpoint_if_non_modal-cursor e).0 g)) j)
            (λ g. j))

  pub typed-Inserting :
      (c : ℕ) (e : QueryEditor)
      → Inserting e
      → Inserting (handle_insert_key alnum toggled (char c false) e)
  unfolding handle_insert_key
  typed-Inserting c e i =
      let f = checkpoint_before_typing alnum toggled e in
      let j = type_char-Inserting c f (checkpoint_before_typing-Inserting e i) in
      if_keeps Inserting e.vim_enabled _ _ (λ h. j)
        (λ h. record {
          rowed = record {
            row_in = j.rowed.row_in;
            undo_in = j.rowed.undo_in;
            redo_in = j.rowed.redo_in;
            register_in = j.rowed.register_in;
          };
          inserts = j.inserts;
          col_in = j.col_in;
        })

  -- A key of Insert mode leaves the cursor of a well-formed editor in a line of the buffer, on a
  -- character or one behind the last, and every state to restore with a line in it.
  pub handle_insert_key-WellFormed :
      (k : InsertKey) (e : QueryEditor)
      → e.mode ≡ insert
      → WellFormed e
      → WellFormed (handle_insert_key alnum toggled k e)
  unfolding handle_insert_key
  handle_insert_key-WellFormed escape e m w =
      if_keeps WellFormed e.vim_enabled _ e
        (λ h.
          clamp_col-WellFormed (record e { mode = EditorMode.normal })
            (record {
              row_in = w.rowed.row_in;
              undo_in = w.rowed.undo_in;
              redo_in = w.rowed.redo_in;
              register_in = w.rowed.register_in;
            }))
        (λ h. w)
  handle_insert_key-WellFormed enter e m w =
      Inserting-WellFormed _ (entered-Inserting e (WellFormed-Inserting e m w))
  handle_insert_key-WellFormed backspace e m w =
      Inserting-WellFormed _ (erased-Inserting e (WellFormed-Inserting e m w))
  handle_insert_key-WellFormed left e m w = record {
    rowed = record {
      row_in = w.rowed.row_in;
      undo_in = w.rowed.undo_in;
      redo_in = w.rowed.redo_in;
      register_in = w.rowed.register_in;
    };
    col_in = omega (arith, w.col_in);
  }
  handle_insert_key-WellFormed right e m w = Inserting-WellFormed _ (record {
    rowed = record {
      row_in = w.rowed.row_in;
      undo_in = w.rowed.undo_in;
      redo_in = w.rowed.redo_in;
      register_in = w.rowed.register_in;
    };
    inserts = m;
    col_in = omega arith;
  })
  handle_insert_key-WellFormed up e m w =
      let r = run_ended-WellFormed e w in
      if_keeps WellFormed (ltb 0 e.cursor_row) _ _
        (λ h. clamp_col-WellFormed _ (record {
          row_in = omega (arith, w.rowed.row_in);
          undo_in = r.rowed.undo_in;
          redo_in = r.rowed.redo_in;
          register_in = r.rowed.register_in;
        }))
        (λ h. r)
  handle_insert_key-WellFormed down e m w =
      let r = run_ended-WellFormed e w in
      if_keeps WellFormed (ltb (e.cursor_row + 1) (length e.lines)) _ _
        (λ h. clamp_col-WellFormed _ (record {
          row_in = ground (arith, h);
          undo_in = r.rowed.undo_in;
          redo_in = r.rowed.redo_in;
          register_in = r.rowed.register_in;
        }))
        (λ h. r)
  handle_insert_key-WellFormed other e m w = w
  handle_insert_key-WellFormed (char c true) e m w = w
  handle_insert_key-WellFormed (char c false) e m w =
      Inserting-WellFormed _ (typed-Inserting c e (WellFormed-Inserting e m w))

  -- Insert mode does not select.
  pub handle_insert_key-Calm :
      (k : InsertKey) (e : QueryEditor)
      → e.mode ≡ insert
      → WellFormed e
      → Calm (handle_insert_key alnum toggled k e)
  unfolding handle_insert_key
  handle_insert_key-Calm escape e m w =
      if_keeps Calm e.vim_enabled _ e (λ h. refl) (λ h. ap is_visual m)
  handle_insert_key-Calm enter e m w =
      ap is_visual (entered-Inserting e (WellFormed-Inserting e m w)).inserts
  handle_insert_key-Calm backspace e m w =
      ap is_visual (erased-Inserting e (WellFormed-Inserting e m w)).inserts
  handle_insert_key-Calm left e m w = ap is_visual m
  handle_insert_key-Calm right e m w = ap is_visual m
  handle_insert_key-Calm up e m w =
      if_keeps Calm (ltb 0 e.cursor_row) _ _ (λ h. ap is_visual m) (λ h. ap is_visual m)
  handle_insert_key-Calm down e m w =
      if_keeps Calm (ltb (e.cursor_row + 1) (length e.lines)) _ _ (λ h. ap is_visual m)
        (λ h. ap is_visual m)
  handle_insert_key-Calm other e m w = ap is_visual m
  handle_insert_key-Calm (char c true) e m w = ap is_visual m
  handle_insert_key-Calm (char c false) e m w =
      ap is_visual (typed-Inserting c e (WellFormed-Inserting e m w)).inserts
