-- ===== src/Workbench/Editor/Find/Everywhere.antt =====
-- The search of Workbench/Editor/Find, as a whole.
use tradar.Base.{
  ℕ, ◌+◌, ◌≤◌, ◌<◌, Bool, true, false, List, [], ◌∷◌, Option, none, some, ◌≡◌, ◌⊎◌, inl, inr, refl,
  subst, arith, Bool-cases, length, is_empty, min, Text,
}
use tradar.Workbench.Editor.{QueryEditor, line_at, current_line, max_col, clamp_col}
use tradar.Workbench.Editor.Motions.{Pos}
use tradar.Workbench.Editor.Find.{matches_at, step_row, gone_to, find_pattern}
use tradar.Workbench.Editor.Find.Found.{
  Occurs, Sought, step_row-forward, step_row-backward, find_steps-Sought,
}
use tradar.Workbench.Editor.WellFormed.{WellFormed, clamp_col-WellFormed}
use tradar.Workbench.Editor.WellFormed.Edited.{max_col-ge}
use tradar.Workbench.Editor.WellFormed.Moved.{at_pos-Rowed}

-- The cursor has gone to an occurrence, or nothing has changed and there is none in the buffer.
abbrev pub Searched : Text → QueryEditor → Bool × QueryEditor → Type 0
Searched needle e (found, f) =
    ((found ≡ true)
      × WellFormed f
      × (f.lines ≡ e.lines)
      × Occurs (current_line f) needle f.cursor_col)
    ⊎ ((found ≡ false)
        × (f ≡ e)
        × ((row col : ℕ)
            → row < length e.lines
            → col + length needle ≤ length (line_at row e.lines)
            → matches_at (line_at row e.lines) needle col ≡ false))

row_searched :
    (backwards : Bool) (n row r : ℕ)
    → row < n
    → r < n
    → (s : ℕ) × (0 < s) × (s ≤ n) × (step_row backwards n row s ≡ r)
row_searched true n row r h g = step_row-backward n row r h g
row_searched false n row r h g = step_row-forward n row r h g

-- On an occurrence the cursor is in its line in every mode.
clamped : (a b : ℕ) → a ≤ b → min a b ≡ a
clamped a b h = omega arith

gone_to-Searched :
    (backwards : Bool) (needle : Text) (e : QueryEditor) (pos : Option Pos)
    → WellFormed e
    → 0 < length needle
    → Sought 0 (0 + (length e.lines + 1)) backwards needle e pos
    → Searched needle e (gone_to pos e)
unfolding clamp_col
gone_to-Searched backwards needle e (some (row, col)) w n (r, (h, fits)) =
    let line = line_at row e.lines in
    let inside : col ≤ max_col e.mode (length line) =
      omega (arith, max_col-ge e.mode (length line), fits, n) in
    inl (
      refl,
      clamp_col-WellFormed _ (at_pos-Rowed (row, col) e r w.rowed),
      refl,
      rw (clamped col (max_col e.mode (length line)) inside) (h, fits),
    )
gone_to-Searched backwards needle e none w n none_found = inr (
  refl,
  refl,
  λ row col r fits.
      let (s, positive, last, same) =
        row_searched backwards (length e.lines) e.cursor_row row w.rowed.row_in r in
      subst
        (λ row.
          col + length needle ≤ length (line_at row e.lines)
          → matches_at (line_at row e.lines) needle col ≡ false)
        same (none_found s (omega arith) (omega (arith, last)) col positive) fits,
)

no_lines : {row : ℕ} (ls : List Text) → row < length ls → is_empty ls ≡ true → ⊥
no_lines [] h e = omega (arith, h)
no_lines (l ∷ ls) h e = cc

-- A search for a pattern with a character in it, in either direction, says whether the pattern occurs
-- in a line of the buffer, whatever the case of ASCII letters: if it does, the cursor of a well-formed
-- editor goes to an occurrence, and if not, nothing changes. The lines stay as they are.
pub find_pattern-Searched :
    (needle : Text) (backwards : Bool) (e : QueryEditor)
    → WellFormed e
    → 0 < length needle
    → Searched needle e (find_pattern needle backwards e)
unfolding find_pattern
find_pattern-Searched [] backwards e w n = absurd (omega (arith, n))
find_pattern-Searched (c ∷ needle) backwards e w n = elim (Bool-cases (is_empty e.lines)) [
  | inl h ↦ absurd (no_lines e.lines w.rowed.row_in h)
  | inr h ↦ rw h (
      gone_to-Searched backwards (c ∷ needle) e _ w n
        (find_steps-Sought (length e.lines + 1) 0 backwards (c ∷ needle) e w.rowed n))
]
