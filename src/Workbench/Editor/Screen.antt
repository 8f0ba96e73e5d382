-- ===== src/Workbench/Editor/Screen.antt =====
-- crates/tradar-query-workbench/src/components/query_editor.rs: what `draw` changes of the editor: the
-- height that it has on the screen, and how far it is scrolled.
pub mod Window
use tradar.Base.{
  ℕ, zero, suc, ◌+◌, ◌-◌, Bool, not, ◌&&◌, List, [], ◌∷◌, Option, none, some, ltb, leb, ◌==◌,
  if◌then◌else◌, length, any, filter,
}
use tradar.Workbench.Editor.{QueryEditor, foldable_ranges, is_folded}
use tradar.Workbench.Editor.Find.Substitute.{rows_from}

-- `visible.iter().position(p)`
abbrev pub index_where : (ℕ → Bool) → List ℕ → Option ℕ
index_where p [] = none
index_where p (row ∷ rows) =
    let later = index_where p rows in
    if p row then some 0 else elim later [ none ↦ none | some i ↦ some (suc i) ]

abbrev pub or_first : Option ℕ → ℕ
or_first none = 0
or_first (some i) = i

-- `visible[i]`; out of range, where Rust panics, the first row
abbrev pub row_at : ℕ → List ℕ → ℕ
row_at i [] = 0
row_at zero (row ∷ rows) = row
row_at (suc i) (row ∷ rows) = row_at i rows

abbrev pub scroll_to : Option ℕ → List ℕ → QueryEditor → QueryEditor
scroll_to none visible e = e
scroll_to (some cursor_idx) visible e =
    let scroll_idx = or_first (index_where (leb e.scroll) visible) in
    if ltb cursor_idx scroll_idx
    then record e { scroll = e.cursor_row }
    else if leb (scroll_idx + e.visible_height) cursor_idx
    then record e { scroll = row_at (cursor_idx + 1 - e.visible_height) visible }
    else e

unfoldable pub scroll_into_view : List ℕ → QueryEditor → QueryEditor
scroll_into_view visible e =
    let moved = scroll_to (index_where (λ row. row == e.cursor_row) visible) visible e in
    if e.visible_height == 0 then e else moved

module _ (alnum : ℕ → Bool) where
  -- `hidden_rows`, as a test
  unfoldable pub is_hidden : QueryEditor → ℕ → Bool
  unfolding foldable_ranges
  is_hidden e row =
      any (λ r. is_folded r.0 e.folded && (ltb r.0 row && leb row r.1)) (foldable_ranges alnum e)

  abbrev pub visible_rows : QueryEditor → List ℕ
  visible_rows e = filter (λ row. not (is_hidden e row)) (rows_from 0 (length e.lines))

  -- `draw` in an area of a height, its border taken off
  unfoldable pub drawn : ℕ → QueryEditor → QueryEditor
  unfolding scroll_into_view is_hidden
  drawn height e =
      let f = record e { visible_height = height - 1 } in scroll_into_view (visible_rows f) f
