-- ===== src/Workbench/Editor/Screen/Window.antt =====
-- `draw` scrolls so that the row of the cursor is on the screen.
use tradar.Base.{ℕ, ◌+◌, ◌≤◌, ◌<◌, List, [], ◌∷◌, leb, All}
use tradar.Workbench.Editor.{QueryEditor}
use tradar.Workbench.Editor.Screen.{index_where, or_first}

abbrev Ascending : List ℕ → Type 0
Ascending [] = Unit
Ascending (row ∷ rows) = All (λ r. row < r) rows × Ascending rows

-- The top of the window, among the visible rows.
abbrev pub top : ℕ → List ℕ → ℕ
top scroll visible = or_first (index_where (leb scroll) visible)

abbrev InWindow : List ℕ → ℕ → QueryEditor → Type 0
InWindow visible k e = (top e.scroll visible ≤ k) × (k < top e.scroll visible + e.visible_height)
