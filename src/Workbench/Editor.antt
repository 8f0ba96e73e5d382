-- ===== src/Workbench/Editor.antt =====
-- crates/tradar-query-workbench/src/components/query_editor.rs: the editor of a query, its state, its
-- history and its folds. The two caches are left out: they only hold what `foldable_ranges` and the
-- colors would be again; so is `pending`, which belongs to the key map.
pub mod Edits
pub mod Motions
pub mod Operators
pub mod Keys
pub mod Find
pub mod Screen
pub mod WellFormed
use tradar.Base.{
  ℕ, zero, suc, ◌+◌, ◌-◌, Bool, true, false, not, ◌&&◌, ◌||◌, List, [], ◌∷◌, ◌++◌, Option, none,
  some, ltb, leb, ◌==◌, if◌then◌else◌, length, get_elem?, take, drop, is_empty, any, filter, min,
  max, Text, text, len_utf8, join,
}
use tradar.Base.Lines.{lines}
use tradar.Core.VimList.{VimMove, apply}
use tradar.Query.Statements.{Statement, split_sql_statements}

pub data EditorMode : Type 0 where
  normal insert visual visual_line : EditorMode

pub data Operator : Type 0 where
  delete change yank : Operator

pub data Scope : Type 0 where
  inner around : Scope

-- The commands that the editor tells apart; `vim_move` are those of `as_vim_move`.
pub data Command : Type 0 where
  vim_move : VimMove → Command
  move_left move_right line_start line_end word_forward word_back word_end : Command
  enter_insert append insert_line_start append_line_end open_below open_above : Command
  enter_visual enter_visual_line delete_char delete_char_before paste_after paste_before : Command
  operator_delete operator_change operator_yank : Command
  delete_to_line_end change_to_line_end yank_to_line_end : Command
  toggle_fold join_lines toggle_case indent_line dedent_line repeat_last undo redo : Command
  yank_selection delete_selection change_selection other : Command

pub data RepeatableAction : Type 0 where
  deleted_char deleted_char_before deleted_line yanked_line pasted_after pasted_before :
      RepeatableAction
  toggled_case joined_lines indented_line dedented_line : RepeatableAction
  operator_motion : Operator → Command → RepeatableAction
  text_object : Operator → Scope → Command → RepeatableAction

pub data Register : Type 0 where
  charwise : Text → Register
  linewise : List Text → Register

pub data Dialect : Type 0 where
  plain_text sql : Dialect

pub record Snapshot : Type 0 where
  pub lines : List Text
  pub cursor_row : ℕ
  pub cursor_col : ℕ

abbrev pub max_undo_history : ℕ
max_undo_history = 500

pub record QueryEditor : Type 0 where
  pub mode : EditorMode
  pub vim_enabled : Bool
  pub dialect : Dialect
  pub lines : List Text
  pub cursor_row : ℕ
  pub cursor_col : ℕ
  pub pending_operator : Option Operator
  pub pending_scope : Option Scope
  pub last_action : Option RepeatableAction
  pub visual_anchor : Option (ℕ × ℕ)
  pub register : Option Register
  pub scroll : ℕ
  pub visible_height : ℕ
  pub undo_stack : List Snapshot
  pub redo_stack : List Snapshot
  pub typing_run_end : Option (ℕ × ℕ)
  pub folded : List ℕ

unfoldable pub new : QueryEditor
new = record {
  mode = normal;
  vim_enabled = true;
  dialect = plain_text;
  lines = [] ∷ [];
  cursor_row = 0;
  cursor_col = 0;
  pending_operator = none;
  pending_scope = none;
  last_action = none;
  visual_anchor = none;
  register = none;
  scroll = 0;
  visible_height = 0;
  undo_stack = [];
  redo_stack = [];
  typing_run_end = none;
  folded = [];
}

-- `lines[row]`; out of range, where Rust panics, an empty line
abbrev pub line_at : ℕ → List Text → Text
line_at row [] = []
line_at zero (l ∷ ls) = l
line_at (suc row) (l ∷ ls) = line_at row ls

abbrev pub current_line : QueryEditor → Text
current_line e = line_at e.cursor_row e.lines

abbrev pub is_visual : EditorMode → Bool
is_visual visual = true
is_visual visual_line = true
is_visual _ = false

-- The furthest column at which the cursor may rest in a line.
abbrev pub max_col : EditorMode → ℕ → ℕ
max_col insert len = len
max_col _ len = len - 1

unfoldable pub clamp_col : QueryEditor → QueryEditor
clamp_col e = record e { cursor_col = min e.cursor_col (max_col e.mode (length (current_line e))) }

unfoldable pub set_vim_enabled : Bool → QueryEditor → QueryEditor
set_vim_enabled enabled e = record e {
  vim_enabled = enabled;
  mode = if enabled then e.mode else insert;
}

unfoldable pub buffer_text : QueryEditor → Text
buffer_text e = join (text "\n") e.lines

unfoldable pub set_text : Text → QueryEditor → QueryEditor
unfolding lines
set_text s e = record e {
  lines = if is_empty s then [] ∷ [] else lines s;
  cursor_row = 0;
  cursor_col = 0;
  scroll = 0;
  mode = normal;
  visual_anchor = none;
  undo_stack = [];
  redo_stack = [];
  typing_run_end = none;
  folded = [];
}

-- The newlines in the first `offset` bytes.
unfoldable pub line_at_byte_offset : Text → ℕ → ℕ
unfolding len_utf8
line_at_byte_offset [] offset = 0
line_at_byte_offset (c ∷ cs) offset =
    let later = line_at_byte_offset cs (offset - len_utf8 c) in
    if offset == 0 then 0 else if c == b'\n' then suc later else later

abbrev pub statement_lines : Text → Statement → List (ℕ × ℕ)
statement_lines s stmt =
    let start_line = line_at_byte_offset s stmt.start in
    let end_line = line_at_byte_offset s (max (stmt.end - 1) stmt.start) in
    if ltb start_line end_line then (start_line, end_line) ∷ [] else []

abbrev pub all_lines : Text → List Statement → List (ℕ × ℕ)
all_lines s [] = []
all_lines s (stmt ∷ stmts) = statement_lines s stmt ++ all_lines s stmts

unfoldable pub foldable_ranges : (ℕ → Bool) → QueryEditor → List (ℕ × ℕ)
unfolding buffer_text line_at_byte_offset split_sql_statements
foldable_ranges alnum e = elim e.dialect [
  | plain_text ↦ []
  | sql ↦ all_lines (buffer_text e) (split_sql_statements alnum (buffer_text e))
]

-- `find`
abbrev pub first_range : (ℕ × ℕ → Bool) → List (ℕ × ℕ) → Option (ℕ × ℕ)
first_range p [] = none
first_range p (r ∷ rs) = if p r then some r else first_range p rs

abbrev pub is_folded : ℕ → List ℕ → Bool
is_folded start = any (λ f. f == start)

unfoldable pub fold_containing : (ℕ → Bool) → ℕ → QueryEditor → Option (ℕ × ℕ)
unfolding foldable_ranges
fold_containing alnum row e =
    first_range (λ r. is_folded r.0 e.folded && (ltb r.0 row && leb row r.1))
      (foldable_ranges alnum e)

-- The statement that the cursor is in.
abbrev pub range_at_cursor : (ℕ → Bool) → QueryEditor → Option (ℕ × ℕ)
range_at_cursor alnum e =
    first_range (λ r. leb r.0 e.cursor_row && leb e.cursor_row r.1) (foldable_ranges alnum e)

abbrev pub unfold_row : ℕ → List ℕ → List ℕ
unfold_row start = filter (λ f. not (f == start))

abbrev pub toggle_range : Option (ℕ × ℕ) → QueryEditor → QueryEditor
toggle_range none e = e
toggle_range (some (start, _)) e =
    if is_folded start e.folded
    then record e { folded = unfold_row start e.folded }
    else clamp_col (record e { folded = start ∷ e.folded; cursor_row = start })

unfoldable pub fold_toggled : (ℕ → Bool) → QueryEditor → QueryEditor
unfolding foldable_ranges clamp_col
fold_toggled alnum e = toggle_range (range_at_cursor alnum e) e

abbrev pub snapshot : QueryEditor → Snapshot
snapshot e = record { lines = e.lines; cursor_row = e.cursor_row; cursor_col = e.cursor_col }

abbrev pub opened : Option (ℕ × ℕ) → List ℕ → List ℕ
opened none folded = folded
opened (some (start, _)) folded = unfold_row start folded

-- The last entry of a stack stands at the front here; the oldest goes when there are too many.
abbrev pub drop_oldest : List Snapshot → List Snapshot
drop_oldest [] = []
drop_oldest (s ∷ []) = []
drop_oldest (s ∷ t ∷ stack) = s ∷ drop_oldest (t ∷ stack)

abbrev pub recorded : Snapshot → List Snapshot → List Snapshot
recorded s stack =
    if ltb max_undo_history (length (s ∷ stack)) then drop_oldest (s ∷ stack) else s ∷ stack

unfoldable pub checkpoint : (ℕ → Bool) → QueryEditor → QueryEditor
unfolding foldable_ranges
checkpoint alnum e = record e {
  typing_run_end = none;
  folded = opened (range_at_cursor alnum e) e.folded;
  undo_stack = recorded (snapshot e) e.undo_stack;
  redo_stack = [];
}

unfoldable pub restore : Snapshot → QueryEditor → QueryEditor
unfolding clamp_col
restore s e = clamp_col (record e {
  lines = s.lines;
  cursor_row = min s.cursor_row (length s.lines - 1);
  cursor_col = s.cursor_col;
})

abbrev pub undone : List Snapshot → QueryEditor → QueryEditor
undone [] e = e
undone (previous ∷ rest) e =
    restore previous (record e { undo_stack = rest; redo_stack = snapshot e ∷ e.redo_stack })

unfoldable pub undo_edit : QueryEditor → QueryEditor
unfolding restore
undo_edit e = undone e.undo_stack e

abbrev pub redone : List Snapshot → QueryEditor → QueryEditor
redone [] e = e
redone (next ∷ rest) e =
    restore next (record e { redo_stack = rest; undo_stack = snapshot e ∷ e.undo_stack })

unfoldable pub redo_edit : QueryEditor → QueryEditor
unfolding restore
redo_edit e = redone e.redo_stack e

abbrev pub past_fold : ℕ → Option (ℕ × ℕ) → QueryEditor → ℕ
past_fold target none e = target
past_fold target (some (start, end)) e =
    if leb e.cursor_row target then min (end + 1) (length e.lines - 1) else start

unfoldable pub move_row_to : (ℕ → Bool) → ℕ → QueryEditor → QueryEditor
unfolding fold_containing clamp_col
move_row_to alnum row e =
    let target = min row (length e.lines - 1) in
    clamp_col (record e { cursor_row = past_fold target (fold_containing alnum target e) e })

unfoldable pub scrolled : (ℕ → Bool) → VimMove → QueryEditor → QueryEditor
unfolding move_row_to apply
scrolled alnum mv e = move_row_to alnum (apply mv e.cursor_row (length e.lines) e.visible_height) e

unfoldable pub set_cursor : ℕ → ℕ → QueryEditor → QueryEditor
unfolding clamp_col
set_cursor row col e =
    clamp_col (record e { cursor_row = min row (length e.lines - 1); cursor_col = col })
