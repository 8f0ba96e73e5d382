-- ===== src/Workbench/Editor/Edits.antt =====
-- crates/tradar-query-workbench/src/components/query_editor.rs: the edits of the buffer. `alnum` is
-- the table of letters that the splitter of statements needs, `toggled` a character in its other case.
use tradar.Base.{
  ℕ, zero, suc, ◌+◌, ◌-◌, Bool, false, not, ◌&&◌, ◌||◌, List, [], ◌∷◌, ◌++◌, Option, none, some,
  ltb, leb, ◌==◌, if◌then◌else◌, length, get_elem?, take, drop, replicate, remove_at, insert_at,
  set_at, is_empty, take_while, drop_while, min, Text, text, split, is_whitespace, is_alphanumeric,
}
use tradar.Workbench.Editor.{
  QueryEditor, insert, Register, charwise, linewise, line_at, current_line, clamp_col, checkpoint,
}

-- The line of the cursor, changed.
abbrev pub with_line : (Text → Text) → QueryEditor → QueryEditor
with_line f e = record e { lines = set_at e.cursor_row (f (current_line e)) e.lines }

unfoldable pub insert_char : ℕ → QueryEditor → QueryEditor
insert_char c e = record (with_line (insert_at e.cursor_col c) e) { cursor_col = e.cursor_col + 1 }

-- `insert_char` for each character
unfoldable pub insert_chars : Text → QueryEditor → QueryEditor
unfolding insert_char
insert_chars [] e = e
insert_chars (c ∷ cs) e = insert_chars cs (insert_char c e)

unfoldable pub auto_close_for : ℕ → Option ℕ
auto_close_for c =
    if c == b'('
    then some b')'
    else if c == b'['
    then some b']'
    else if c == b'{'
    then some b'}'
    else if c == b'"' || c == b'\''
    then some c
    else none

unfoldable pub is_closer : ℕ → Bool
is_closer c = c == b')' || c == b']' || c == b'}' || c == b'"' || c == b'\''

-- `get(col) == Some(&c)`
abbrev pub is_at : ℕ → ℕ → Text → Bool
is_at c col line = elim (get_elem? line col) [ none ↦ false | some d ↦ d == c ]

abbrev pub closed_by : Option ℕ → ℕ → QueryEditor → QueryEditor
closed_by none c e = insert_char c e
closed_by (some closer) c e =
    let f = insert_char closer (insert_char c e) in record f { cursor_col = f.cursor_col - 1 }

unfoldable pub type_char : ℕ → QueryEditor → QueryEditor
unfolding insert_char auto_close_for is_closer
type_char c e =
    if is_closer c && is_at c e.cursor_col (current_line e)
    then record e { cursor_col = e.cursor_col + 1 }
    else closed_by (auto_close_for c) c e

-- The line is broken at the cursor, which goes to the start of the new one.
unfoldable pub break_line : QueryEditor → QueryEditor
break_line e = record e {
  lines =
      insert_at (e.cursor_row + 1) (drop e.cursor_col (current_line e))
        (set_at e.cursor_row (take e.cursor_col (current_line e)) e.lines);
  cursor_row = e.cursor_row + 1;
  cursor_col = 0;
}

abbrev pub insert_pieces : List Text → QueryEditor → QueryEditor
insert_pieces [] e = e
insert_pieces (piece ∷ pieces) e = insert_pieces pieces (insert_chars piece (break_line e))

abbrev pub first_piece : List Text → QueryEditor → QueryEditor
first_piece [] e = e
first_piece (piece ∷ pieces) e = insert_pieces pieces (insert_chars piece e)

unfoldable pub insert_multiline : Text → QueryEditor → QueryEditor
unfolding split insert_chars break_line
insert_multiline s e = first_piece (split (λ c. c == b'\n') s) e

abbrev pub char_at : ℕ → Text → Text
char_at col line = take 1 (drop col line)

abbrev pub toggle_at : (ℕ → ℕ) → ℕ → Text → Text
toggle_at toggled col [] = []
toggle_at toggled zero (c ∷ cs) = toggled c ∷ cs
toggle_at toggled (suc col) (c ∷ cs) = c ∷ toggle_at toggled col cs

abbrev pub insert_all_at : ℕ → List Text → List Text → List Text
insert_all_at at [] lines = lines
insert_all_at at (l ∷ ls) lines = insert_all_at (at + 1) ls (insert_at at l lines)

abbrev pub pasted : Bool → Register → QueryEditor → QueryEditor
pasted before (linewise ls) e =
    let at = if before then e.cursor_row else e.cursor_row + 1 in
    record e { lines = insert_all_at at ls e.lines; cursor_row = at; cursor_col = 0 }
pasted before (charwise chars) e = insert_multiline chars (record e {
  cursor_col = if before then e.cursor_col else min (e.cursor_col + 1) (length (current_line e));
})

-- `dd`: the line goes, or is emptied if it is the only one.
unfoldable pub delete_current_line : QueryEditor → QueryEditor
unfolding clamp_col
delete_current_line e =
    let left = remove_at e.cursor_row e.lines in
    let fewer = record e { lines = left; cursor_row = min e.cursor_row (length left - 1) } in
    let emptied = record e { lines = set_at 0 [] e.lines; cursor_col = 0 } in
    let removed = if ltb 1 (length e.lines) then current_line e else line_at 0 e.lines in
    clamp_col (record (if ltb 1 (length e.lines) then fewer else emptied) {
      register = some (linewise (removed ∷ []));
    })

unfoldable pub yank_current_line : QueryEditor → QueryEditor
yank_current_line e = record e { register = some (linewise (current_line e ∷ [])) }

-- `cc`
unfoldable pub change_current_line : QueryEditor → QueryEditor
change_current_line e = record (with_line (λ l. []) e) {
  register = some (linewise (current_line e ∷ []));
  cursor_col = 0;
  mode = insert;
}

abbrev pub indent_width : ℕ
indent_width = 4

-- The line with the next one behind it; a space stands between two that are not empty.
abbrev pub joined : Text → Text → Text
joined line trimmed =
    (line ++ (if ltb 0 (length line) && not (is_empty trimmed) then text " " else [])) ++ trimmed

-- How many spaces a line can lose.
abbrev pub removable : Text → ℕ
removable line = length (take_while (λ c. c == b' ') (take indent_width line))

module _ (alnum : ℕ → Bool) where
  unfoldable pub insert_at_cursor : Text → QueryEditor → QueryEditor
  unfolding checkpoint insert_multiline
  insert_at_cursor s e = record (insert_multiline s (checkpoint alnum e)) { mode = insert }

  -- `is_word_char`
  unfoldable pub is_word_char : ℕ → Bool
  unfolding is_alphanumeric
  is_word_char c = is_alphanumeric alnum c || (c == b'_' || c == b'$')

  -- `rposition(|c| !is_word_char(*c)).map_or(0, |i| i + 1)`
  abbrev pub word_start : Text → ℕ → ℕ → ℕ
  word_start [] i start = start
  word_start (c ∷ cs) i start = word_start cs (i + 1) (if is_word_char c then start else i + 1)

  unfoldable pub word_before_cursor : QueryEditor → Text
  unfolding is_word_char
  word_before_cursor e =
      let before = take e.cursor_col (current_line e) in drop (word_start before 0 0) before

  unfoldable pub replace_word_before_cursor : Text → QueryEditor → QueryEditor
  unfolding checkpoint is_word_char clamp_col
  replace_word_before_cursor s e =
      let before = take e.cursor_col (current_line e) in
      let start = word_start before 0 0 in
      let f = with_line (λ l. take start l ++ (s ++ drop (length before) l)) (checkpoint alnum e) in
      clamp_col (record f { cursor_col = start + length s })

  unfoldable pub delete_char_under_cursor : QueryEditor → QueryEditor
  unfolding checkpoint clamp_col
  delete_char_under_cursor e =
      let f = with_line (remove_at e.cursor_col) (checkpoint alnum e) in
      if ltb e.cursor_col (length (current_line e))
      then clamp_col
          (record f { register = some (charwise (char_at e.cursor_col (current_line e))) })
      else e

  unfoldable pub delete_char_before_cursor : QueryEditor → QueryEditor
  unfolding checkpoint
  delete_char_before_cursor e =
      let col = e.cursor_col - 1 in
      let f = with_line (remove_at col) (checkpoint alnum e) in
      if ltb 0 e.cursor_col
      then record f { cursor_col = col; register = some (charwise (char_at col (current_line e))) }
      else e

  unfoldable pub case_toggled : (ℕ → ℕ) → QueryEditor → QueryEditor
  unfolding checkpoint
  case_toggled toggled e =
      let line = current_line e in
      let f = with_line (λ l. toggle_at toggled e.cursor_col l) (checkpoint alnum e) in
      if leb (length line) e.cursor_col
      then e
      else record f { cursor_col = min (e.cursor_col + 1) (length line - 1) }

  unfoldable pub lines_joined : QueryEditor → QueryEditor
  unfolding checkpoint is_whitespace clamp_col
  lines_joined e =
      let trimmed = drop_while is_whitespace (line_at (e.cursor_row + 1) e.lines) in
      let f = checkpoint alnum e in
      let joined_line = joined (current_line e) trimmed in
      if leb (length e.lines) (e.cursor_row + 1)
      then e
      else clamp_col (record f {
        lines = set_at e.cursor_row joined_line (remove_at (e.cursor_row + 1) e.lines);
        cursor_col = length (current_line e);
      })

  unfoldable pub line_indented : QueryEditor → QueryEditor
  unfolding checkpoint clamp_col
  line_indented e =
      let f = with_line (λ l. replicate indent_width b' ' ++ l) (checkpoint alnum e) in
      clamp_col
        (record f { cursor_col = min (e.cursor_col + indent_width) (length (current_line f)) })

  unfoldable pub line_dedented : QueryEditor → QueryEditor
  unfolding checkpoint clamp_col
  line_dedented e =
      let n = removable (current_line e) in
      let f = with_line (drop n) (checkpoint alnum e) in
      if n == 0 then e else clamp_col (record f { cursor_col = e.cursor_col - n })

  abbrev pub paste_from : Bool → Option Register → QueryEditor → QueryEditor
  paste_from before none e = e
  paste_from before (some register) e = clamp_col (pasted before register (checkpoint alnum e))

  unfoldable pub paste : Bool → QueryEditor → QueryEditor
  unfolding checkpoint insert_multiline clamp_col
  paste before e = paste_from before e.register e
