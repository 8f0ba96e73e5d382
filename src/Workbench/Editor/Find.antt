-- ===== src/Workbench/Editor/Find.antt =====
-- crates/tradar-query-workbench/src/components/query_editor.rs: where the cursor is in the text of the
-- buffer, what is selected, and the search for a pattern.
pub mod Found
pub mod Everywhere
pub mod Substitute
use tradar.Base.{
  ℕ, zero, suc, ◌+◌, ◌-◌, ◌%◌, Bool, true, false, not, ◌&&◌, ◌||◌, List, [], ◌∷◌, ◌++◌, Option,
  none, some, ltb, leb, ◌==◌, if◌then◌else◌, length, take, drop, is_empty, min, Text, len, len_utf8,
  to_ascii_lowercase,
}
use tradar.Workbench.Editor.{QueryEditor, is_visual, line_at, current_line, clamp_col, buffer_text}
use tradar.Workbench.Editor.Motions.{Pos, at_pos}
use tradar.Workbench.Editor.Operators.{selection_bounds, is_linewise}

-- The bytes of lines, each with a newline behind it.
abbrev pub bytes_above : List Text → ℕ
bytes_above [] = 0
bytes_above (l ∷ ls) = len l + 1 + bytes_above ls

unfoldable pub cursor_offset : QueryEditor → ℕ
unfolding len
cursor_offset e = bytes_above (take e.cursor_row e.lines) + len (take e.cursor_col (current_line e))

-- `text[..offset]`
unfoldable pub slice_to : ℕ → Text → Text
unfolding len_utf8
slice_to offset [] = []
slice_to offset (c ∷ cs) =
    let rest = slice_to (offset - len_utf8 c) cs in if offset == 0 then [] else c ∷ rest

unfoldable pub text_before_cursor : QueryEditor → Text
unfolding buffer_text cursor_offset slice_to len
text_before_cursor e = slice_to (min (cursor_offset e) (len (buffer_text e))) (buffer_text e)

abbrev pub in_columns : ℕ → ℕ → Pos → Pos → Bool
in_columns row col (sr, sc) (er, ec) =
    if row == sr && row == er
    then leb sc col && leb col ec
    else if row == sr
    then leb sc col
    else if row == er
    then leb col ec
    else true

unfoldable pub is_selected : ℕ → ℕ → QueryEditor → Bool
unfolding selection_bounds
is_selected row col e =
    let (start, end) = selection_bounds e in
    if not (is_visual e.mode)
    then false
    else if ltb row start.0 || ltb end.0 row
    then false
    else if is_linewise e.mode
    then true
    else in_columns row col start end

-- `zip` with `all`
abbrev pub alike : Text → Text → Bool
alike [] needle = true
alike (a ∷ haystack) [] = true
alike (a ∷ haystack) (b ∷ needle) =
    to_ascii_lowercase a == to_ascii_lowercase b && alike haystack needle

-- `haystack[at..at + needle.len()]`, which is in the line wherever it is asked for
unfoldable pub matches_at : Text → Text → ℕ → Bool
unfolding to_ascii_lowercase
matches_at haystack needle at = alike (take (length needle) (drop at haystack)) needle

-- The first and the last of `n` indices from `i` at which `p` holds.
abbrev pub first_index : (ℕ → Bool) → ℕ → ℕ → Option ℕ
first_index p zero i = none
first_index p (suc n) i = let rest = first_index p n (i + 1) in if p i then some i else rest

abbrev pub or_index : Option ℕ → Option ℕ → Option ℕ
or_index none other = other
or_index (some i) other = some i

abbrev pub last_index : (ℕ → Bool) → ℕ → ℕ → Option ℕ
last_index p zero i = none
last_index p (suc n) i = or_index (last_index p n (i + 1)) (if p i then some i else none)

-- Neither is asked for an empty pattern.
abbrev pub fits : Text → Text → Bool
fits haystack needle = not (is_empty needle) && leb (length needle) (length haystack)

unfoldable pub find_in_line : Text → Text → ℕ → Option ℕ
unfolding matches_at
find_in_line haystack needle from_col =
    let from = min from_col (length haystack) in
    if fits haystack needle
    then first_index (matches_at haystack needle) (length haystack - length needle + 1 - from) from
    else none

unfoldable pub rfind_in_line : Text → Text → ℕ → Option ℕ
unfolding matches_at
rfind_in_line haystack needle before_col =
    if fits haystack needle
    then last_index (λ i. ltb i before_col && matches_at haystack needle i)
        (length haystack - length needle + 1) 0
    else none

-- The row of a step; the rows come round.
abbrev pub step_row : Bool → ℕ → ℕ → ℕ → ℕ
step_row backwards n row step = if backwards then (row + n - step % n) % n else (row + step) % n

abbrev pub find_in_row : Bool → ℕ → Text → Text → ℕ → Option ℕ
find_in_row backwards step needle line col =
    if backwards
    then rfind_in_line line needle (if step == 0 then col else length line)
    else find_in_line line needle (if step == 0 then col + 1 else 0)

-- `n` steps from `step` on
abbrev pub find_steps : ℕ → ℕ → Bool → Text → QueryEditor → Option Pos
find_steps zero step backwards needle e = none
find_steps (suc n) step backwards needle e =
    let row = step_row backwards (length e.lines) e.cursor_row step in
    let rest = find_steps n (step + 1) backwards needle e in
    elim (find_in_row backwards step needle (line_at row e.lines) e.cursor_col) [
      | none ↦ rest
      | some col ↦ some (row, col)
    ]

abbrev pub gone_to : Option Pos → QueryEditor → Bool × QueryEditor
gone_to none e = (false, e)
gone_to (some pos) e = (true, clamp_col (at_pos pos e))

unfoldable pub find_pattern : Text → Bool → QueryEditor → Bool × QueryEditor
unfolding find_in_line rfind_in_line clamp_col
find_pattern needle backwards e =
    if is_empty needle || is_empty e.lines
    then (false, e)
    else gone_to (find_steps (length e.lines + 1) 0 backwards needle e) e
