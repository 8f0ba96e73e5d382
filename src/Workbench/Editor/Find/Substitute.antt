-- ===== src/Workbench/Editor/Find/Substitute.antt =====
-- crates/tradar-query-workbench/src/components/query_editor.rs: `substitute`, with what it uses of
-- `str`: `contains`, `replace`, `replacen` of one match, and the count of `matches`.
use tradar.Base.{
  ℕ, zero, suc, ◌+◌, ◌-◌, Bool, true, false, List, [], ◌∷◌, ◌++◌, Option, none, some, if◌then◌else◌,
  length, take, drop, set_at, is_empty, Text, find, starts_with,
}
use tradar.Workbench.Editor.{QueryEditor, line_at, clamp_col, checkpoint}

-- `str::replace` and the count of `str::matches`, from the left and with no overlap; `skip` is how much
-- of a match is still to come. The pattern is not empty.
unfoldable pub replaced : Text → Text → ℕ → Text → Text
replaced pattern by skip [] = []
replaced pattern by (suc skip) (c ∷ cs) = replaced pattern by skip cs
replaced pattern by zero (c ∷ cs) =
    let behind = replaced pattern by (length pattern - 1) cs in
    let on = replaced pattern by zero cs in
    if starts_with pattern (c ∷ cs) then by ++ behind else c ∷ on

unfoldable pub match_count : Text → ℕ → Text → ℕ
match_count pattern skip [] = 0
match_count pattern (suc skip) (c ∷ cs) = match_count pattern skip cs
match_count pattern zero (c ∷ cs) =
    let behind = match_count pattern (length pattern - 1) cs in
    let on = match_count pattern zero cs in if starts_with pattern (c ∷ cs) then 1 + behind else on

-- `str::replacen(pattern, by, 1)`, for a match at `n`
abbrev pub replaced_at : ℕ → Text → Text → Text → Text
replaced_at n pattern by line = take n line ++ (by ++ drop (n + length pattern) line)

-- The line with what is replaced, and how much is.
abbrev pub substituted_line : Bool → ℕ → Text → Text → Text → Text × ℕ
substituted_line true n pattern by line = (replaced pattern by 0 line, match_count pattern 0 line)
substituted_line false n pattern by line = (replaced_at n pattern by line, 1)

-- The loop's variables.
pub record Pass : Type 0 where
  pub editor : QueryEditor
  pub total_count : ℕ
  pub checkpointed : Bool
  pub last_changed_row : Option ℕ

abbrev pub start_pass : QueryEditor → Pass
start_pass e = record { editor = e; total_count = 0; checkpointed = false; last_changed_row = none }

-- `0..n`, and the rows to go over
abbrev pub rows_from : ℕ → ℕ → List ℕ
rows_from row zero = []
rows_from row (suc n) = row ∷ rows_from (row + 1) n

abbrev pub rows_to_change : Bool → QueryEditor → List ℕ
rows_to_change true e = rows_from 0 (length e.lines)
rows_to_change false e = e.cursor_row ∷ []

module _ (alnum : ℕ → Bool) (pattern by : Text) (all_on_line : Bool) where
  abbrev pub changed_row : ℕ → Option ℕ → Pass → Pass
  changed_row row none pass = pass
  changed_row row (some n) pass =
      let e = if pass.checkpointed then pass.editor else checkpoint alnum pass.editor in
      let (new_line, count) = substituted_line all_on_line n pattern by (line_at row e.lines) in
      record {
        editor = record e { lines = set_at row new_line e.lines };
        total_count = pass.total_count + count;
        checkpointed = true;
        last_changed_row = some row;
      }

  unfoldable pub substitute_rows : List ℕ → Pass → Pass
  unfolding checkpoint find replaced match_count
  substitute_rows [] pass = pass
  substitute_rows (row ∷ rows) pass =
      substitute_rows rows (changed_row row (find pattern (line_at row pass.editor.lines)) pass)

  abbrev pub gone_to_row : Option ℕ → QueryEditor → QueryEditor
  gone_to_row none e = e
  gone_to_row (some row) e = clamp_col (record e { cursor_row = row })

  unfoldable pub substitute : Bool → QueryEditor → ℕ × QueryEditor
  unfolding substitute_rows clamp_col
  substitute whole_buffer e =
      let pass = substitute_rows (rows_to_change whole_buffer e) (start_pass e) in
      if is_empty pattern
      then (0, e)
      else (pass.total_count, gone_to_row pass.last_changed_row pass.editor)
