-- ===== src/Workbench/Filter.antt =====
-- crates/tradar-query-workbench/src/filter.rs: the filter of the results grid. `to_lowercase` goes by
-- a table of Unicode and is an argument (`fold`).
pub mod Sound
use tradar.Base.{
  remove_at, ℕ, zero, suc, ◌+◌, Bool, true, false, not, ◌&&◌, ◌||◌, List, [], ◌∷◌, ◌++◌, map,
  Option, none, some, ◌==◌, ltb, if◌then◌else◌, length, drop, take, is_empty, any, all, get_elem?,
  filter, Text, text, is_whitespace, trim, join, split, eq_ignore_ascii_case, find, position,
}

pub record FilterCondition : Type 0 where
  pub column : Option (Text × ℕ)
  pub value : Text
  pub value_lower : Text

-- `str::split_whitespace`
abbrev pub split_whitespace : Text → List Text
split_whitespace s = filter (λ w. not (is_empty w)) (split is_whitespace s)

-- `str::contains`
abbrev pub has : Text → Text → Bool
has needle s = elim (find needle s) [ none ↦ false | some _ ↦ true ]

-- `iter().position(|c| c.eq_ignore_ascii_case(name))`, with the column
unfoldable pub column_named : Text → List Text → Option (Text × ℕ)
column_named name [] = none
column_named name (c ∷ cs) =
    let later = column_named name cs in
    if eq_ignore_ascii_case c name
    then some (c, 0)
    else elim later [ none ↦ none | some (d, i) ↦ some (d, suc i) ]

-- The filter, as its groups.
abbrev pub ParsedFilter : Type 0
ParsedFilter = List (List FilterCondition)

-- `if !current_group.is_empty() { groups.push(..) }`
abbrev pub push_group : ParsedFilter → List FilterCondition → ParsedFilter
push_group groups [] = groups
push_group groups (c ∷ group) = groups ++ (c ∷ group) ∷ []

module _ (fold : Text → Text) where
  abbrev pub bare_condition : Text → FilterCondition
  bare_condition raw = record { column = none; value = raw; value_lower = fold raw }

  -- With the column that stands in front of the colon, if it is one.
  abbrev pub scoped_or_bare : Text → Text → Option (Text × ℕ) → FilterCondition
  scoped_or_bare raw right none = bare_condition raw
  scoped_or_bare raw right (some column) = record {
    column = some column;
    value = trim right;
    value_lower = fold (trim right);
  }

  -- `FilterCondition::parse`
  unfoldable pub parse_condition : Text → List Text → FilterCondition
  unfolding position column_named
  parse_condition raw columns = elim (position b':' raw) [
    | none ↦ bare_condition raw
    | some i ↦ scoped_or_bare raw (drop (i + 1) raw) (column_named (trim (take i raw)) columns)
  ]

  -- `FilterCondition::matches_row`
  abbrev pub matches_cells : Option (Text × ℕ) → Text → List Text → Bool
  matches_cells none needle row = any (λ cell. has needle (fold cell)) row
  matches_cells (some (_, index)) needle row = elim (get_elem? row index) [
    | none ↦ false
    | some cell ↦ has needle (fold cell)
  ]

  unfoldable pub condition_matches_row : List Text → FilterCondition → Bool
  condition_matches_row row c = matches_cells c.column c.value_lower row

  unfoldable pub flush : List Text → List Text → List FilterCondition → List FilterCondition
  unfolding parse_condition join
  flush columns [] group = group
  flush columns (w ∷ words) group =
      group ++ parse_condition (join (text " ") (w ∷ words)) columns ∷ []

  -- The loop over the words that are left, with `current_words`, `current_group` and `groups`.
  unfoldable pub parse_loop :
      List Text → List Text → List FilterCondition → ParsedFilter → List Text → ParsedFilter
  unfolding flush
  parse_loop columns words group groups [] = push_group groups (flush columns words group)
  parse_loop columns words group groups (w ∷ ws) =
      let after_and = parse_loop columns [] (flush columns words group) groups ws in
      let after_or = parse_loop columns [] [] (push_group groups (flush columns words group)) ws in
      let after_word = parse_loop columns (words ++ w ∷ []) group groups ws in
      if eq_ignore_ascii_case w (text "and") && not (is_empty words)
      then after_and
      else if eq_ignore_ascii_case w (text "or") && not (is_empty words)
      then after_or
      else after_word

  -- `ParsedFilter::parse`
  unfoldable pub parse : Text → List Text → ParsedFilter
  unfolding parse_loop
  parse s columns = parse_loop columns [] [] [] (split_whitespace s)

  unfoldable pub matches_row : ParsedFilter → List Text → Bool
  unfolding condition_matches_row
  matches_row groups row = is_empty groups || any (all (condition_matches_row row)) groups

unfoldable pub matches_text : ParsedFilter → Text → Bool
matches_text groups text_lower =
    is_empty groups || any (all (λ (c : FilterCondition). has c.value_lower text_lower)) groups

-- The groups with `group`, if it is not empty, in front.
abbrev pub keep_group : List FilterCondition → ParsedFilter → ParsedFilter
keep_group [] groups = groups
keep_group (c ∷ group) groups = (c ∷ group) ∷ groups

unfoldable pub without : ℕ → ℕ → ParsedFilter → ParsedFilter
without group_index condition_index [] = []
without zero condition_index (group ∷ groups) = keep_group (remove_at condition_index group) groups
without (suc i) condition_index (group ∷ groups) = group ∷ without i condition_index groups

unfoldable pub render_condition : FilterCondition → Text
render_condition c = elim c.column [ none ↦ c.value | some (name, _) ↦ name ++ b':' ∷ c.value ]

unfoldable pub render : ParsedFilter → Text
unfolding render_condition join
render groups =
    join (text " OR ") (map (λ group. join (text " AND ") (map render_condition group)) groups)
