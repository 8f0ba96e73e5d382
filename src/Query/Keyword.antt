-- ===== src/Query/Keyword.antt =====
-- crates/tradar-query/src/sql_split.rs: what a statement's leading keyword says about it.
-- The comments in front of it are stripped as `Statements.strip_leading_comments` does.
pub mod Leading
use tradar.Base.{
  ℕ, Bool, true, false, not, ◌&&◌, ◌||◌, List, [], ◌∷◌, Option, none, some, ◌==◌, if◌then◌else◌,
  is_empty, any, Text, text, is_whitespace, is_alphanumeric, lower, eq, one_of, split,
}
use tradar.Query.Statements.{strip_leading_comments}

-- `.find(|word| !word.is_empty()).unwrap_or_default()`
unfoldable pub first_word : List Text → Text
first_word [] = []
first_word ([] ∷ ws) = first_word ws
first_word ((c ∷ cs) ∷ ws) = c ∷ cs

abbrev pub row_keywords : List Text
row_keywords =
    text "select"
    ∷ text "with"
    ∷ text "values"
    ∷ text "show"
    ∷ text "explain"
    ∷ text "pragma"
    ∷ text "describe"
    ∷ text "desc"
    ∷ text "table"
    ∷ []

unfoldable pub returns_rows : (ℕ → Bool) → Text → Bool
unfolding first_word strip_leading_comments
returns_rows alnum sql =
    let normalized = lower (strip_leading_comments sql) in
    let words = split (λ c. not (is_alphanumeric alnum c) && not (c == b'_')) normalized in
    let first = first_word (split (λ c. is_whitespace c || c == b'(') normalized) in
    if any (λ word. eq word (text "returning")) words then true else one_of first row_keywords

pub data TransactionControl : Type 0 where
  begin commit rollback : TransactionControl

unfoldable pub transaction_control : Text → Option TransactionControl
unfolding first_word strip_leading_comments
transaction_control sql =
    let normalized = lower (strip_leading_comments sql) in
    let first = first_word (split (λ c. is_whitespace c || c == b'(' || c == b';') normalized) in
    if one_of first (text "begin" ∷ text "start" ∷ [])
    then some begin
    else if one_of first (text "commit" ∷ text "end" ∷ [])
    then some commit
    else if eq first (text "rollback")
    then some rollback
    else none
