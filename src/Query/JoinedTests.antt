-- ===== src/Query/JoinedTests.antt =====
-- Runs of `joined_column_sources`, and its theorem at a join.
use tradar.Query.Completion.{is_alias_stopword}
use tradar.Base.{
  ℕ, Bool, false, List, [], ◌∷◌, none, some, ◌≡◌, refl, replicate, Text, text, is_alphanumeric,
  is_ascii_digit, is_whitespace, strip_prefix, to_ascii_lowercase, trim_start,
}
use tradar.Query.Tokens.{is_identifier, round, tokens_loop, word_end}
use tradar.Query.Joined.{joined_column_sources}

-- No letter or digit but those of ASCII.
abbrev ascii : ℕ → Bool
ascii c = false

abbrev join : Text
join = text "SELECT u.name, total, count(*), o.id FROM users u JOIN orders o ON o.uid = u.id"

abbrev four : List Text
four = text "name" ∷ text "total" ∷ text "count" ∷ text "id" ∷ []

join_sources :
    joined_column_sources ascii join four
    ≡ some (text "users") ∷ none ∷ none ∷ some (text "orders") ∷ []
unfolding joined_column_sources tokens_loop strip_prefix trim_start is_whitespace round
    is_alphanumeric word_end to_ascii_lowercase is_identifier is_ascii_digit is_alias_stopword
join_sources = refl

star_answers_nothing :
    joined_column_sources ascii (text "SELECT u.*, o.id FROM users u JOIN orders o ON a = b") four
    ≡ replicate 4 none
unfolding joined_column_sources tokens_loop strip_prefix trim_start is_whitespace round
    is_alphanumeric word_end to_ascii_lowercase
star_answers_nothing = refl

-- A computed column that begins with a qualified name is taken for a column of that table.
computed_column :
    joined_column_sources ascii
      (text "SELECT u.age + o.years AS age FROM users u JOIN orders o ON a = b")
      (text "age" ∷ [])
    ≡ some (text "users") ∷ []
unfolding joined_column_sources tokens_loop strip_prefix trim_start is_whitespace round
    is_alphanumeric word_end to_ascii_lowercase is_identifier is_ascii_digit is_alias_stopword
computed_column = refl
