-- ===== src/Query/Source/Single.antt =====
-- What a query looks like that reads one table, and that `single_table_source` finds exactly those.
use tradar.Base.{ℕ, Bool, true, false, List, ◌∷◌, ◌++◌, ◌≡◌, any, Text, text}
use tradar.Query.Tokens.{SqlToken, is_identifier}
use tradar.Query.Source.{is_keyword, combines, is_from}
use tradar.Query.Source.Shape.{Behind}

-- `SELECT`, once and in front; no word at the top that combines rows; the first `FROM` at the top is
-- in front of the table's name, and the name, which may have an alias, ends the query or stands in
-- front of a clause.
pub record ReadsOne (alnum : ℕ → Bool) (tokens : List SqlToken) (name : Text) : Type 0 where
  pub first : SqlToken
  pub others : List SqlToken
  pub starts : tokens ≡ first ∷ others
  pub selects : is_keyword (text "select") first ≡ true
  pub once : any (is_keyword (text "select")) others ≡ false
  pub uncombined : any combines tokens ≡ false
  pub before : List SqlToken
  pub from : SqlToken
  pub table : SqlToken
  pub rest : List SqlToken
  pub shape : tokens ≡ before ++ from ∷ table ∷ rest
  pub before_from : any is_from before ≡ false
  pub at_from : is_from from ≡ true
  pub is_name : is_identifier alnum table.word ≡ true
  pub name_is : table.word ≡ name
  pub behind : Behind alnum rest

-- `FROM` is the first one.
record Found (ts rest : List SqlToken) : Type 0 where
  before : List SqlToken
  from : SqlToken
  shape : ts ≡ before ++ from ∷ rest
  before_from : any is_from before ≡ false
  at_from : is_from from ≡ true

module _ (alnum : ℕ → Bool) where
  -- What stands behind the first `FROM`, as a table and the rest.
  record Tail (ts : List SqlToken) (name : Text) : Type 0 where
    before : List SqlToken
    from : SqlToken
    table : SqlToken
    rest : List SqlToken
    shape : ts ≡ before ++ from ∷ table ∷ rest
    before_from : any is_from before ≡ false
    at_from : is_from from ≡ true
    is_name : is_identifier alnum table.word ≡ true
    name_is : table.word ≡ name
    behind : Behind alnum rest
