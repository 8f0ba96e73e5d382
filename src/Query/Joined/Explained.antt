-- ===== src/Query/Joined/Explained.antt =====
-- What an answer of `joined_column_sources` stands on.
use tradar.Base.{
  ℕ, suc, Bool, true, false, List, [], ◌∷◌, ◌++◌, Option, none, some, ◌≡◌, refl, ap, length, drop,
  Text, text, count,
}
use tradar.Query.Tokens.{SqlToken}
use tradar.Query.Source.{is_keyword, is_from, and_then}
use tradar.Query.Completion.{resolve_alias}
use tradar.Query.Joined.{up_to_from, select_items, is_star, sources_of}

-- The word is `alias.column`, and the alias is the table's.
pub record Qualified (alnum : ℕ → Bool) (tokens : List SqlToken) (word table : Text) : Type 0 where
  pub alias : Text
  pub column : Text
  pub word_is : word ≡ alias ++ b'.' ∷ column
  pub one_dot : count b'.' column ≡ 0
  pub resolves : resolve_alias alnum tokens alias ≡ some table

-- The answer for an item: a table only if the item begins with a word that is qualified by it.
abbrev pub Answers : (ℕ → Bool) → List SqlToken → List SqlToken → Option Text → Type 0
Answers alnum tokens item none = Unit
Answers alnum tokens [] (some table) = ⊥
Answers alnum tokens (first ∷ more) (some table) =
    Qualified alnum tokens first.word table × (is_star first more ≡ false)

abbrev pub AnswersAll :
    (ℕ → Bool) → List SqlToken → List (List SqlToken) → List (Option Text) → Type 0
AnswersAll alnum tokens [] [] = Unit
AnswersAll alnum tokens (item ∷ items) (o ∷ os) =
    Answers alnum tokens item o × AnswersAll alnum tokens items os
AnswersAll alnum tokens _ _ = ⊥

AnswersAll-length :
    (alnum : ℕ → Bool) (tokens : List SqlToken) (items : List (List SqlToken))
    (os : List (Option Text))
    → AnswersAll alnum tokens items os
    → length os ≡ length items
AnswersAll-length alnum tokens [] [] h = refl
AnswersAll-length alnum tokens (item ∷ items) (o ∷ os) h =
    ap suc (AnswersAll-length alnum tokens items os h.1)
AnswersAll-length alnum tokens [] (o ∷ os) h = absurd h
AnswersAll-length alnum tokens (item ∷ items) [] h = absurd h

-- The answers stand on the select list of the query.
pub record Explains (alnum : ℕ → Bool) (tokens : List SqlToken) (answers : List (Option Text))
    : Type 0 where
  pub select : SqlToken
  pub list : List SqlToken
  pub from : SqlToken
  pub rest : List SqlToken
  pub shape : tokens ≡ select ∷ (list ++ from ∷ rest)
  pub selects : is_keyword (text "select") select ≡ true
  pub at_from : is_from from ≡ true
  pub answer : AnswersAll alnum tokens (select_items list) answers

abbrev listed : (ℕ → Bool) → List SqlToken → Option (List (Option Text))
listed alnum tokens =
    and_then (up_to_from tokens) λ list. sources_of alnum tokens (select_items (drop 1 list))
