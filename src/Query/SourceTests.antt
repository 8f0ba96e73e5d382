-- ===== src/Query/SourceTests.antt =====
-- Runs of the readers of a query, and their theorems at inputs that exercise them.
use tradar.Base.{
  ℕ, suc, ◌≤◌, ◌<◌, Bool, false, List, [], ◌∷◌, ◌++◌, Option, none, some, ◌≡◌, ◌≢◌, refl, sym, ap,
  inl, inr, arith, All, length, Text, text, eq, eq_ignore_ascii_case, any, map,
}
use tradar.Query.Schema.{SchemaInfo, schema_new}
use tradar.Query.Tokens.{SqlToken, sql_tokens, tokens_loop}
use tradar.Query.Tokens.Slices.{Slices}
use tradar.Query.Source.{single_table_source, qualify_colliding_names}
use tradar.Query.Source.Names.{Pairs, SameEntry, Plain, qualify_colliding_names-apart}

-- No letter or digit beyond ASCII.
abbrev ascii : ℕ → Bool
ascii c = false

abbrev query : Text
query = text "-- all\nSELECT coalesce(a, 'join') FROM public.users AS u WHERE x -- from\n"

one_source :
    (single_table_source ascii query ≡ some (text "public.users"))
    × (single_table_source ascii (text "SELECT * FROM users, orders") ≡ none)
    × (single_table_source ascii (text "SELECT * FROM a JOIN b ON a.id = b.id") ≡ none)
unfolding single_table_source sql_tokens tokens_loop tradar.Base.strip_prefix tradar.Base.trim_start
    tradar.Base.is_whitespace tradar.Base.find tradar.Query.Tokens.round tradar.Base.is_alphanumeric
    eq tradar.Query.Tokens.word_end tradar.Base.to_ascii_lowercase tradar.Query.Tokens.behind_quote
    tradar.Query.Tokens.line_end tradar.Query.Tokens.is_identifier tradar.Base.is_ascii_digit
    tradar.Query.Tokens.is_clause_keyword
one_source = (refl, refl, refl)

-- The snippet for a read quotes the table, and a quoted name is not one that is recognised.
quoted_source : single_table_source ascii (text "SELECT * FROM \"users\" LIMIT 100") ≡ none
unfolding single_table_source sql_tokens tokens_loop tradar.Base.strip_prefix tradar.Base.trim_start
    tradar.Base.is_whitespace tradar.Base.find tradar.Query.Tokens.round tradar.Base.is_alphanumeric
    eq tradar.Query.Tokens.word_end tradar.Base.to_ascii_lowercase tradar.Query.Tokens.behind_quote
    tradar.Query.Tokens.line_end tradar.Query.Tokens.is_identifier tradar.Base.is_ascii_digit
    tradar.Query.Tokens.is_clause_keyword
quoted_source = refl

abbrev plain_query : Text
plain_query = text "select a from t"

-- Two tables with a name, and one without a schema.
abbrev schema : List SchemaInfo
schema =
    record (schema_new (text "users")) { schema = some (text "a") }
    ∷ record (schema_new (text "users")) { schema = some (text "b") }
    ∷ schema_new (text "orders")
    ∷ []

schema_names :
    map (λ (e : SchemaInfo). e.name) (qualify_colliding_names schema)
    ≡ text "a.users" ∷ text "b.users" ∷ text "orders" ∷ []
unfolding qualify_colliding_names schema_new eq
schema_names = refl

schema-Plain : All Plain schema
unfolding schema_new
schema-Plain = (refl, (refl, (refl, tt)))

schema-apart : Pairs (λ a b. ¬ SameEntry a b) schema
unfolding schema_new
schema-apart = (
  (λ s. ground (arith, s), (λ s. ground (arith, s), tt)),
  ((λ s. ground (arith, s), tt), (tt, tt)),
)

qualify_colliding_names-apart_example :
    Pairs (λ a b. a.name ≢ b.name) (qualify_colliding_names schema)
qualify_colliding_names-apart_example =
    qualify_colliding_names-apart schema schema-Plain schema-apart
