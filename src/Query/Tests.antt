-- ===== src/Query/Tests.antt =====
-- Runs of the definitions of crates/tradar-query, and the theorems at inputs that exercise them.
use tradar.Base.{
  ℕ, zero, suc, ◌+◌, ◌-◌, ◌<◌, ◌≤◌, Bool, true, false, List, [], ◌∷◌, ◌++◌, map, Option, none, some,
  ◌≡◌, ◌≢◌, ◌↔◌, ◌⊎◌, refl, inl, inr, arith, All, Text, text, len, trim, trim_start, trim_end, find,
  strip_prefix, is_whitespace, is_alphanumeric, join, split, replace, eq, length, count, position,
  decimal, replicate,
}
use tradar.Query.Statements.{split_sql_statements, strip_leading_comments}
use tradar.Query.Statements.Cover.{IsPlaced, split-IsPlaced, Ordered, split-Ordered}
use tradar.Query.Statements.Lexed.{Sliced}
use tradar.Query.Statements.Found.{Found, split-Found}
use tradar.Query.Keyword.{returns_rows, transaction_control, begin}
use tradar.Query.Keyword.Leading.{Leads, here, blank, line, classify-Leads, IsBare, strip-IsBare}
use tradar.Query.Caret.{line_and_caret}
use tradar.Query.Caret.Line.{IsLine, line_and_caret_inside}
use tradar.Query.Edit.{
  RowEdit, set_value, set_values, build_sql_edit, build_sql_insert, build_table_ddl, create_table,
}
use tradar.Query.Edit.Single.{texts, split-build_sql_edit, split-build_sql_insert}
use tradar.Query.Edit.Requests.{change_request, read_request-build_sql_edit}
use tradar.Query.Edit.Reader.{read_request}

-- No letter or digit beyond ASCII.
abbrev ascii : ℕ → Bool
ascii c = false

abbrev buffer : Text
buffer = text " select ';' ; -- a;b\n x $t$ ; $t$ /* ; */ ; $$;'$$ ; --d"

split_buffer :
    texts (split_sql_statements ascii buffer)
    ≡ text "select ';'" ∷ text "-- a;b\n x $t$ ; $t$ /* ; */" ∷ text "$$;'$$" ∷ []
unfolding split_sql_statements find is_alphanumeric trim is_whitespace
split_buffer = refl

split-Found_example :
    (ss : List Text) × Sliced ascii [] buffer ss × Found 0 ss (split_sql_statements ascii buffer)
split-Found_example = split-Found ascii buffer

split-IsPlaced_example : All (IsPlaced buffer) (split_sql_statements ascii buffer)
split-IsPlaced_example = split-IsPlaced ascii buffer

split-Ordered_example : Ordered 0 (split_sql_statements ascii buffer) (len buffer)
split-Ordered_example = split-Ordered ascii buffer

abbrev noted : Text
noted = text " -- note\nBEGIN;"

noted-Leads : Leads noted (text "BEGIN;")
unfolding is_whitespace find strip_prefix
noted-Leads = blank refl (line 5 refl here)

begin_noted : transaction_control noted ≡ some begin
unfolding transaction_control strip_prefix find trim_start is_whitespace split eq
    tradar.Base.to_ascii_lowercase
begin_noted = refl

classify-Leads_example :
    (returns_rows ascii noted ≡ returns_rows ascii (text "BEGIN;"))
    × (transaction_control noted ≡ transaction_control (text "BEGIN;"))
classify-Leads_example = classify-Leads ascii noted-Leads

strip-IsBare_example :
    Leads noted (strip_leading_comments noted) × IsBare (strip_leading_comments noted)
strip-IsBare_example = strip-IsBare noted

abbrev two_lines : Text
two_lines = text "SELECT id\nFROM usres"

caret_two_lines : line_and_caret two_lines 16 ≡ some (text "LINE 2: FROM usres\n             ^")
unfolding line_and_caret position decimal
caret_two_lines = refl

line_and_caret_inside_example :
    (before : Text) × (row : Text) × (after : Text) × IsLine two_lines 15 before row after
    × (let label = text "LINE " ++ (decimal (1 + count b'\n' before) ++ text ": ") in
        line_and_caret two_lines 16
        ≡ some (
            label
            ++ (row ++ b'\n' ∷ (replicate (length label + (15 - length before)) b' ' ++ text "^"))))
line_and_caret_inside_example = line_and_caret_inside two_lines 15 (omega arith)

-- A value that tries to end the string and the statement.
abbrev hostile : RowEdit
hostile = record {
  table = text "public.us\"ers";
  key = (text "id", text "1") ∷ (text "tag", text "NULL") ∷ [];
  change = set_value (text "name") (text "x'; DROP TABLE users; --");
}

hostile_sql :
    build_sql_edit hostile
    ≡ text
        "UPDATE \"public\".\"us\"\"ers\" SET \"name\" = 'x''; DROP TABLE users; --' WHERE \"id\" = '1' AND \"tag\" IS NULL"
unfolding build_sql_edit split join replace eq
hostile_sql = refl

split-build_sql_edit_example :
    texts (split_sql_statements ascii (build_sql_edit hostile)) ≡ trim (build_sql_edit hostile) ∷ []
split-build_sql_edit_example = split-build_sql_edit ascii hostile

split-build_sql_insert_example :
    texts (split_sql_statements ascii (build_sql_insert (text "t") ((text "a;", text "';'") ∷ [])))
    ≡ trim (build_sql_insert (text "t") ((text "a;", text "';'") ∷ [])) ∷ []
split-build_sql_insert_example =
    split-build_sql_insert ascii (text "t") ((text "a;", text "';'") ∷ [])

hostile-key : hostile.key ≢ []
hostile-key = λ e. cc

hostile-change : hostile.change ≢ set_values []
hostile-change = λ e. cc

read_request-build_sql_edit_example :
    read_request (build_sql_edit hostile) ≡ some (change_request hostile)
read_request-build_sql_edit_example = read_request-build_sql_edit hostile hostile-key hostile-change

-- `= NULL` finds nothing in SQL, and the reader does not take it for a condition.
equals_null_fails : read_request (text "DELETE FROM \"t\" WHERE \"c\" = NULL") ≡ none
unfolding read_request strip_prefix
equals_null_fails = refl

create_users :
    build_table_ddl (
      create_table (text "users") (
        record {
          name = text "id";
          type_name = text " INTEGER ";
          nullable = true;
          primary_key = true;
        }
        ∷ record { name = text "n"; type_name = text "TEXT"; nullable = false; primary_key = false }
        ∷ []))
    ≡ text "CREATE TABLE \"users\" (\n  \"id\" INTEGER PRIMARY KEY,\n  \"n\" TEXT NOT NULL\n)"
unfolding build_table_ddl split join replace trim is_whitespace
create_users = refl
