-- ===== src/Connectors/Tests.antt =====
-- Runs of the definitions of Connectors/Errors, and its theorems at concrete inputs.
use tradar.Base.{
  ◌++◌, false, suc, ◌<◌, [], none, some, ◌≡◌, refl, arith, text, Text, count, find, decimal,
  is_whitespace, position,
}
use tradar.Base.Decimal.{u64_bound}
use tradar.Base.Lines.{lines}
use tradar.Server.Protocol.Position.{mark_digits, error_position}
use tradar.Server.Protocol.Position.Mark.{Markless}
use tradar.Connectors.Errors.{
  PgError, mysql_token, sqlite_token, cassandra_token, clickhouse_token, format_mysql_error,
  format_pg_error, clickhouse_message,
}
use tradar.Connectors.Errors.Located.{
  Occurs, IsPlace, mysql, rendered, token_named-IsPlace, format_pg_error-IsPlace,
}

abbrev query : Text
query = text "SELECT *\nFRO users"

abbrev mysql_message : Text
mysql_message = text "error in your SQL syntax near 'FRO users' at line 2"

abbrev clickhouse_body : Text
clickhouse_body =
    text "Code: 62. Syntax error: failed at position 10 (FRO) (line 2, col 1): FRO users."

abbrev pg_error : PgError
pg_error = record {
  message = text "syntax error at or near \"FRO\"";
  original_position = some 10;
  detail = some (text "none");
  hint = none;
}

mysql_token_reads : mysql_token mysql_message ≡ some (text "FRO users")
unfolding mysql_token
mysql_token_reads = refl

sqlite_token_reads : sqlite_token (text "near \"FRO\": syntax error") ≡ some (text "FRO")
unfolding sqlite_token
sqlite_token_reads = refl

cassandra_token_reads :
    cassandra_token (text "line 1:9 mismatched input 'FRO' expecting K_FROM") ≡ some (text "FRO")
unfolding cassandra_token
cassandra_token_reads = refl

clickhouse_token_reads : clickhouse_token clickhouse_body ≡ some (text "FRO")
unfolding clickhouse_token is_whitespace
clickhouse_token_reads = refl

mysql_error_renders :
    format_mysql_error (record { display = []; database_message = some mysql_message }) query
    ≡ text "error in your SQL syntax near 'FRO users' at line 2\nLINE 2: FRO users\n        ^"
unfolding format_mysql_error decimal
mysql_error_renders = refl

pg_error_renders :
    format_pg_error pg_error query
    ≡ text "syntax error at or near \"FRO\"\nLINE 2: FRO users\n        ^\nDETAIL: none"
unfolding format_pg_error decimal position
pg_error_renders = refl

position_is_found : error_position (format_pg_error pg_error query) ≡ some (2, 0)
unfolding format_pg_error error_position decimal
position_is_found = refl

-- A server that says nothing.
clickhouse_says : clickhouse_message (text "502") false [] ≡ text "clickhouse returned 502"
unfolding clickhouse_message
clickhouse_says = refl

found_at : find (text "FRO users") query ≡ some 9
unfolding find
found_at = refl

markless : Markless (lines (mysql_message ++ text "\n"))
unfolding lines mark_digits
markless = (refl, tt)

pg-Markless : Markless (lines (pg_error.message ++ text "\n"))
unfolding lines mark_digits
pg-Markless = (refl, tt)

few_lines : suc (count b'\n' query) < u64_bound
unfolding count
few_lines = omega arith

token_named-IsPlace_example :
    Occurs (text "FRO users") query 9
    × IsPlace query 9 (error_position (rendered mysql (text "1064") mysql_message query))
token_named-IsPlace_example =
    token_named-IsPlace mysql (text "1064") mysql_message query (text "FRO users") 9
      mysql_token_reads refl found_at markless few_lines

format_pg_error-IsPlace_example : IsPlace query 9 (error_position (format_pg_error pg_error query))
format_pg_error-IsPlace_example =
    format_pg_error-IsPlace pg_error query 9 refl (omega arith) pg-Markless few_lines
