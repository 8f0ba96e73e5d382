-- ===== src/Connectors/Errors.antt =====
-- How the connectors of PostgreSQL, MySQL, SQLite, Cassandra and ClickHouse render a database's error,
-- with the mark of `line_and_caret` where a position is known or can be found again. An error of a
-- driver's library is known by what it answers: its own text, and the database's message, if it is
-- the database's.
pub mod Located
use tradar.Base.{
  ℕ, suc, ◌+◌, ◌-◌, Bool, true, false, List, [], ◌∷◌, ◌++◌, Option, none, some, if◌then◌else◌, take,
  drop, is_empty, length, head?, Text, text, strip_prefix, find, position, trim,
}
use tradar.Base.Lines.{lines}
use tradar.Query.Source.{and_then}
use tradar.Query.Caret.{line_and_caret}

-- The end that four connectors share: the mark of the token's first occurrence.
unfoldable pub token_marker : Text → Text → Option Text
unfolding find line_and_caret
token_marker token query =
    if is_empty token
    then none
    else and_then (find token query) (λ char_index. line_and_caret query (char_index + 1))

-- The text up to the first `c`.
abbrev pub up_to : ℕ → Text → Option Text
up_to c after = and_then (position c after) (λ n. some (take n after))

-- The text behind the first occurrence of `lead`.
abbrev pub behind_first : Text → Text → Option Text
behind_first lead message =
    and_then (find lead message) (λ n. some (drop (n + length lead) message))

-- crates/tradar-connector-mysql/src/lib.rs
unfoldable pub mysql_token : Text → Option Text
unfolding find position
mysql_token message = and_then (behind_first (text "near '") message) (up_to b'\'')

unfoldable pub mysql_near_token_marker : Text → Text → Option Text
unfolding mysql_token token_marker
mysql_near_token_marker message query =
    and_then (mysql_token message) (λ token. token_marker token query)

-- crates/tradar-connector-sqlite/src/lib.rs
unfoldable pub sqlite_token : Text → Option Text
unfolding strip_prefix position
sqlite_token message = and_then (strip_prefix (text "near \"") message) (up_to b'"')

unfoldable pub sqlite_near_token_marker : Text → Text → Option Text
unfolding sqlite_token token_marker
sqlite_near_token_marker message query =
    and_then (sqlite_token message) (λ token. token_marker token query)

-- crates/tradar-connector-cassandra/src/error.rs
unfoldable pub cassandra_token : Text → Option Text
unfolding position
cassandra_token message =
    and_then (position b'\'' message) (λ n. up_to b'\'' (drop (n + 1) message))

unfoldable pub cassandra_error_marker : Text → Text → Option Text
unfolding cassandra_token token_marker
cassandra_error_marker message query =
    and_then (cassandra_token message) (λ token. token_marker token query)

-- crates/tradar-connector-clickhouse/src/lib.rs
unfoldable pub clickhouse_token : Text → Option Text
unfolding find position trim
clickhouse_token body = and_then (behind_first (text "failed at position ") body) λ after.
    and_then (position b'(' after) λ start.
      and_then (position b')' (drop start after))
        λ close. some (trim (take (close - 1) (drop (start + 1) after)))

unfoldable pub clickhouse_error_marker : Text → Text → Option Text
unfolding clickhouse_token token_marker
clickhouse_error_marker body sql =
    and_then (clickhouse_token body) (λ token. token_marker token sql)

-- `format!("{message}\n{marker}")`, and what is said where there is no mark
abbrev pub with_marker : Text → Text → Option Text → Text
with_marker message otherwise none = otherwise
with_marker message otherwise (some marker) = message ++ b'\n' ∷ marker

pub record DriverError : Type 0 where
  pub display : Text
  pub database_message : Option Text

abbrev pub located : (Text → Text → Option Text) → DriverError → Text → Text
located marker error query = elim error.database_message [
  | none ↦ error.display
  | some message ↦ with_marker message error.display (marker message query)
]

unfoldable pub format_mysql_error : DriverError → Text → Text
unfolding mysql_near_token_marker
format_mysql_error = located mysql_near_token_marker

unfoldable pub format_sqlite_error : DriverError → Text → Text
unfolding sqlite_near_token_marker
format_sqlite_error = located sqlite_near_token_marker

-- `message` is the error's own text
unfoldable pub format_cassandra_error : Text → Text → Text
unfolding cassandra_error_marker
format_cassandra_error message query =
    with_marker message message (cassandra_error_marker message query)

abbrev pub first_or_empty : Option Text → Text
first_or_empty none = []
first_or_empty (some line) = line

-- `status` is the printed status; `refused` says whether it is FORBIDDEN or UNAUTHORIZED.
unfoldable pub clickhouse_message : Text → Bool → Text → Text
unfolding lines trim
clickhouse_message status refused body =
    let first_line = trim (first_or_empty (head? (lines body))) in
    text "clickhouse returned "
    ++ (status
        ++ (if is_empty first_line
            then (if refused
                then text
                    " (no message from ClickHouse -- a proxy or firewall in front of it may be refusing the request)"
                else [])
            else text ": " ++ first_line))

unfoldable pub format_clickhouse_error : Text → Bool → Text → Text → Text
unfolding clickhouse_message clickhouse_error_marker
format_clickhouse_error status refused body sql =
    let message = clickhouse_message status refused body in
    with_marker message message (clickhouse_error_marker body sql)

-- crates/tradar-connector-postgres/src/lib.rs: the position is one in the query that was sent.
pub record PgError : Type 0 where
  pub message : Text
  pub original_position : Option ℕ
  pub detail : Option Text
  pub hint : Option Text

-- `message.push_str(..)`, if there is something to say
abbrev pub noted : Text → Option Text → Text
noted label none = []
noted label (some note) = label ++ note

unfoldable pub pg_marker : Option ℕ → Text → Option Text
unfolding line_and_caret
pg_marker position query = and_then position (line_and_caret query)

-- Of an error that is the database's.
unfoldable pub format_pg_error : PgError → Text → Text
unfolding pg_marker
format_pg_error error query =
    error.message
    ++ (noted (text "\n") (pg_marker error.original_position query)
        ++ (noted (text "\nDETAIL: ") error.detail ++ noted (text "\nHINT: ") error.hint))
