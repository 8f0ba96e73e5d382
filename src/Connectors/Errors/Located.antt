-- ===== src/Connectors/Errors/Located.antt =====
-- The server's `error_position` (crates/tradar-server/src/protocol.rs) finds in the errors that the
-- connectors render the place that they mean.
use tradar.Base.{
  ℕ, zero, suc, ◌+◌, ◌-◌, ◌<◌, ◌≤◌, Bool, true, false, [], ◌∷◌, ◌++◌, Option, none, some, ◌≡◌, refl,
  sym, ap, ◌∙◌, inl, inr, arith, ltb, Bool-cases, Option-cases, append-nil, length, drop, is_empty,
  Text, text, strip_prefix, starts_with, find, count, count-append,
}
use tradar.Base.Lines.{lines}
use tradar.Base.Decimal.{u64_bound}
use tradar.Query.Caret.{line_and_caret, marked}
use tradar.Query.Caret.Line.{IsLine, line_and_caret-marked}
use tradar.Server.Protocol.Position.{error_position}
use tradar.Server.Protocol.Position.Mark.{Markless, Ends, error_position-marked}
use tradar.Connectors.Errors.{
  token_marker, mysql_token, mysql_near_token_marker, format_mysql_error, sqlite_token,
  sqlite_near_token_marker, format_sqlite_error, cassandra_token, cassandra_error_marker,
  format_cassandra_error, clickhouse_token, clickhouse_error_marker, clickhouse_message,
  format_clickhouse_error, PgError, noted, pg_marker, format_pg_error,
}

-- `p` stands in `s` behind `n` characters, and nowhere before.
pub record Occurs (p s : Text) (n : ℕ) : Type 0 where
  pub here : starts_with p (drop n s) ≡ true
  pub earliest : (m : ℕ) → m < n → starts_with p (drop m s) ≡ false
  pub inside : n ≤ length s

later_than :
    (c : ℕ) (s p : Text) (k : ℕ)
    → starts_with p (c ∷ s) ≡ false
    → ((m : ℕ) → m < k → starts_with p (drop m s) ≡ false)
    → (m : ℕ) → m < suc k
    → starts_with p (drop m (c ∷ s)) ≡ false
later_than c s p k h f zero lt = h
later_than c s p k h f (suc m) lt = f m (omega arith)

-- A token that is not empty does not stand at the end.
starts_with-nil : (p : Text) → is_empty p ≡ false → starts_with p [] ≡ false
unfolding strip_prefix
starts_with-nil [] h = absurd (cc)
starts_with-nil (c ∷ p) h = refl

drop-end : (n : ℕ) (s : Text) → length s ≤ n → drop n s ≡ []
drop-end zero [] h = refl
drop-end zero (c ∷ s) h = absurd (omega arith)
drop-end (suc n) [] h = refl
drop-end (suc n) (c ∷ s) h = drop-end n s (omega arith)

Occurs-lt : (p s : Text) (n : ℕ) → is_empty p ≡ false → Occurs p s n → n < length s
Occurs-lt p s n h o = elim (Bool-cases (ltb n (length s))) [
  | inl l ↦ ground arith
  | inr l ↦
      let end : drop n s ≡ [] = drop-end n s (ground arith) in
      absurd (cc (starts_with-nil p h, rw end at o.here))
]

find-Occurs : (p s : Text) (n : ℕ) → find p s ≡ some n → Occurs p s n
unfolding find
find-Occurs p [] n e = elim (Bool-cases (starts_with p [])) [
  | inl h ↦
      let z : n ≡ 0 = ground (arith, rw h at e) in
      record { here = rw z h; earliest = λ m lt. absurd (omega arith); inside = omega arith }
  | inr h ↦ absurd (cc (rw h at e))
]
find-Occurs p (c ∷ s) n e = elim (Bool-cases (starts_with p (c ∷ s))) [
  | inl h ↦
      let z : n ≡ 0 = ground (arith, rw h at e) in
      record { here = rw z h; earliest = λ m lt. absurd (omega arith); inside = omega arith }
  | inr h ↦ elim (Option-cases (find p s)) [
    | inl f ↦ absurd (cc (rw (h, f) at e))
    | inr (k, f) ↦
        let o = find-Occurs p s k f in
        let z : n ≡ suc k = ground (arith, rw (h, f) at e) in
        record {
          here = rw z o.here;
          earliest = λ m lt. later_than c s p k h o.earliest m (omega arith);
          inside = omega (arith, o.inside);
        }
  ]
]

-- The place of a character, as a line's number and a column: the line that holds it.
pub record IsPlace (query : Text) (index : ℕ) (place : Option (ℕ × ℕ)) : Type 0 where
  pub before : Text
  pub line : Text
  pub after : Text
  pub is_line : IsLine query index before line after
  pub place_is : place ≡ some (1 + count b'\n' before, index - length before)

error_position-IsPlace :
    (message query behind : Text) (index : ℕ) (marker : Text)
    → line_and_caret query (suc index) ≡ some marker
    → index < length query
    → Markless (lines (message ++ text "\n"))
    → suc (count b'\n' query) < u64_bound
    → Ends behind
    → IsPlace query index (error_position (message ++ b'\n' ∷ (marker ++ behind)))
error_position-IsPlace message query behind index marker e inside markless small ends =
    let (before, line, after, is, m) = line_and_caret-marked query index inside in
    let same : marker ≡ marked (1 + count b'\n' before) line (index - length before) =
      ground (arith, sym e ∙ m) in
    record {
      before = before;
      line = line;
      after = after;
      is_line = is;
      place_is = rw same (
          error_position-marked message line behind (1 + count b'\n' before) (index - length before)
            markless is.one_line
            (omega (arith, ap (count b'\n') is.splits, count-append b'\n' before (line ++ after)))
            ends);
    }

line_and_caret-some :
    (query : Text) (index : ℕ)
    → index < length query
    → (marker : Text) × (line_and_caret query (suc index) ≡ some marker)
line_and_caret-some query index inside =
    let (before, line, after, is, m) = line_and_caret-marked query index inside in
    (marked (1 + count b'\n' before) line (index - length before), m)

-- The connectors that look for the token that a message quotes; an error of ClickHouse comes with
-- the status of the answer.
pub data Connector : Type 0 where
  mysql : Connector
  sqlite : Connector
  cassandra : Connector
  clickhouse : Text → Bool → Connector

abbrev pub token_named : Connector → Text → Option Text
token_named mysql = mysql_token
token_named sqlite = sqlite_token
token_named cassandra = cassandra_token
token_named (clickhouse status refused) = clickhouse_token

-- What the connector says in front of the mark.
abbrev pub said : Connector → Text → Text
said (clickhouse status refused) message = clickhouse_message status refused message
said _ message = message

-- The text of an error with the database's message.
abbrev pub rendered : Connector → Text → Text → Text → Text
rendered mysql display message query =
    format_mysql_error (record { display = display; database_message = some message }) query
rendered sqlite display message query =
    format_sqlite_error (record { display = display; database_message = some message }) query
rendered cassandra display message query = format_cassandra_error message query
rendered (clickhouse status refused) display message query =
    format_clickhouse_error status refused message query

rendered-token :
    (k : Connector) (display message query token marker : Text)
    → token_named k message ≡ some token
    → token_marker token query ≡ some marker
    → rendered k display message query ≡ said k message ++ b'\n' ∷ marker
unfolding format_mysql_error mysql_near_token_marker format_sqlite_error sqlite_near_token_marker
    format_cassandra_error cassandra_error_marker format_clickhouse_error clickhouse_error_marker
rendered-token mysql display message query token marker t m = rw (t, m)
rendered-token sqlite display message query token marker t m = rw (t, m)
rendered-token cassandra display message query token marker t m = rw (t, m)
rendered-token (clickhouse status refused) display message query token marker t m = rw (t, m)

token_marker-found :
    (token query : Text) (n : ℕ)
    → is_empty token ≡ false
    → find token query ≡ some n
    → token_marker token query ≡ line_and_caret query (suc n)
unfolding token_marker
token_marker-found token query n h f = let next : n + 1 ≡ suc n = omega arith in rw (h, f, next)

-- The server finds in the error that a connector of MySQL, SQLite, Cassandra or ClickHouse
-- renders the line and the column of the first occurrence in the query of the token that the
-- database's message quotes, if it quotes one that is not empty and occurs there, no line of
-- what the connector says in front looks like a mark, and the query has fewer lines than a
-- number of 64 bits can count.
pub token_named-IsPlace :
    (k : Connector) (display message query token : Text) (index : ℕ)
    → token_named k message ≡ some token
    → is_empty token ≡ false
    → find token query ≡ some index
    → Markless (lines (said k message ++ text "\n"))
    → suc (count b'\n' query) < u64_bound
    → Occurs token query index
      × IsPlace query index (error_position (rendered k display message query))
token_named-IsPlace k display message query token index t full f markless small =
    let o = find-Occurs token query index f in
    let inside = Occurs-lt token query index full o in
    let (marker, e) = line_and_caret-some query index inside in
    let mark = token_marker-found token query index full f ∙ e in
    (
      o,
      rw (rendered-token k display message query token marker t mark) (
          rw (append-nil marker) at (
            error_position-IsPlace (said k message) query [] index marker e inside markless small
              (inl refl))),
    )

note-Ends :
    (detail hint : Option Text)
    → Ends (noted (text "\nDETAIL: ") detail ++ noted (text "\nHINT: ") hint)
note-Ends none none = inl refl
note-Ends none (some h) = inr (_, refl)
note-Ends (some d) hint = inr (_, refl)

-- The server finds in an error of PostgreSQL the line and the column of the position that the
-- database reports, whatever detail and hint follow, if the position lies in the query, no line
-- of the message looks like a mark, and the query has fewer lines than a number of 64 bits can
-- count.
pub format_pg_error-IsPlace :
    (error : PgError) (query : Text) (index : ℕ)
    → error.original_position ≡ some (suc index)
    → index < length query
    → Markless (lines (error.message ++ text "\n"))
    → suc (count b'\n' query) < u64_bound
    → IsPlace query index (error_position (format_pg_error error query))
unfolding format_pg_error pg_marker
format_pg_error-IsPlace error query index p inside markless small =
    let (marker, e) = line_and_caret-some query index inside in
    rw (p, e)
      (error_position-IsPlace error.message query _ index marker e inside markless small
        (note-Ends error.detail error.hint))
