-- ===== src/Lib.antt =====
-- The tradar workspace: a terminal client for databases and message brokers, and a server that
-- other editors talk to. Its crates live under crates/; this library models the parts of them that
-- decide things, and leaves drivers, sockets, files and drawing to their libraries.
--
-- How the parts interact. The query screen (crates/tradar-query-workbench) holds a buffer. It splits
-- the buffer into statements (crates/tradar-query/src/sql_split.rs), hands one to the query engine
-- (crates/tradar-query-workbench/src/query_engine.rs), which runs it in a task and shows the outcome
-- that comes back. Which table the rows come from (source.rs) decides whether a cell may be edited;
-- an edit becomes a statement again (edit.rs) that goes the same way. Completion reads the same
-- words of the query (completion.rs). A connector reads rows up to a budget (fetch.rs) and renders an
-- error of its database with the line at fault and a caret; the server (crates/tradar-server) reads
-- the position out of that again, hands results out page by page, and keeps the subscriptions that
-- its clients start. The query engine shows a result, which the filter narrows and the export writes
-- out.
--
-- Which file models which part:
--   Base                    Rust's `str` and `char` as lists of code points (Base/Rust), lists
--                           measured by native numbers (Base/Lists), Boolean tests (Base/Tests),
--                           `trim` (Base/Trim), `str::lines` (Base/Lines), decimals (Base/Decimal),
--                           JSON values (Base/Json), `Result` (Base/Result) and a `HashMap` as an
--                           association list that is read by `lookup` alone (Base/Map)
--   Connectors/Errors       how the connectors of MySQL, PostgreSQL, SQLite, Cassandra and ClickHouse
--                           (crates/tradar-connector-*/src/lib.rs) render an error
--   Core/VimList            crates/tradar-core/src/vim_list.rs
--   Query/Statements        crates/tradar-query/src/sql_split.rs: `split_sql_statements` and
--                           `strip_leading_comments`
--   Query/Keyword           the same file: `returns_rows`, `transaction_control`
--   Query/Caret             the same file: `line_and_caret`
--   Query/Edit              crates/tradar-query/src/edit.rs: `build_sql_edit`, `build_sql_insert`,
--                           `build_table_ddl`; Query/Edit/Reader is a reader of such statements by
--                           SQL's rules for quoted names, strings and NULL, independent of the code
--   Query/Schema            crates/tradar-query/src/types.rs: `SchemaInfo`, `ColumnInfo`, `QueryResult`
--   Query/Fetch             crates/tradar-query/src/fetch.rs, and the loop over rows of
--                           crates/tradar-connector-mysql/src/lib.rs
--   Query/Tokens            crates/tradar-query/src/completion.rs: `sql_tokens`, `is_identifier`
--   Query/Source            crates/tradar-query/src/source.rs: `single_table_source`, `same_table`,
--                           `qualify_colliding_names`
--   Query/Joined            the same file: `joined_column_sources`
--   Query/Completion        crates/tradar-query/src/completion.rs: `completion_context`,
--                           `resolve_alias`, `column_types` and what they call
--   Query/Snippet           crates/tradar-query/src/snippet.rs
--   Redis                   crates/tradar-connector-redis/src/command.rs: `split_command`,
--                           `quote_arg`
--   Server/Subscriptions    crates/tradar-server/src/subscriptions.rs (`insert` and `remove` are
--                           `subscribe` and `unsubscribe` here); Server/Subscriptions/Steps has the
--                           calls of the extensions as steps (crates/tradar-server/src/kafka.rs),
--                           Server/Subscriptions/Refines the table that the two maps stand for
--   Server/Protocol         crates/tradar-server/src/protocol.rs: the position of an error
--                           (Protocol/Position), errors (Protocol/Error), results and their pages
--                           (Protocol/Stored), edits (Protocol/Edits)
--   Server/Cursors          crates/tradar-server/src/server/query.rs: what `execute` does with a result
--                           (`open_cursor`), `fetch`, `close_cursor`
--   Server/Idle             crates/tradar-server/src/server/idle.rs: `reap_idle`; Server/Idle/Ttl has
--                           `parse_ttl`
--   Workbench/Engine        crates/tradar-query-workbench/src/query_engine.rs: the state, `submit_*`,
--                           `cancel`, `take_outcome`, `tick`; Workbench/Engine/World has the tasks
--                           and the channel as steps
--   Workbench/Export        crates/tradar-query-workbench/src/export.rs; Workbench/Export/Csv has a
--                           reader of CSV that is independent of the code
--   Workbench/Filter        crates/tradar-query-workbench/src/filter.rs
--   Workbench/Editor        crates/tradar-query-workbench/src/components/query_editor.rs: the state,
--                           its history and folds; Editor/Edits, Editor/Motions, Editor/Operators,
--                           Editor/Find, Editor/Screen and Editor/Keys have the rest of its methods (`undo` and `redo` are
--                           `undo_edit` and `redo_edit` here, `toggle_fold` is `fold_toggled`,
--                           `delete_selection` is `selection_deleted`, and so on), with the answer of
--                           the key map (crates/tradar-core/src/keymap.rs) as an argument
--   */Tests, *Tests         runs of the definitions, and the theorems at concrete inputs
--
-- How the state corresponds. A text is the list of its characters; a byte offset into a text is the
-- length in UTF-8 of what is in front of it (`len`). Where the source walks an index over the
-- characters, the model walks over what is left of the text behind the index. A `&mut self` method is
-- a function from the state to the state, with its result beside it. A `Result` is a data type with
-- `ok` and `err`. A channel is the list of what was sent and not yet received, a spawned task is an
-- entry of a list, and what can interleave are the constructors of a step relation.
--
-- Bounds and fuel. Indices are bounded by the length of a text in memory and counters (epochs, ids)
-- by the number of calls, so neither wraps. `split_loop`, `tokens_loop` and `split_command` recurse
-- on a fuel of one more than the length of the text, and every round takes at least a character;
-- `decimal` recurses on a fuel of one more than the number. The loops of the editor's motions
-- recurse on the number of positions in the buffer, and every round goes to another one. One tick
-- of the engine reads at most 64 outcomes, as in the source.
--
-- Parameters. The table of Unicode behind `char::is_alphanumeric` beyond ASCII and
-- `str::to_lowercase` are arguments. So are a character in its other case, a driver's answers, JSON
-- values and their printer, the size of a stored result where cursors are evicted, and what the key
-- map makes of a key in the editor.
--
-- Not modelled: terminal drawing and key tables, configuration and storage, the sessions of the
-- drivers' libraries, the RPC transport, cheat sheets and other static data, and the plugin for
-- Neovim; of the editor, what is drawn and its colors; and of the programs' own decisions the
-- results grid, the screens, and crates/tradar-connector-mongo/src/relax.rs.
pub mod Base
pub mod Connectors
pub mod Core
pub mod Query
pub mod Redis
pub mod Server
pub mod Workbench
