-- ===== src/Query/Completion/Aliases.antt =====
-- Completion and the results grid read the same table from a query: both in `resolve_alias` and
-- `single_table_source` of crates/tradar-query/src.
use tradar.Base.{not, ◌&&◌, ◌||◌, Option, none, sym, if◌then◌else◌, text, eq, lower, one_of, ◌==◌}
