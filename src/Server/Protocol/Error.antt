-- ===== src/Server/Protocol/Error.antt =====
-- crates/tradar-server/src/protocol.rs: `RpcError` (`detail` is its `data`), and the parameters of a call.
use tradar.Base.{ℕ, [], ◌∷◌, ◌++◌, Option, none, some, Text, text}
use tradar.Base.Json.{Value, null, number, to_object, as_str, as_u64, get}
use tradar.Base.Result.{Result, ok, ok_or}
use tradar.Query.Schema.{ℤ, negsuc}
use tradar.Query.Source.{and_then}
use tradar.Server.Protocol.Position.{error_position}

pub record RpcError : Type 0 where
  pub code : ℤ
  pub message : Text
  pub detail : Option Value

-- -32602 and -32000
abbrev pub invalid_params : ℤ
invalid_params = negsuc 32601

abbrev pub app_error : ℤ
app_error = negsuc 31999

unfoldable pub invalid : Text → RpcError
invalid message = record { code = invalid_params; message = message; detail = none }

unfoldable pub app : Text → RpcError
app message = record { code = app_error; message = message; detail = none }

abbrev pub position_json : Option (ℕ × ℕ) → Option Value
position_json none = none
position_json (some (line, column)) =
    some
      (to_object ((text "line", number (some line)) ∷ (text "column", number (some column)) ∷ []))

unfoldable pub from_query_error : Text → RpcError
unfolding error_position
from_query_error message = record {
  code = app_error;
  message = message;
  detail = position_json (error_position message);
}

unfoldable pub str_param : Value → Text → Result Text RpcError
unfolding get invalid
str_param params name =
    ok_or (invalid (text "`" ++ (name ++ text "` must be a string")))
      (and_then (get name params) as_str)

abbrev pub not_an_integer : Text → RpcError
not_an_integer name = invalid (text "`" ++ (name ++ text "` must be a non-negative integer"))

unfoldable pub u64_param : Value → Text → Result ℕ RpcError
unfolding get invalid
u64_param params name = ok_or (not_an_integer name) (and_then (get name params) as_u64)

abbrev pub wrapped : Option ℕ → Option (Option ℕ)
wrapped none = none
wrapped (some n) = some (some n)

abbrev pub optional : Text → Option Value → Result (Option ℕ) RpcError
optional name none = ok none
optional name (some null) = ok none
optional name (some v) = ok_or (not_an_integer name) (wrapped (as_u64 v))

unfoldable pub usize_param : Value → Text → Result (Option ℕ) RpcError
unfolding get invalid
usize_param params name = optional name (get name params)
