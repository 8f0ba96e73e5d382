-- ===== src/Redis.antt =====
-- crates/tradar-connector-redis/src/command.rs: a command line and its arguments. The source walks an
-- index over the characters; here the walk goes over what is left of the text behind the index.
pub mod RoundTrip
mod Tests
use tradar.Base.{
  ℕ, zero, suc, ◌+◌, ◌-◌, ◌*◌, Bool, true, false, not, ◌&&◌, ◌||◌, List, [], ◌∷◌, ◌++◌, Option,
  none, some, ltb, ◌==◌, if◌then◌else◌, length, take, drop, is_empty, any, Text, text,
  is_whitespace, within,
}

-- The messages of the two `bail!`s; the first names the quote.
pub data CommandError : Type 0 where
  unterminated : ℕ → CommandError
  quote_not_last : CommandError

pub data Result (A : Type 0) : Type 0 where
  ok : A → Result A
  err : CommandError → Result A

infixl 5 ◌>>=◌
abbrev pub ◌>>=◌ : {A B : Type 0} → Result A → (A → Result B) → Result B
ok a >>= f = f a
err e >>= f = err e

-- `char::is_ascii_hexdigit`, and the digit's value in `from_str_radix`
abbrev pub is_ascii_hexdigit : ℕ → Bool
is_ascii_hexdigit c = within b'0' b'9' c || within b'a' b'f' c || within b'A' b'F' c

abbrev hex_value : ℕ → ℕ
hex_value c = if within b'0' b'9' c then c - b'0' else if within b'a' b'f' c then c - 87 else c - 55

-- `\xHH` with two digits, else the `x` itself: what is pushed, and what is left.
abbrev hex_escape : Text → Text × Text
hex_escape (h ∷ l ∷ es) =
    if is_ascii_hexdigit h && is_ascii_hexdigit l
    then ((16 * hex_value h + hex_value l) ∷ [], es)
    else (b'x' ∷ [], h ∷ l ∷ es)
hex_escape es = (b'x' ∷ [], es)

-- The character `e` behind a backslash, inside the quote `q`, in front of `es`.
unfoldable pub escape : ℕ → ℕ → Text → Text × Text
escape q e es =
    if q == b'\''
    then (if e == b'\'' then (b'\'' ∷ [], es) else (b'\\' ∷ e ∷ [], es))
    else if e == b'n'
    then (b'\n' ∷ [], es)
    else if e == b'r'
    then (b'\r' ∷ [], es)
    else if e == b't'
    then (b'\t' ∷ [], es)
    else if e == b'b'
    then (0x08 ∷ [], es)
    else if e == b'a'
    then (0x07 ∷ [], es)
    else if e == b'x'
    then hex_escape es
    else (e ∷ [], es)

abbrev pushing : Text → Result (Text × Text) → Result (Text × Text)
pushing p (ok (token, rest)) = ok (p ++ token, rest)
pushing p (err e) = err e

-- The loop over a quoted token, behind the opening quote: the token, and what is left behind the
-- closing quote. Every round takes a character, so a fuel above the length is never used up.
unfoldable pub quoted_token : ℕ → ℕ → Text → Result (Text × Text)
unfolding escape
quoted_token zero q s = err (unterminated q)
quoted_token (suc fuel) q [] = err (unterminated q)
quoted_token (suc fuel) q (c ∷ []) = if c == q then ok ([], []) else err (unterminated q)
quoted_token (suc fuel) q (c ∷ e ∷ es) =
    let escaped = pushing (escape q e es).0 (quoted_token fuel q (escape q e es).1) in
    let plain = pushing (c ∷ []) (quoted_token fuel q (e ∷ es)) in
    if c == q then ok ([], e ∷ es) else if c == b'\\' then escaped else plain

-- `while i < chars.len() && !chars[i].is_whitespace()`: the token, and what is left.
unfoldable pub bare_token : Text → Text
bare_token [] = []
bare_token (c ∷ cs) = let more = bare_token cs in if is_whitespace c then [] else c ∷ more

-- The two `match` arms: a token and what is left behind it.
abbrev pub closed_well : Text × Text → Result (Text × Text)
closed_well (token, []) = ok (token, [])
closed_well (token, c ∷ rest) = if is_whitespace c then ok (token, c ∷ rest) else err quote_not_last

unfoldable pub next_token : ℕ → Text → Result (Text × Text)
unfolding quoted_token bare_token
next_token c cs =
    if c == b'"' || c == b'\''
    then (quoted_token (suc (length cs)) c cs >>= closed_well)
    else let token = bare_token (c ∷ cs) in ok (token, drop (length token) (c ∷ cs))

abbrev pub prepend : Text → Result (List Text) → Result (List Text)
prepend token (ok out) = ok (token ∷ out)
prepend token (err e) = err e

unfoldable pub split_loop : ℕ → Text → Result (List Text)
split_loop zero s = ok []
split_loop (suc fuel) [] = ok []
split_loop (suc fuel) (c ∷ cs) =
    let skip = split_loop fuel cs in
    let token = (next_token c cs >>= λ t. prepend t.0 (split_loop fuel t.1)) in
    if is_whitespace c then skip else token

unfoldable pub split_command : Text → Result (List Text)
unfolding split_loop next_token
split_command s = split_loop (suc (length s)) s

unfoldable pub escaped : ℕ → Text
escaped c =
    if c == b'"'
    then b'\\' ∷ b'"' ∷ []
    else if c == b'\\'
    then b'\\' ∷ b'\\' ∷ []
    else if c == b'\n'
    then b'\\' ∷ b'n' ∷ []
    else if c == b'\r'
    then b'\\' ∷ b'r' ∷ []
    else if c == b'\t'
    then b'\\' ∷ b't' ∷ []
    else c ∷ []

-- `for c in arg.chars()`
unfoldable pub escaped_all : Text → Text
unfolding escaped
escaped_all [] = []
escaped_all (c ∷ cs) = escaped c ++ escaped_all cs

abbrev pub needs_quotes : ℕ → Bool
needs_quotes c = is_whitespace c || c == b'"' || c == b'\'' || c == b'\\'

unfoldable pub quote_arg : Text → Text
unfolding escaped_all
quote_arg arg =
    if not (is_empty arg) && not (any needs_quotes arg)
    then arg
    else b'"' ∷ (escaped_all arg ++ b'"' ∷ [])
