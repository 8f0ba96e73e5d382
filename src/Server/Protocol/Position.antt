-- ===== src/Server/Protocol/Position.antt =====
-- crates/tradar-server/src/protocol.rs, `error_position`: where in a statement an error is, read from
-- the mark in its text.
pub mod Mark
use tradar.Base.{
  ℕ, ◌+◌, ◌-◌, Bool, List, [], ◌∷◌, ◌++◌, Option, none, some, leb, if◌then◌else◌, length,
  take_while, drop_while, head?, Text, text, is_ascii_digit, strip_prefix, position,
}
use tradar.Base.Lines.{lines}
use tradar.Base.Decimal.{parse_below, u64_bound}
use tradar.Query.Source.{and_then}

-- The digits of a line `LINE N: …`.
unfoldable pub mark_digits : Text → Option Text
unfolding strip_prefix is_ascii_digit
mark_digits line = and_then (strip_prefix (text "LINE ") line) λ rest.
    and_then (strip_prefix (text ": ") (drop_while is_ascii_digit rest))
      λ after. some (take_while is_ascii_digit rest)

-- `checked_sub`
abbrev pub checked_sub : ℕ → ℕ → Option ℕ
checked_sub a b = if leb b a then some (a - b) else none

-- What the line behind the mark says: `^` as far right of the mark's prefix as the column is.
unfoldable pub position_at : Text → Option Text → Option (ℕ × ℕ)
unfolding parse_below position
position_at digits below = and_then (parse_below u64_bound digits) λ line_number.
    and_then below λ caret_line. and_then (position b'^' caret_line) λ caret_at.
      and_then (checked_sub caret_at (length (text "LINE ") + length digits + length (text ": ")))
        λ column. some (line_number, column)

abbrev pub if_mark : Option Text → Option Text → Option (ℕ × ℕ) → Option (ℕ × ℕ)
if_mark none below later = later
if_mark (some digits) below later = position_at digits below

unfoldable pub position_in : List Text → Option (ℕ × ℕ)
unfolding mark_digits position_at
position_in [] = none
position_in (line ∷ more) =
    let later = position_in more in if_mark (mark_digits line) (head? more) later

unfoldable pub error_position : Text → Option (ℕ × ℕ)
unfolding position_in lines
error_position message = position_in (lines message)
