-- ===== src/Query/Caret.antt =====
-- crates/tradar-query/src/sql_split.rs: `line_and_caret`, over the characters of the text. The
-- number of the line is printed in decimal, as `{}` of `format!` does.
pub mod Line
use tradar.Base.{
  ℕ, zero, suc, ◌+◌, ◌-◌, ◌/◌, ◌%◌, ◌<◌, ◌≤◌, Bool, true, false, List, [], ◌∷◌, ◌++◌, Option, none,
  some, ◌≡◌, ◌≢◌, refl, sym, ap, ◌∙◌, ◌⊎◌, ◌↔◌, inl, inr, arith, ltb, leb, ◌==◌, if◌then◌else◌,
  Bool-cases, append_assoc, append-nil, length, length-append, take, drop, replicate,
  take-append-drop, count, take-length-append, drop-length-append, All, Text, text, position,
  decimal,
}

-- The loop over the characters in front of the index: the line's number and where it starts.
unfoldable pub scan : ℕ → ℕ → ℕ → Text → ℕ × ℕ
scan i line_number line_start [] = (line_number, line_start)
scan i line_number line_start (c ∷ cs) =
    let newline = c == b'\n' in
    scan (i + 1) (if newline then line_number + 1 else line_number)
      (if newline then i + 1 else line_start) cs

-- `map_or(chars.len(), |n| line_start + n)` on the first newline
abbrev line_end : Option ℕ → ℕ → ℕ → ℕ
line_end none line_start total = total
line_end (some n) line_start total = line_start + n

-- The text of the error's mark, once the line is known.
abbrev pub marked : ℕ → Text → ℕ → Text
marked line_number line caret_offset =
    let prefix = text "LINE " ++ (decimal line_number ++ text ": ") in
    prefix
    ++ (line
        ++ (b'\n' ∷ (replicate (length prefix) b' ' ++ (replicate caret_offset b' ' ++ text "^"))))

unfoldable pub line_and_caret : Text → ℕ → Option Text
unfolding scan
line_and_caret sql zero = none
line_and_caret sql (suc index) =
    let (line_number, line_start) = scan 0 1 0 (take index sql) in
    let tail = drop line_start sql in
    let end = line_end (position b'\n' tail) line_start (length sql) in
    let line = take (end - line_start) tail in
    if leb (length sql) index then none else some (marked line_number line (index - line_start))
