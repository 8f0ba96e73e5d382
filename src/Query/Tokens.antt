-- ===== src/Query/Tokens.antt =====
-- crates/tradar-query/src/completion.rs: the words and punctuation of a query, each with the depth of
-- the parentheses around it. The source walks an index over the characters; here the walk goes over
-- what is left of the text behind the index.
pub mod Gaps
pub mod Words
pub mod Slices
use tradar.Base.{
  ℕ, zero, suc, ◌+◌, ◌-◌, Bool, true, false, not, ◌&&◌, ◌||◌, List, [], ◌∷◌, ◌++◌, Option, none,
  some, ◌==◌, if◌then◌else◌, length, drop, is_empty, all, Text, text, is_whitespace,
  is_alphanumeric, is_ascii_digit, lower, one_of,
}

pub record SqlToken : Type 0 where
  pub word : Text
  pub depth : ℕ

-- Words that start a clause behind the `FROM` list.
unfoldable pub is_clause_keyword : Text → Bool
is_clause_keyword word =
    one_of (lower word)
      (text "where" ∷ text "order" ∷ text "limit" ∷ text "offset" ∷ text "fetch" ∷ text "for" ∷ [])

abbrev pub word_char : (ℕ → Bool) → ℕ → Bool
word_char alnum c = is_alphanumeric alnum c || c == b'_' || c == b'.' || c == b'$'

abbrev starts_with_digit : Text → Bool
starts_with_digit [] = false
starts_with_digit (c ∷ _) = is_ascii_digit c

unfoldable pub is_identifier : (ℕ → Bool) → Text → Bool
is_identifier alnum word =
    not (is_empty word) && all (word_char alnum) word && not (starts_with_digit word)

abbrev cons_word : ℕ → Text × Text → Text × Text
cons_word c (word, rest) = (c ∷ word, rest)

-- A quoted string behind its opening quote, through the closing one: the word, and what is left.
unfoldable pub behind_quote : ℕ → Text → Text × Text
behind_quote q [] = ([], [])
behind_quote q (c ∷ []) = (c ∷ [], [])
behind_quote q (c ∷ d ∷ cs) =
    let doubled = behind_quote q cs in
    let plain = behind_quote q (d ∷ cs) in
    if c == q
    then (if d == q then cons_word c (cons_word d doubled) else (c ∷ [], d ∷ cs))
    else cons_word c plain

-- `while i < chars.len() && chars[i] != '\n'`
unfoldable pub line_end : Text → Text
line_end [] = []
line_end (c ∷ cs) = let rest = line_end cs in if c == b'\n' then c ∷ cs else rest

-- What is left behind `*/`.
unfoldable pub comment_end : Text → Text
comment_end [] = []
comment_end (c ∷ []) = []
comment_end (c ∷ d ∷ cs) =
    let rest = comment_end (d ∷ cs) in if c == b'*' && d == b'/' then cs else rest

-- The characters of a word in front of a text, and what is left.
unfoldable pub word_end : (ℕ → Bool) → Text → Text × Text
word_end alnum [] = ([], [])
word_end alnum (c ∷ cs) =
    let more = word_end alnum cs in if word_char alnum c then cons_word c more else ([], c ∷ cs)

abbrev pub follows : ℕ → Text → Bool
follows c [] = false
follows c (d ∷ _) = d == c

-- What a round of the loop makes: the token, if any, the depth, and what is left.
pub data Round : Type 0 where
  skip : Text → Round
  push : Text → ℕ → ℕ → Text → Round

unfoldable pub round : (ℕ → Bool) → ℕ → ℕ → Text → Round
round alnum depth c cs =
    if c == b'\'' || c == b'"'
    then push (c ∷ (behind_quote c cs).0) depth depth (behind_quote c cs).1
    else if c == b'-' && follows b'-' cs
    then skip (line_end cs)
    else if c == b'/' && follows b'*' cs
    then skip (comment_end (drop 1 cs))
    else if c == b'('
    then push (text "(") (depth + 1) (depth + 1) cs
    else if c == b')'
    then push (text ")") depth (depth - 1) cs
    else if is_whitespace c
    then skip cs
    else if word_char alnum c
    then push (word_end alnum (c ∷ cs)).0 depth depth (word_end alnum (c ∷ cs)).1
    else push (c ∷ []) depth depth cs

-- The loop. Every round takes a character, so a fuel above the length is never used up.
unfoldable pub tokens_loop : (ℕ → Bool) → ℕ → ℕ → Text → List SqlToken
tokens_loop alnum zero depth s = []
tokens_loop alnum (suc fuel) depth [] = []
tokens_loop alnum (suc fuel) depth (c ∷ cs) = elim (round alnum depth c cs) [
  | skip rest ↦ tokens_loop alnum fuel depth rest
  | push word at_depth next rest ↦
      record { word = word; depth = at_depth } ∷ tokens_loop alnum fuel next rest
]

unfoldable pub sql_tokens : (ℕ → Bool) → Text → List SqlToken
sql_tokens alnum sql = tokens_loop alnum (suc (length sql)) 0 sql
