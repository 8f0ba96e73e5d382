-- ===== src/Query/Statements.antt =====
-- crates/tradar-query/src/sql_split.rs: a SQL buffer and its statements. The source walks an index
-- into the bytes of the buffer. Here the walk goes over what is left of the buffer behind the index,
-- one character at a time: the bytes of a character beyond ASCII take the last arm of the source's
-- `match`, and every text that is looked for is ASCII. `slice` is the text from `start` to the index.
pub mod Cover
pub mod Inert
pub mod Tags
pub mod Lexed
pub mod Found
use tradar.Base.{
  ℕ, zero, suc, ◌+◌, ◌-◌, Bool, false, ◌&&◌, ◌||◌, List, [], ◌∷◌, ◌++◌, Option, none, some, ◌==◌,
  if◌then◌else◌, length, take, drop, is_empty, all, Text, text, len, is_alphanumeric, trim_start,
  trim_end, trim, strip_prefix, find,
}

pub record Statement : Type 0 where
  pub text : Text
  pub start : ℕ
  pub end : ℕ

-- Is `c` the next character?
abbrev pub next_is : ℕ → Text → Bool
next_is c [] = false
next_is c (d ∷ _) = d == c

-- `find(p).map_or(end, |n| n + k)`: up to the end of the first `p`, or everything.
abbrev pub up_to : Option ℕ → ℕ → Text → ℕ
up_to none k s = length s
up_to (some n) k s = n + k

-- The loop over a quoted body: how many characters from the opening quote's successor on, the
-- closing quote included. Without a closing quote the index ends one past the end.
unfoldable pub quoted : ℕ → Text → ℕ
quoted q [] = 1
quoted q (c ∷ []) = if c == q then 1 else 2
quoted q (c ∷ d ∷ cs) =
    let escaped = 2 + quoted q cs in
    let plain = 1 + quoted q (d ∷ cs) in if c == q then (if d == q then escaped else 1) else plain

-- `dollar_tag`, on the text behind the `$`
unfoldable pub dollar_tag : (ℕ → Bool) → Text → Option Text
dollar_tag alnum rest = elim (find (b'$' ∷ []) rest) [
  | none ↦ none
  | some end ↦
      let tag = take end rest in
      if all (λ c. is_alphanumeric alnum c || c == b'_') tag
      then some (b'$' ∷ (tag ++ b'$' ∷ []))
      else none
]

abbrev pub dollar_quoted : Option Text → Text → ℕ
dollar_quoted none s = 1
dollar_quoted (some tag) s =
    let body = drop (length tag) s in length tag + up_to (find tag body) (length tag) body

-- The arms of the `match`, but for `;`: how far the index moves, in characters.
unfoldable pub advance : (ℕ → Bool) → ℕ → Text → ℕ
unfolding quoted dollar_tag
advance alnum c cs =
    if c == b'\'' || c == b'"'
    then 1 + quoted c cs
    else if c == b'-' && next_is b'-' cs
    then up_to (find (b'\n' ∷ []) (c ∷ cs)) 0 (c ∷ cs)
    else if c == b'/' && next_is b'*' cs
    then 2 + up_to (find (text "*/") (drop 1 cs)) 2 (drop 1 cs)
    else if c == b'$'
    then dollar_quoted (dollar_tag alnum cs) (c ∷ cs)
    else 1

-- The loop of `strip_leading_comments`; every round shortens the text, so its length is enough fuel.
unfoldable pub strip_comments : ℕ → Text → Text
strip_comments zero rest = rest
strip_comments (suc fuel) rest = elim (strip_prefix (text "--") rest) [
  | some after ↦
      strip_comments fuel
        (trim_start (elim (find (b'\n' ∷ []) after) [ none ↦ [] | some i ↦ drop (i + 1) after ]))
  | none ↦ elim (strip_prefix (text "/*") rest) [
    | some after ↦
        strip_comments fuel
          (trim_start (elim (find (text "*/") after) [ none ↦ [] | some i ↦ drop (i + 2) after ]))
    | none ↦ rest
  ]
]

unfoldable pub strip_leading_comments : Text → Text
unfolding strip_comments
strip_leading_comments sql = strip_comments (suc (length sql)) (trim_start sql)

-- Is there anything to run in `slice`?
abbrev pub is_blank : Text → Bool
is_blank slice = is_empty (trim (strip_leading_comments slice))

-- What `push_statement` appends for the slice from `start` to `end`.
unfoldable pub pushed : Text → ℕ → ℕ → List Statement
unfolding strip_leading_comments
pushed slice start end =
    if is_blank slice
    then []
    else record {
      text = trim slice;
      start = start + (len slice - len (trim_start slice));
      end = end - (len slice - len (trim_end slice));
    }
      ∷ []

-- `push_statement`
unfoldable pub push_statement : Text → ℕ → ℕ → List Statement → List Statement
unfolding pushed
push_statement slice start end out = out ++ pushed slice start end

-- The loop. Every round takes at least one character, so a fuel above the length is never used up.
unfoldable pub split_loop : (ℕ → Bool) → ℕ → Text → ℕ → Text → List Statement → List Statement
unfolding advance push_statement
split_loop alnum zero slice start rest out = out
split_loop alnum (suc fuel) slice start [] out = push_statement slice start (start + len slice) out
split_loop alnum (suc fuel) slice start (c ∷ cs) out =
    let i = start + len slice in
    let n = advance alnum c cs in
    let next = split_loop alnum fuel [] (i + 1) cs (push_statement slice start i out) in
    let on = split_loop alnum fuel (slice ++ take n (c ∷ cs)) start (drop n (c ∷ cs)) out in
    if c == b';' then next else on

unfoldable pub split_sql_statements : (ℕ → Bool) → Text → List Statement
unfolding split_loop
split_sql_statements alnum sql = split_loop alnum (suc (length sql)) [] 0 sql []
