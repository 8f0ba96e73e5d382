-- ===== src/Query/Tokens/Slices.antt =====
-- The words of `sql_tokens` are slices of the query, in order.
use tradar.Base.{ℕ, ◌<◌, Bool, List, [], ◌∷◌, ◌++◌, ◌≡◌, length, length, Text}
use tradar.Query.Tokens.{SqlToken, Round, skip, push}
use tradar.Query.Tokens.Gaps.{Gap}
use tradar.Query.Tokens.Words.{IsWord}

-- The two parts of a pair make up a text.
abbrev Splits : Text × Text → Text → Type 0
Splits p s = p.0 ++ p.1 ≡ s

-- A round of the loop takes something off the text: the word, if it makes one, or some of the gap in
-- front of the next one, and no more.
data Takes (alnum : ℕ → Bool) : Round → Text → Type 0 where
  skips : {rest s : Text} → Gap rest s → length rest < length s → Takes alnum (skip rest) s
  pushes :
      {word rest s : Text} {at_depth next : ℕ}
      → (word ++ rest ≡ s)
      → IsWord alnum word
      → Takes alnum (push word at_depth next rest) s

-- Words that stand in a text, one behind the other, with nothing but gaps between them, in front of
-- the first and behind the last.
pub data Slices (alnum : ℕ → Bool) : List SqlToken → Text → Type 0 where
  nothing : {s : Text} → Gap [] s → Slices alnum [] s
  slice :
      {ts : List SqlToken} {t : SqlToken} {s rest : Text}
      → Gap (t.word ++ rest) s
      → IsWord alnum t.word
      → Slices alnum ts rest
      → Slices alnum (t ∷ ts) s
