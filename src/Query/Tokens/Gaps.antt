-- ===== src/Query/Tokens/Gaps.antt =====
-- The white space and comments between the words of a query.
use tradar.Base.{
  sym, ℕ, suc, ◌+◌, Bool, true, false, [], ◌∷◌, ◌≡◌, refl, ◌∙◌, inl, inr, arith, Bool-cases, ◌==◌,
  length, find, strip_prefix, length-drop, Option, none, some, Option-cases, text, ◌≤◌, length,
  drop, Text, is_whitespace,
}
use tradar.Query.Tokens.{line_end, comment_end}

-- `Gap rest s`: in front of `rest`, the text `s` has nothing but white space and comments. A line
-- comment goes up to the end of its line, a block comment through the first `*/`; one that has no end
-- takes the rest.
pub data Gap : Text → Text → Type 0 where
  here : {s : Text} → Gap s s
  blank : {c : ℕ} {s rest : Text} → is_whitespace c ≡ true → Gap rest s → Gap rest (c ∷ s)
  line :
      {after rest : Text} (n : ℕ)
      → find (b'\n' ∷ []) after ≡ some n
      → Gap rest (drop n after)
      → Gap rest (b'-' ∷ b'-' ∷ after)
  last_line : {after : Text} → find (b'\n' ∷ []) after ≡ none → Gap [] (b'-' ∷ b'-' ∷ after)
  block :
      {after rest : Text} (n : ℕ)
      → find (text "*/") after ≡ some n
      → Gap rest (drop (n + 2) after)
      → Gap rest (b'/' ∷ b'*' ∷ after)
  last_block : {after : Text} → find (text "*/") after ≡ none → Gap [] (b'/' ∷ b'*' ∷ after)

pub Gap-trans : {s t u : Text} → Gap u t → Gap t s → Gap u s
Gap-trans g here = g
Gap-trans g (blank w h) = blank w (Gap-trans g h)
Gap-trans g (line n e h) = line n e (Gap-trans g h)
Gap-trans g (block n e h) = block n e (Gap-trans g h)
Gap-trans here (last_line e) = last_line e
Gap-trans here (last_block e) = last_block e

-- Where a comment ends, with `k` characters of its end in it.
abbrev behind : Option ℕ → ℕ → Text → Text
behind none k after = []
behind (some n) k after = drop (n + k) after

length-behind : (o : Option ℕ) (k : ℕ) (after : Text) → length (behind o k after) ≤ length after
length-behind none k after = omega arith
length-behind (some n) k after = omega (arith, length-drop (n + k) after)

abbrev later : Option ℕ → Option ℕ
later o = elim o [ none ↦ none | some n ↦ some (suc n) ]

behind-later : (o : Option ℕ) (k c : ℕ) (s : Text) → behind (later o) k (c ∷ s) ≡ behind o k s
behind-later none k c s = refl
behind-later (some n) k c s = let e : suc n + k ≡ suc (n + k) = omega arith in rw e refl

flip : (c d : ℕ) (b : Bool) → (c == d) ≡ b → (d == c) ≡ b
flip c d true e = ground arith
flip c d false e = ground arith

line_end-find : (s : Text) → line_end s ≡ behind (find (b'\n' ∷ []) s) 0 s
unfolding line_end find strip_prefix
line_end-find [] = refl
line_end-find (c ∷ cs) = elim (Bool-cases (c == b'\n')) [
  | inl e ↦ rw (e, flip c b'\n' true e, behind, find) refl
  | inr e ↦
      rw (e, flip c b'\n' false e, behind, find)
        (line_end-find cs ∙ sym (behind-later (find (b'\n' ∷ []) cs) 0 c cs))
]

comment_end-find : (s : Text) → comment_end s ≡ behind (find (text "*/") s) 2 s
unfolding comment_end find strip_prefix
comment_end-find [] = refl
comment_end-find (c ∷ []) = elim (Bool-cases (b'*' == c)) [
  | inl e ↦ rw (e, behind, find) refl
  | inr e ↦ rw (e, behind, find) refl
]
comment_end-find (c ∷ d ∷ cs) =
    let more =
      comment_end-find (d ∷ cs) ∙ sym (behind-later (find (text "*/") (d ∷ cs)) 2 c (d ∷ cs)) in
    elim (Bool-cases (c == b'*')) [
      | inl e ↦ elim (Bool-cases (d == b'/')) [
        | inl f ↦ rw (e, f, flip c b'*' true e, flip d b'/' true f, behind, find) refl
        | inr f ↦ rw (e, f, flip c b'*' true e, flip d b'/' false f, behind, find) more
      ]
      | inr e ↦ rw (e, flip c b'*' false e, behind, find) more
    ]

pub line_end-length : (s : Text) → length (line_end s) ≤ length s
line_end-length s = rw (line_end-find s) (length-behind (find (b'\n' ∷ []) s) 0 s)

pub comment_end-length : (s : Text) → length (comment_end s) ≤ length s
comment_end-length s = rw (comment_end-find s) (length-behind (find (text "*/") s) 2 s)

pub line_end-Gap : (after : Text) → Gap (line_end after) (b'-' ∷ b'-' ∷ after)
line_end-Gap after = rw (line_end-find after) (elim (Option-cases (find (b'\n' ∷ []) after)) [
  | inl e ↦ rw e (last_line e)
  | inr (n, e) ↦ let z : n + 0 ≡ n = omega arith in rw e (rw z (line n e here))
])

pub comment_end-Gap : (after : Text) → Gap (comment_end after) (b'/' ∷ b'*' ∷ after)
comment_end-Gap after = rw (comment_end-find after) (elim (Option-cases (find (text "*/") after)) [
  | inl e ↦ rw e (last_block e)
  | inr (n, e) ↦ rw e (block n e here)
])
