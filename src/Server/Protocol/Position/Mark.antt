-- ===== src/Server/Protocol/Position/Mark.antt =====
-- `error_position` reads back what `line_and_caret` renders (crates/tradar-query/src/sql_split.rs),
-- behind the text of the error and in front of further lines.
use tradar.Base.{
  ℕ, zero, suc, ◌+◌, ◌<◌, Bool, true, List, [], ◌∷◌, ◌++◌, none, some, ◌≡◌, ◌⊎◌, refl, sym, ap, ◌∙◌,
  inl, inr, arith, append_assoc, append-nil, length, length-append, take_while-append, all, All,
  head?, replicate, Text, text, is_ascii_digit, strip_prefix, position, count, decimal,
}
use tradar.Base.Lines.{lines, is_plain, lines-plain, lines-last, lines-break, lines-single}
use tradar.Base.Decimal.{parse_below, u64_bound, parse_below-decimal, digits-decimal}
use tradar.Query.Caret.{marked}
use tradar.Server.Protocol.Position.{
  mark_digits, checked_sub, position_at, position_in, error_position,
}

-- No line of the text looks like a mark.
abbrev pub Markless : List Text → Type 0
Markless = All (λ line. mark_digits line ≡ none)

position_in-Markless :
    (ls more : List Text) → Markless ls → position_in (ls ++ more) ≡ position_in more
unfolding position_in
position_in-Markless [] more h = refl
position_in-Markless (l ∷ ls) more h = rw h.0 (position_in-Markless ls more h.1)

all-append : (p : ℕ → Bool) (s t : Text) → all p s ≡ true → all p t ≡ true → all p (s ++ t) ≡ true
all-append p [] t h k = k
all-append p (c ∷ s) t h k = ground (arith, all-append p s t, h, k)

all-replicate : (p : ℕ → Bool) (n c : ℕ) → p c ≡ true → all p (replicate n c) ≡ true
all-replicate p zero c h = refl
all-replicate p (suc n) c h = rw h (all-replicate p n c h)

plain-digits : (s : Text) → all is_ascii_digit s ≡ true → all is_plain s ≡ true
unfolding is_ascii_digit
plain-digits [] h = refl
plain-digits (c ∷ s) h = ground (arith, plain-digits s, h)

mark_digits-mark :
    (n : ℕ) (w : Text)
    → mark_digits (text "LINE " ++ (decimal n ++ (text ": " ++ w))) ≡ some (decimal n)
unfolding mark_digits strip_prefix
mark_digits-mark n w =
    let (taken, left) =
      take_while-append is_ascii_digit (decimal n) b':' (text " " ++ w) (digits-decimal n)
        (unfold is_ascii_digit in refl) in
    rw (taken, left) refl

-- The line under the mark.
abbrev caret_line : ℕ → ℕ → Text
caret_line indent offset = replicate indent b' ' ++ (replicate offset b' ' ++ text "^")

position-caret_line :
    (indent offset : ℕ) → position b'^' (caret_line indent offset) ≡ some (indent + offset)
unfolding position
position-caret_line zero zero = refl
position-caret_line zero (suc n) = rw (position-caret_line zero n) (ap some (omega arith))
position-caret_line (suc m) n = rw (position-caret_line m n) (ap some (omega arith))

-- What may stand behind the mark: nothing, or further lines.
abbrev pub Ends : Text → Type 0
Ends behind = (behind ≡ []) ⊎ ((t : Text) × (behind ≡ b'\n' ∷ t))

abbrev spaces : ℕ → ℕ → Text
spaces indent offset = replicate indent b' ' ++ replicate offset b' '

caret_line-spaces :
    (indent offset : ℕ) → caret_line indent offset ≡ spaces indent offset ++ text "^"
caret_line-spaces indent offset =
    sym (append_assoc (replicate indent b' ') (replicate offset b' ') (text "^"))

plain-spaces : (indent offset : ℕ) → all is_plain (spaces indent offset) ≡ true
plain-spaces indent offset =
    all-append is_plain (replicate indent b' ') (replicate offset b' ')
      (all-replicate is_plain indent b' ' refl) (all-replicate is_plain offset b' ' refl)

head-spaces :
    (s behind : Text)
    → all is_plain s ≡ true
    → Ends behind
    → head? (lines ((s ++ text "^") ++ behind)) ≡ some (s ++ text "^")
head-spaces s behind plain (inl e) =
    rw (e, append-nil (s ++ text "^")) (ap head? (lines-last s b'^' plain refl))
head-spaces s behind plain (inr (t, e)) = rw e (
    ap head? (
      lines-plain (s ++ text "^") (b'\n' ∷ t) [] (lines t)
        (all-append is_plain s (text "^") plain refl) (unfold lines in refl))
    ∙ ap some (append-nil (s ++ text "^")))

head-caret_line :
    (indent offset : ℕ) (behind : Text)
    → Ends behind
    → head? (lines (caret_line indent offset ++ behind)) ≡ some (caret_line indent offset)
head-caret_line indent offset behind ends =
    ap (λ t. head? (lines (t ++ behind))) (caret_line-spaces indent offset)
    ∙ head-spaces (spaces indent offset) behind (plain-spaces indent offset) ends
    ∙ ap some (sym (caret_line-spaces indent offset))

checked_sub-add : (a b : ℕ) → checked_sub (a + b) a ≡ some b
checked_sub-add a b = ground arith

-- A line is found by a prefix that reads as a mark's, and by what stands below.
error_position-prefix :
    (pre digits message line behind : Text) (n offset : ℕ)
    → all is_plain pre ≡ true
    → ((w : Text) → mark_digits (pre ++ w) ≡ some digits)
    → parse_below u64_bound digits ≡ some n
    → length (text "LINE ") + length digits + length (text ": ") ≡ length pre
    → Markless (lines (message ++ text "\n"))
    → count b'\n' line ≡ 0
    → Ends behind
    → error_position
        (message ++ b'\n' ∷ (pre ++ (line ++ b'\n' ∷ (caret_line (length pre) offset ++ behind))))
      ≡ some (n, offset)
unfolding error_position
error_position-prefix pre digits message line behind n offset plain reads parses wide markless one
      ends =
    let below = caret_line (length pre) offset ++ behind in
    let (w, single) = lines-single line below one in
    ap position_in (lines-break message _)
    ∙ position_in-Markless (lines (message ++ text "\n")) _ markless
    ∙ ap position_in (lines-plain pre _ w (lines below) plain single)
    ∙ (unfold position_in in
        rw (reads w, head-caret_line (length pre) offset behind ends)
          (unfold position_at in
            rw (parses, position-caret_line (length pre) offset, wide, checked_sub-add) refl))

append-marked :
    (pre line caret behind : Text)
    → (pre ++ (line ++ b'\n' ∷ caret)) ++ behind ≡ pre ++ (line ++ b'\n' ∷ (caret ++ behind))
append-marked pre line caret behind =
    append_assoc pre _ behind ∙ ap (◌++◌ pre) (append_assoc line (b'\n' ∷ caret) behind)

-- The mark that `line_and_caret` renders, on lines of its own behind a text in which no line looks
-- like one, is read back as the number of its line and the column of its caret, whatever lines
-- follow. The number of the line is one of 64 bits.
pub error_position-marked :
    (message line behind : Text) (n offset : ℕ)
    → Markless (lines (message ++ text "\n"))
    → count b'\n' line ≡ 0
    → n < u64_bound
    → Ends behind
    → error_position (message ++ b'\n' ∷ (marked n line offset ++ behind)) ≡ some (n, offset)
error_position-marked message line behind n offset markless one h ends =
    let pre = text "LINE " ++ (decimal n ++ text ": ") in
    let plain : all is_plain pre ≡ true =
      all-append is_plain (decimal n) (text ": ") (plain-digits (decimal n) (digits-decimal n))
        refl in
    ap (λ t. error_position (message ++ b'\n' ∷ t))
      (append-marked pre line (caret_line (length pre) offset) behind)
    ∙ error_position-prefix pre (decimal n) message line behind n offset plain
        (λ w.
          ap (λ t. mark_digits (text "LINE " ++ t)) (append_assoc (decimal n) (text ": ") w)
          ∙ mark_digits-mark n w)
        (parse_below-decimal u64_bound n (omega arith) ∙ ground (arith, h))
        (omega (arith, length-append (decimal n) (text ": "))) markless one ends
