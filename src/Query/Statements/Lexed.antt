-- ===== src/Query/Statements/Lexed.antt =====
-- How a buffer of SQL is cut at its separators (crates/tradar-query/src/sql_split.rs), described apart
-- from the loop of `split_sql_statements`: its lexemes, and the slices between the separators.
use tradar.Base.{
  ℕ, zero, suc, ◌+◌, ◌<◌, Bool, true, false, ◌&&◌, ◌||◌, List, [], ◌∷◌, ◌++◌, none, some, ◌≡◌, ◌≢◌,
  ◌⊎◌, refl, sym, subst, ◌∙◌, inl, inr, arith, ◌==◌, ==_iff, if◌then◌else◌, Bool-cases,
  Option-cases, find, length, take, drop, take-append-drop, Text, text,
}
use tradar.Query.Statements.{next_is, quoted, dollar_tag, advance, up_to, dollar_quoted}
use tradar.Query.Statements.Tags.{IsTag, NoTag, dollar_tag-none, dollar_tag-some}
use tradar.Query.Statements.Cover.{slices, shorter}

-- `Quoted q s rest`: behind an opening quote `q` stands `s`, of which `rest` is behind the closing quote.
-- A doubled quote stands for one; a text with no closing quote goes on to the end.
pub data Quoted (q : ℕ) : Text → Text → Type 0 where
  unclosed : Quoted q [] []
  closed : {rest : Text} → next_is q rest ≡ false → Quoted q (q ∷ rest) rest
  twice : {s rest : Text} → Quoted q s rest → Quoted q (q ∷ q ∷ s) rest
  other : {c : ℕ} {s rest : Text} → c ≢ q → Quoted q s rest → Quoted q (c ∷ s) rest

-- A character that stands for itself in front of `cs`, and does not separate.
pub record IsPlain (alnum : ℕ → Bool) (c : ℕ) (cs : Text) : Type 0 where
  pub no_separator : c ≢ b';'
  pub no_quote : (c ≢ b'\'') × (c ≢ b'"')
  pub no_line : c ≡ b'-' → next_is b'-' cs ≡ false
  pub no_block : c ≡ b'/' → next_is b'*' cs ≡ false
  pub no_dollar : c ≡ b'$' → NoTag alnum cs

-- `Lexeme s rest`: `rest` is what is left of `s` behind its first lexeme: a quoted text, a comment, a
-- text between two tags of dollars, or a plain character. One that has no end takes the rest.
pub data Lexeme (alnum : ℕ → Bool) : Text → Text → Type 0 where
  in_quotes :
      {q : ℕ} {s rest : Text}
      → (q ≡ b'\'') ⊎ (q ≡ b'"')
      → Quoted q s rest
      → Lexeme alnum (q ∷ s) rest
  line :
      {after : Text} (n : ℕ)
      → find (b'\n' ∷ []) after ≡ some n
      → Lexeme alnum (b'-' ∷ b'-' ∷ after) (drop n after)
  last_line :
      {after : Text} → find (b'\n' ∷ []) after ≡ none → Lexeme alnum (b'-' ∷ b'-' ∷ after) []
  block :
      {after : Text} (n : ℕ)
      → find (text "*/") after ≡ some n
      → Lexeme alnum (b'/' ∷ b'*' ∷ after) (drop (n + 2) after)
  last_block :
      {after : Text} → find (text "*/") after ≡ none → Lexeme alnum (b'/' ∷ b'*' ∷ after) []
  dollars :
      {cs tag : Text} (n : ℕ)
      → IsTag alnum cs tag
      → find tag (drop (length tag) (b'$' ∷ cs)) ≡ some n
      → Lexeme alnum (b'$' ∷ cs) (drop (n + length tag) (drop (length tag) (b'$' ∷ cs)))
  last_dollars :
      {cs tag : Text}
      → IsTag alnum cs tag
      → find tag (drop (length tag) (b'$' ∷ cs)) ≡ none
      → Lexeme alnum (b'$' ∷ cs) []
  plain : {c : ℕ} {cs : Text} → IsPlain alnum c cs → Lexeme alnum (c ∷ cs) cs

-- `Sliced slice rest ss`: with `slice` in front of `rest` since the last separator, the slices from
-- there on are `ss`. A separator is a `;` that is no part of a lexeme.
pub data Sliced (alnum : ℕ → Bool) : Text → Text → List Text → Type 0 where
  ends : {slice : Text} → Sliced alnum slice [] (slice ∷ [])
  separator :
      {slice cs : Text} {ss : List Text}
      → Sliced alnum [] cs ss
      → Sliced alnum slice (b';' ∷ cs) (slice ∷ ss)
  lexeme :
      {slice rest : Text} {ss : List Text} (word : Text)
      → Lexeme alnum (word ++ rest) rest
      → Sliced alnum (slice ++ word) rest ss
      → Sliced alnum slice (word ++ rest) ss

drop_all : (s : Text) → drop (length s) s ≡ []
drop_all [] = refl
drop_all (c ∷ s) = drop_all s

drop-nil : (n : ℕ) → drop {A = ℕ} n [] ≡ []
drop-nil zero = refl
drop-nil (suc n) = refl

drop-drop : (a b : ℕ) (s : Text) → drop (a + b) s ≡ drop b (drop a s)
drop-drop zero b s = let e : 0 + b ≡ b = omega arith in rw e refl
drop-drop (suc a) b [] = drop-nil (suc a + b) ∙ sym (drop-nil b)
drop-drop (suc a) b (c ∷ s) =
    let e : suc a + b ≡ suc (a + b) = omega arith in rw e (drop-drop a b s)

quoted-Quoted : (q : ℕ) (s : Text) → Quoted q s (drop (quoted q s) s)
unfolding quoted
quoted-Quoted q [] = unclosed
quoted-Quoted q (c ∷ []) = elim (Bool-cases (c == q)) [
  | inl e ↦ rw e (subst (λ x. Quoted q (x ∷ []) []) (sym ((==_iff c q).0 e)) (closed refl))
  | inr e ↦ rw e (other (λ h. absurd (ground arith)) unclosed)
]
quoted-Quoted q (c ∷ d ∷ cs) = elim (Bool-cases (c == q)) [
  | inl e ↦ elim (Bool-cases (d == q)) [
    | inl f ↦
        let n : 2 + quoted q cs ≡ suc (suc (quoted q cs)) = omega arith in
        rw (e, f)
          (rw n (
            subst (λ x. Quoted q (x ∷ d ∷ cs) (drop (quoted q cs) cs)) (sym ((==_iff c q).0 e))
              (subst (λ x. Quoted q (q ∷ x ∷ cs) (drop (quoted q cs) cs)) (sym ((==_iff d q).0 f))
                (twice (quoted-Quoted q cs)))))
    | inr f ↦
        rw (e, f) (subst (λ x. Quoted q (x ∷ d ∷ cs) (d ∷ cs)) (sym ((==_iff c q).0 e)) (closed f))
  ]
  | inr e ↦
      let n : 1 + quoted q (d ∷ cs) ≡ suc (quoted q (d ∷ cs)) = omega arith in
      rw e (rw n (other (λ h. absurd (ground arith)) (quoted-Quoted q (d ∷ cs))))
]

-- How far a comment or a text between tags goes.
line-Lexeme :
    (alnum : ℕ → Bool) (after : Text)
    → (let s = b'-' ∷ b'-' ∷ after in Lexeme alnum s (drop (up_to (find (b'\n' ∷ []) s) 0 s) s))
unfolding find
line-Lexeme alnum after = elim (Option-cases (find (b'\n' ∷ []) after)) [
  | inl e ↦ rw e (rw (drop_all after) (last_line e))
  | inr (n, e) ↦ let m : suc (suc n) + 0 ≡ suc (suc n) = omega arith in rw e (rw m (line n e))
]

block-Lexeme :
    (alnum : ℕ → Bool) (after : Text)
    → Lexeme alnum
        (b'/' ∷ b'*' ∷ after)
        (drop (2 + up_to (find (text "*/") after) 2 after) (b'/' ∷ b'*' ∷ after))
block-Lexeme alnum after =
    let skip : (k : ℕ) → drop (2 + k) (b'/' ∷ b'*' ∷ after) ≡ drop k after =
      λ k. drop-drop 2 k (b'/' ∷ b'*' ∷ after) in
    elim (Option-cases (find (text "*/") after)) [
      | inl e ↦ rw e (rw (skip (length after), drop_all after) (last_block e))
      | inr (n, e) ↦ rw e (rw (skip (n + 2)) (block n e))
    ]

dollars-Lexeme :
    (alnum : ℕ → Bool) (cs tag : Text)
    → dollar_tag alnum cs ≡ some tag
    → Lexeme alnum (b'$' ∷ cs) (drop (dollar_quoted (some tag) (b'$' ∷ cs)) (b'$' ∷ cs))
dollars-Lexeme alnum cs tag t =
    let body = drop (length tag) (b'$' ∷ cs) in
    let skip = drop-drop (length tag) in
    elim (Option-cases (find tag body)) [
      | inl e ↦ rw e (
          rw (skip (length body) (b'$' ∷ cs), drop_all body)
            (last_dollars (dollar_tag-some alnum cs tag t) e))
      | inr (n, e) ↦
          rw e
            (rw (skip (n + length tag) (b'$' ∷ cs)) (dollars n (dollar_tag-some alnum cs tag t) e))
    ]

-- A lexeme that starts with two characters.
opened :
    (a b : ℕ) (n : Text → ℕ) (alnum : ℕ → Bool) (c : ℕ) (cs : Text)
    → ((after : Text) → Lexeme alnum (a ∷ b ∷ after) (drop (n (a ∷ b ∷ after)) (a ∷ b ∷ after)))
    → (c == a && next_is b cs) ≡ true
    → Lexeme alnum (c ∷ cs) (drop (n (c ∷ cs)) (c ∷ cs))
opened a b n alnum c [] l h = absurd (ground arith)
opened a b n alnum c (d ∷ after) l h =
    let e : c ≡ a = ground arith in
    let f : d ≡ b = ground arith in
    subst (λ x. Lexeme alnum (x ∷ d ∷ after) (drop (n (x ∷ d ∷ after)) (x ∷ d ∷ after))) (sym e)
      (subst (λ x. Lexeme alnum (a ∷ x ∷ after) (drop (n (a ∷ x ∷ after)) (a ∷ x ∷ after))) (sym f)
        (l after))

if_Lexeme :
    (alnum : ℕ → Bool) (b : Bool) (m n : ℕ) (s : Text)
    → (b ≡ true → Lexeme alnum s (drop m s))
    → (b ≡ false → Lexeme alnum s (drop n s))
    → Lexeme alnum s (drop (if b then m else n) s)
if_Lexeme alnum true m n s h k = h refl
if_Lexeme alnum false m n s h k = k refl

quote_of : (c : ℕ) → (c == b'\'' || c == b'"') ≡ true → (c ≡ b'\'') ⊎ (c ≡ b'"')
quote_of c h = elim (Bool-cases (c == b'\'')) [
  | inl e ↦ inl ((==_iff c b'\'').0 e)
  | inr e ↦ inr ((==_iff c b'"').0 (rw e at h))
]

quoted-Lexeme :
    (alnum : ℕ → Bool) (c : ℕ) (cs : Text)
    → (c == b'\'' || c == b'"') ≡ true
    → Lexeme alnum (c ∷ cs) (drop (1 + quoted c cs) (c ∷ cs))
quoted-Lexeme alnum c cs h =
    let n : 1 + quoted c cs ≡ suc (quoted c cs) = omega arith in
    rw n (in_quotes (quote_of c h) (quoted-Quoted c cs))

advance-Lexeme :
    (alnum : ℕ → Bool) (c : ℕ) (cs : Text)
    → (c == b';') ≡ false
    → Lexeme alnum (c ∷ cs) (drop (advance alnum c cs) (c ∷ cs))
unfolding advance
advance-Lexeme alnum c cs h =
    if_Lexeme alnum (c == b'\'' || c == b'"') _ _ _ (quoted-Lexeme alnum c cs) λ q.
      if_Lexeme alnum (c == b'-' && next_is b'-' cs) _ _ _
        (opened b'-' b'-' (λ s. up_to (find (b'\n' ∷ []) s) 0 s) alnum c cs (line-Lexeme alnum))
        λ l.
          if_Lexeme alnum (c == b'/' && next_is b'*' cs) _ _ _
            (opened b'/' b'*' (λ s. 2 + up_to (find (text "*/") (drop 2 s)) 2 (drop 2 s)) alnum c cs
              (block-Lexeme alnum))
            λ b.
              if_Lexeme alnum (c == b'$') _ _ _
                (λ d. elim (Option-cases (dollar_tag alnum cs)) [
                  | inl t ↦ rw t (
                      plain (record {
                        no_separator = λ e. absurd (ground arith);
                        no_quote = ((λ e. absurd (ground arith)), (λ e. absurd (ground arith)));
                        no_line = λ e. ground arith;
                        no_block = λ e. ground arith;
                        no_dollar = λ e. dollar_tag-none alnum cs t;
                      }))
                  | inr (tag, t) ↦ rw t (
                      subst
                        (λ x.
                          Lexeme alnum (x ∷ cs) (drop (dollar_quoted (some tag) (x ∷ cs)) (x ∷ cs)))
                        (sym ((==_iff c b'$').0 d)) (dollars-Lexeme alnum cs tag t))
                ])
                λ d. plain (record {
                  no_separator = λ e. absurd (ground arith);
                  no_quote = ((λ e. absurd (ground arith)), (λ e. absurd (ground arith)));
                  no_line = λ e. ground arith;
                  no_block = λ e. ground arith;
                  no_dollar = λ e. absurd (ground arith);
                })

pub slices-Sliced :
    (alnum : ℕ → Bool) (fuel : ℕ) (slice rest : Text)
    → length rest < fuel
    → Sliced alnum slice rest (slices alnum fuel slice rest)
unfolding slices
slices-Sliced alnum zero slice rest h = absurd (omega arith)
slices-Sliced alnum (suc fuel) slice [] h = ends
slices-Sliced alnum (suc fuel) slice (c ∷ cs) h = elim (Bool-cases (c == b';')) [
  | inl e ↦ rw e (
      subst (λ x. Sliced alnum slice (x ∷ cs) (slice ∷ slices alnum fuel [] cs))
        (sym ((==_iff c b';').0 e)) (separator (slices-Sliced alnum fuel [] cs (omega arith))))
  | inr e ↦
      let n = advance alnum c cs in
      let whole = take-append-drop n (c ∷ cs) in
      let first = advance-Lexeme alnum c cs e in
      let more =
        slices-Sliced alnum fuel (slice ++ take n (c ∷ cs)) (drop n (c ∷ cs))
          (shorter alnum c cs h) in
      rw e (
        subst
          (λ t.
            Sliced alnum slice t (slices alnum fuel (slice ++ take n (c ∷ cs)) (drop n (c ∷ cs))))
          whole
          (lexeme (take n (c ∷ cs))
            (subst (λ t. Lexeme alnum t (drop n (c ∷ cs))) (sym whole) first) more))
]
