-- ===== src/Query/Tokens/Words.antt =====
-- What a word of a query is.
use tradar.Base.{
  subst, sym, All, ◌⊎◌, ==_iff, ℕ, Bool, true, false, [], ◌∷◌, ◌≡◌, ◌≢◌, inl, inr, arith,
  Bool-cases, ◌==◌, Text,
}
use tradar.Query.Tokens.{word_char, behind_quote, word_end}

-- What follows an opening quote `q`: a doubled quote stands for one, and a single quote or the end of
-- the text ends it.
pub data IsQuoted (q : ℕ) : Text → Type 0 where
  unclosed : IsQuoted q []
  closed : IsQuoted q (q ∷ [])
  twice : {s : Text} → IsQuoted q s → IsQuoted q (q ∷ q ∷ s)
  plain : {c : ℕ} {s : Text} → c ≢ q → IsQuoted q s → IsQuoted q (c ∷ s)

-- The words of a query: a text in quotes, a name, key word or number, and any other character.
pub data IsWord (alnum : ℕ → Bool) : Text → Type 0 where
  in_quotes :
      {q : ℕ} {body : Text} → (q ≡ b'\'') ⊎ (q ≡ b'"') → IsQuoted q body → IsWord alnum (q ∷ body)
  name : {c : ℕ} {cs : Text} → All (λ x. word_char alnum x ≡ true) (c ∷ cs) → IsWord alnum (c ∷ cs)
  other : {c : ℕ} → word_char alnum c ≡ false → IsWord alnum (c ∷ [])

pub IsWord-ne : (alnum : ℕ → Bool) (w : Text) → IsWord alnum w → w ≢ []
IsWord-ne alnum (c ∷ w) h = λ e. cc
IsWord-ne alnum [] h = elim h [ ]

pub behind_quote-IsQuoted : (q : ℕ) (s : Text) → IsQuoted q (behind_quote q s).0
unfolding behind_quote
behind_quote-IsQuoted q [] = unclosed
behind_quote-IsQuoted q (c ∷ []) = elim (Bool-cases (c == q)) [
  | inl e ↦ subst (λ x. IsQuoted q (x ∷ [])) (sym ((==_iff c q).0 e)) closed
  | inr e ↦ plain (λ h. absurd (ground arith)) unclosed
]
behind_quote-IsQuoted q (c ∷ d ∷ cs) = elim (Bool-cases (c == q)) [
  | inl e ↦ elim (Bool-cases (d == q)) [
    | inl f ↦
        rw (e, f)
          (subst (λ x. IsQuoted q (x ∷ d ∷ (behind_quote q cs).0)) (sym ((==_iff c q).0 e))
            (subst (λ x. IsQuoted q (q ∷ x ∷ (behind_quote q cs).0)) (sym ((==_iff d q).0 f))
              (twice (behind_quote-IsQuoted q cs))))
    | inr f ↦ rw (e, f) (subst (λ x. IsQuoted q (x ∷ [])) (sym ((==_iff c q).0 e)) closed)
  ]
  | inr e ↦ rw e (plain (λ h. absurd (ground arith)) (behind_quote-IsQuoted q (d ∷ cs)))
]

pub word_end-All :
    (alnum : ℕ → Bool) (s : Text) → All (λ x. word_char alnum x ≡ true) (word_end alnum s).0
unfolding word_end
word_end-All alnum [] = tt
word_end-All alnum (c ∷ cs) = elim (Bool-cases (word_char alnum c)) [
  | inl e ↦ rw e ((e, word_end-All alnum cs))
  | inr e ↦ rw e tt
]
