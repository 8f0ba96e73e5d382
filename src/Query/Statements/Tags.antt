-- ===== src/Query/Statements/Tags.antt =====
-- What `dollar_tag` (crates/tradar-query/src/sql_split.rs) takes for the tag of a dollar-quoted text,
-- described apart from its search.
use tradar.Base.{
  ℕ, suc, Bool, true, false, ◌||◌, [], ◌∷◌, ◌++◌, none, some, ◌≡◌, refl, ap, ◌∙◌, inl, inr, arith,
  ◌==◌, if◌then◌else◌, Bool-cases, Option-cases, all, find, strip_prefix, length, take, drop,
  take-length-append, is_alphanumeric, Text,
}
use tradar.Query.Statements.{dollar_tag}

-- A character of a tag's name.
abbrev pub tag_char : (ℕ → Bool) → ℕ → Bool
tag_char alnum c = is_alphanumeric alnum c || c == b'_'

-- `tag` is a name between two dollars, the first of which stands in front of `cs`.
pub record IsTag (alnum : ℕ → Bool) (cs tag : Text) : Type 0 where
  pub name : Text
  pub body : Text
  pub splits : cs ≡ name ++ b'$' ∷ body
  pub named : all (tag_char alnum) name ≡ true
  pub enclosed : tag ≡ b'$' ∷ (name ++ b'$' ∷ [])

-- No dollar behind a name follows.
abbrev pub NoTag : (ℕ → Bool) → Text → Type 0
NoTag alnum cs =
    (name body : Text) → cs ≡ name ++ b'$' ∷ body → all (tag_char alnum) name ≡ true → ⊥

find-later :
    (c : ℕ) (cs : Text)
    → find (b'$' ∷ []) (c ∷ cs) ≡ (
        if c == b'$'
        then some 0
        else elim (find (b'$' ∷ []) cs) [ none ↦ none | some n ↦ some (suc n) ])
unfolding find strip_prefix
find-later c cs = elim (Bool-cases (c == b'$')) [
  | inl e ↦ let same : c ≡ b'$' = ground arith in rw same refl
  | inr e ↦ let other : (b'$' == c) ≡ false = ground arith in ground (arith, e, other)
]

find-name :
    (alnum : ℕ → Bool) (name body : Text)
    → all (tag_char alnum) name ≡ true
    → find (b'$' ∷ []) (name ++ b'$' ∷ body) ≡ some (length name)
unfolding is_alphanumeric
find-name alnum [] body h = find-later b'$' body
find-name alnum (c ∷ name) body h = elim (Bool-cases (c == b'$')) [
  | inl e ↦ absurd (ground (arith, h, e))
  | inr e ↦
      find-later c (name ++ b'$' ∷ body) ∙ rw (e, find-name alnum name body (ground arith)) refl
]

find-splits :
    (cs : Text) (n : ℕ) → find (b'$' ∷ []) cs ≡ some n → cs ≡ take n cs ++ b'$' ∷ drop (suc n) cs
unfolding find strip_prefix
find-splits [] n h = cc
find-splits (c ∷ cs) n h = elim (Bool-cases (c == b'$')) [
  | inl e ↦
      let first = rw (find-later c cs, e) at h in
      let z : n ≡ 0 = cc in let same : c ≡ b'$' = ground arith in rw z (ap (λ x. x ∷ cs) same)
  | inr e ↦ elim (Option-cases (find (b'$' ∷ []) cs)) [
    | inl f ↦ let never = rw (find-later c cs, e, f) at h in absurd cc
    | inr (m, f) ↦
        let later = rw (find-later c cs, e, f) at h in
        let s : n ≡ suc m = cc in rw s (ap (◌∷◌ c) (find-splits cs m f))
  ]
]

pub dollar_tag-none : (alnum : ℕ → Bool) (cs : Text) → dollar_tag alnum cs ≡ none → NoTag alnum cs
unfolding dollar_tag
dollar_tag-none alnum cs h name body e a =
    let f = ap (find (b'$' ∷ [])) e ∙ find-name alnum name body a in
    let whole = ap (take (length name)) e ∙ take-length-append name (b'$' ∷ body) in
    let named = ap (all (tag_char alnum)) whole ∙ a in absurd (cc (rw (f, named, dollar_tag) at h))

pub dollar_tag-some :
    (alnum : ℕ → Bool) (cs tag : Text) → dollar_tag alnum cs ≡ some tag → IsTag alnum cs tag
unfolding dollar_tag
dollar_tag-some alnum cs tag h = elim (Option-cases (find (b'$' ∷ []) cs)) [
  | inl f ↦ let never = rw (f, dollar_tag) at h in absurd cc
  | inr (n, f) ↦ elim (Bool-cases (all (tag_char alnum) (take n cs))) [
    | inl a ↦
        let found = rw (f, a, dollar_tag) at h in
        record {
          name = take n cs;
          body = drop (suc n) cs;
          splits = find-splits cs n f;
          named = a;
          enclosed = cc;
        }
    | inr a ↦ let never = rw (f, a, dollar_tag) at h in absurd cc
  ]
]
