-- ===== src/Query/Source/Shape.antt =====
-- What may stand behind the name of a table in a query that reads one table, and the code that reads it.
use tradar.Base.{
  ℕ, Bool, true, false, not, ◌&&◌, ◌||◌, List, [], ◌∷◌, ◌++◌, Option, none, some, ◌≡◌, ◌↔◌, ◌⊎◌,
  refl, sym, ap, ◌∙◌, inl, inr, arith, if◌then◌else◌, Bool-cases, Option-cases, any, eq_iff, Text,
  text, eq, lower, one_of,
}
use tradar.Query.Tokens.{SqlToken, is_clause_keyword}
use tradar.Query.Source.{is_keyword, skip_as, is_alias, skip_alias, ends_well}

-- Nothing, or a clause.
pub data Ends : List SqlToken → Type 0 where
  nothing : Ends []
  clause : {t : SqlToken} {ts : List SqlToken} → is_clause_keyword t.word ≡ true → Ends (t ∷ ts)

-- An alias or none, and the end.
pub data Aliased (alnum : ℕ → Bool) : List SqlToken → Type 0 where
  bare : {ts : List SqlToken} → Ends ts → Aliased alnum ts
  named :
      {t : SqlToken} {ts : List SqlToken}
      → is_alias alnum t ≡ true
      → Ends ts
      → Aliased alnum (t ∷ ts)

-- `AS` or not, and the rest.
pub data Behind (alnum : ℕ → Bool) : List SqlToken → Type 0 where
  plain : {ts : List SqlToken} → Aliased alnum ts → Behind alnum ts
  with_as :
      {t : SqlToken} {ts : List SqlToken}
      → is_keyword (text "as") t ≡ true
      → Aliased alnum ts
      → Behind alnum (t ∷ ts)

ends_well-Ends : (ts : List SqlToken) → ends_well ts ≡ true → Ends ts
unfolding ends_well
ends_well-Ends [] h = nothing
ends_well-Ends (t ∷ ts) h = clause h

skip_alias-Aliased :
    (alnum : ℕ → Bool) (ts : List SqlToken)
    → ends_well (skip_alias alnum ts) ≡ true
    → Aliased alnum ts
unfolding skip_alias
skip_alias-Aliased alnum [] h = bare nothing
skip_alias-Aliased alnum (t ∷ ts) h = elim (Bool-cases (is_alias alnum t)) [
  | inl e ↦ named e (ends_well-Ends ts (rw e at h))
  | inr e ↦ bare (ends_well-Ends (t ∷ ts) (rw e at h))
]

pub skip_as-Behind :
    (alnum : ℕ → Bool) (ts : List SqlToken)
    → ends_well (skip_alias alnum (skip_as ts)) ≡ true
    → Behind alnum ts
unfolding skip_as
skip_as-Behind alnum [] h = plain (skip_alias-Aliased alnum [] h)
skip_as-Behind alnum (t ∷ ts) h = elim (Bool-cases (is_keyword (text "as") t)) [
  | inl e ↦ with_as e (skip_alias-Aliased alnum ts (rw e at h))
  | inr e ↦ plain (skip_alias-Aliased alnum (t ∷ ts) (rw e at h))
]

Ends-ends_well : {ts : List SqlToken} → Ends ts → ends_well ts ≡ true
unfolding ends_well
Ends-ends_well nothing = refl
Ends-ends_well (clause h) = h

-- A clause is no alias.
Ends-skip_alias :
    (alnum : ℕ → Bool) {ts : List SqlToken} → Ends ts → ends_well (skip_alias alnum ts) ≡ true
unfolding skip_alias ends_well
Ends-skip_alias alnum nothing = refl
Ends-skip_alias alnum (clause h) = rw h (ground arith)

keyword-ne-as : (t : SqlToken) → is_clause_keyword t.word ≡ true → is_keyword (text "as") t ≡ false
unfolding is_clause_keyword eq tradar.Base.to_ascii_lowercase
keyword-ne-as t h = elim (Bool-cases (is_keyword (text "as") t)) [
  | inl e ↦ let k = rw ((eq_iff (lower t.word) (text "as")).0 e) at h in absurd (ground (arith, k))
  | inr e ↦ e
]

Ends-skip_as : {ts : List SqlToken} → Ends ts → skip_as ts ≡ ts
unfolding skip_as
Ends-skip_as nothing = refl
Ends-skip_as (clause {t = t} h) = rw (keyword-ne-as t h)

Aliased-skip_alias :
    (alnum : ℕ → Bool) {ts : List SqlToken}
    → Aliased alnum ts
    → ends_well (skip_alias alnum ts) ≡ true
unfolding skip_alias
Aliased-skip_alias alnum (bare h) = Ends-skip_alias alnum h
Aliased-skip_alias alnum (named k h) = rw k (Ends-ends_well h)

pub Behind-skip_as :
    (alnum : ℕ → Bool) {ts : List SqlToken}
    → Behind alnum ts
    → ends_well (skip_alias alnum (skip_as ts)) ≡ true
unfolding skip_as
Behind-skip_as alnum (plain (bare h)) = rw (Ends-skip_as h) (Ends-skip_alias alnum h)
Behind-skip_as alnum (plain (named {t = t} k h)) = elim (Bool-cases (is_keyword (text "as") t)) [
  | inl e ↦ rw e (Ends-skip_alias alnum h)
  | inr e ↦ rw e (Aliased-skip_alias alnum (named k h))
]
Behind-skip_as alnum (with_as k h) = rw k (Aliased-skip_alias alnum h)
