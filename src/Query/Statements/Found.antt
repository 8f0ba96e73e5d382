-- ===== src/Query/Statements/Found.antt =====
-- Which statements `split_sql_statements` finds in the slices of a buffer.
use tradar.Base.{
  ℕ, suc, ◌+◌, Bool, true, List, [], ◌∷◌, ◌++◌, ◌≡◌, refl, sym, ap, subst, ◌∙◌, inl, inr, arith,
  Bool-cases, length, Text, len, len-append, trim, trim_start, trim_end, is_empty, strip_prefix,
}
use tradar.Base.Trim.{AllBlank, trim-split, trim-nil, trim_twice, len-trim_end}
use tradar.Query.Statements.{
  Statement, is_blank, pushed, strip_leading_comments, split_sql_statements,
}
use tradar.Query.Statements.Cover.{
  slices, statements_at, split_loop-statements_at, filled_of_not_blank,
}
use tradar.Query.Keyword.Leading.{Leads, strip-Leads, strip-IsBare}
use tradar.Query.Statements.Lexed.{Sliced, slices-Sliced}

-- `Found offset ss out`: `out` are the statements of consecutive slices, the first at an offset. A slice
-- of white space and comments alone has none; the statement of any other is the slice without the white
-- space at its ends.
pub data Found : ℕ → List Text → List Statement → Type 0 where
  none_left : {offset : ℕ} → Found offset [] []
  nothing_to_run :
      {offset : ℕ} {slice : Text} {ss : List Text} {out : List Statement}
      → Leads slice []
      → Found (offset + len slice + 1) ss out
      → Found offset (slice ∷ ss) out
  runs :
      {offset : ℕ} {slice : Text} {s : Statement} {ss : List Text} {out : List Statement}
      (lead trail : Text)
      → (Leads slice [] → ⊥)
      → slice ≡ lead ++ (s.text ++ trail)
      → AllBlank lead
      → AllBlank trail
      → trim s.text ≡ s.text
      → s.start ≡ offset + len lead
      → s.end ≡ offset + len lead + len s.text
      → Found (offset + len slice + 1) ss out
      → Found offset (slice ∷ ss) (s ∷ out)

empty_of_is_empty : (s : Text) → is_empty s ≡ true → s ≡ []
empty_of_is_empty [] h = refl
empty_of_is_empty (c ∷ s) h = cc

Leads-of_blank : (slice : Text) → is_blank slice ≡ true → Leads slice []
Leads-of_blank slice h =
    let (leads, bare) = strip-IsBare slice in
    let rest = strip_leading_comments slice in
    subst (Leads slice) (sym bare.no_blank ∙ trim-nil rest (empty_of_is_empty (trim rest) h)) leads

blank_of_Leads : (slice : Text) → Leads slice [] → is_blank slice ≡ true
unfolding strip_leading_comments trim trim_start trim_end strip_prefix
blank_of_Leads slice l = ap (λ r. is_empty (trim r)) (strip-Leads l)

Found-pushed :
    (slice : Text) (offset : ℕ) (ss : List Text) (out : List Statement)
    → Found (offset + len slice + 1) ss out
    → Found offset (slice ∷ ss) (pushed slice offset (offset + len slice) ++ out)
unfolding pushed
Found-pushed slice offset ss out f = elim (Bool-cases (is_blank slice)) [
  | inl e ↦ rw e (nothing_to_run (Leads-of_blank slice e) f)
  | inr e ↦
      let filled = filled_of_not_blank slice e in
      let (lead, trail, g, h, b, d) = trim-split slice in
      rw e (
        runs lead trail (λ l. let blank = blank_of_Leads slice l in cc) (g ∙ ap (◌++◌ lead) h) b d
          (trim_twice slice) (omega (arith, ap len g, len-append lead (trim_start slice)))
          (omega (
            arith,
            ap len g,
            ap len h,
            len-append lead (trim_start slice),
            len-append (trim slice) trail,
            len-trim_end slice filled,
          ))
          f)
]

statements_at-Found : (ss : List Text) (offset : ℕ) → Found offset ss (statements_at offset ss)
statements_at-Found [] offset = none_left
statements_at-Found (slice ∷ ss) offset =
    Found-pushed slice offset ss _ (statements_at-Found ss (offset + len slice + 1))

-- The buffer is cut into slices at each `;` that is in no quoted text, comment or text between tags of
-- dollars, and nowhere else, and the statements are what the slices hold but for the white space at
-- their ends, each with its byte offsets in the buffer, those that hold only white space and comments
-- left out.
pub split-Found :
    (alnum : ℕ → Bool) (sql : Text)
    → (ss : List Text) × Sliced alnum [] sql ss × Found 0 ss (split_sql_statements alnum sql)
unfolding split_sql_statements
split-Found alnum sql =
    let ss = slices alnum (suc (length sql)) [] sql in
    (
      ss,
      slices-Sliced alnum (suc (length sql)) [] sql (omega arith),
      subst (Found 0 ss) (sym (split_loop-statements_at alnum (suc (length sql)) [] 0 sql []))
          (statements_at-Found ss 0),
    )
