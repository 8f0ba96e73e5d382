-- ===== src/Query/Statements/Cover.antt =====
-- The statements of a buffer lie in it where their offsets say, in order, and nothing else of it is
-- lost but separators, white space and comments.
use tradar.Base.{
  ℕ, zero, suc, ◌+◌, ◌-◌, ◌≤◌, ◌<◌, Bool, true, false, List, [], ◌∷◌, ◌++◌, ◌≡◌, ◌≢◌, refl, sym, ap,
  subst, ◌∙◌, inl, inr, arith, append_assoc, append-nil, ◌==◌, ==_iff, find, strip_prefix,
  if◌then◌else◌, Bool-cases, Option-cases, length, take, drop, length-drop, take-append-drop, All,
  All-append, Text, text, len, len-append, trim_start, trim_end, trim, join,
}
use tradar.Base.Trim.{trim-split, trim-nil, trim_twice, len-trim_end, len-pos}
use tradar.Query.Statements.{
  Statement, up_to, dollar_quoted, advance, dollar_tag, is_blank, strip_comments,
  strip_leading_comments, pushed, push_statement, split_loop, split_sql_statements,
}

-- The slices between the separators that the loop finds.
unfoldable pub slices : (ℕ → Bool) → ℕ → Text → Text → List Text
slices alnum zero slice rest = []
slices alnum (suc fuel) slice [] = slice ∷ []
slices alnum (suc fuel) slice (c ∷ cs) =
    let n = advance alnum c cs in
    let next = slices alnum fuel [] cs in
    let on = slices alnum fuel (slice ++ take n (c ∷ cs)) (drop n (c ∷ cs)) in
    if c == b';' then slice ∷ next else on

-- The statements of consecutive slices, the first at an offset.
abbrev pub statements_at : ℕ → List Text → List Statement
statements_at offset [] = []
statements_at offset (s ∷ ss) =
    pushed s offset (offset + len s) ++ statements_at (offset + len s + 1) ss

to_line_end-pos :
    (c : ℕ) (cs : Text) → (c == b'-') ≡ true → 0 < up_to (find (b'\n' ∷ []) (c ∷ cs)) 0 (c ∷ cs)
unfolding find
to_line_end-pos c cs h = ground arith

dollar_quoted-pos : (alnum : ℕ → Bool) (cs s : Text) → 0 < dollar_quoted (dollar_tag alnum cs) s
unfolding dollar_tag
dollar_quoted-pos alnum cs s = elim (Option-cases (find (b'$' ∷ []) cs)) [
  | inl e ↦ rw (e, dollar_tag) (omega arith)
  | inr (n, e) ↦ rw (e, dollar_tag) (ground arith)
]

pub advance-pos : (alnum : ℕ → Bool) (c : ℕ) (cs : Text) → 0 < advance alnum c cs
unfolding advance
advance-pos alnum c cs = ground (arith, to_line_end-pos c cs, dollar_quoted-pos alnum cs (c ∷ cs))

-- What the fuel is compared with falls in every round.
pub shorter :
    (alnum : ℕ → Bool) (c : ℕ) (cs : Text) {fuel : ℕ}
    → length (c ∷ cs) < suc fuel
    → length (drop (advance alnum c cs) (c ∷ cs)) < fuel
shorter alnum c cs h =
    omega (arith, length-drop (advance alnum c cs) (c ∷ cs), advance-pos alnum c cs)

pub split_loop-statements_at :
    (alnum : ℕ → Bool) (fuel : ℕ) (slice : Text) (start : ℕ) (rest : Text) (out : List Statement)
    → split_loop alnum fuel slice start rest out
      ≡ out ++ statements_at start (slices alnum fuel slice rest)
unfolding split_loop slices
split_loop-statements_at alnum zero slice start rest out = sym (append-nil out)
split_loop-statements_at alnum (suc fuel) slice start [] out =
    unfold push_statement in ap (◌++◌ out) (sym (append-nil _))
split_loop-statements_at alnum (suc fuel) slice start (c ∷ cs) out = elim (Bool-cases (c == b';')) [
  | inl e ↦ rw e (
      split_loop-statements_at alnum fuel [] (start + len slice + 1) cs _
      ∙ unfold push_statement in append_assoc out _ _)
  | inr e ↦ rw e (split_loop-statements_at alnum fuel _ start _ out)
]

slices-ne-nil :
    (alnum : ℕ → Bool) (fuel : ℕ) (slice rest : Text)
    → 0 < fuel
    → length rest < fuel
    → slices alnum fuel slice rest ≢ []
unfolding slices
slices-ne-nil alnum zero slice rest h k = absurd (omega arith)
slices-ne-nil alnum (suc fuel) slice [] h k = λ e. cc
slices-ne-nil alnum (suc fuel) slice (c ∷ cs) h k = elim (Bool-cases (c == b';')) [
  | inl e ↦ rw e (λ e'. cc)
  | inr e ↦ rw e (slices-ne-nil alnum fuel _ _ (omega arith) (shorter alnum c cs k))
]

join-cons :
    (sep s : Text) (ts : List Text) → ts ≢ [] → join sep (s ∷ ts) ≡ s ++ (sep ++ join sep ts)
unfolding join
join-cons sep s [] h = absurd (h refl)
join-cons sep s (t ∷ ts) h = refl

slices-join :
    (alnum : ℕ → Bool) (fuel : ℕ) (slice rest : Text)
    → length rest < fuel
    → join (text ";") (slices alnum fuel slice rest) ≡ slice ++ rest
unfolding slices join
slices-join alnum zero slice rest h = absurd (omega arith)
slices-join alnum (suc fuel) slice [] h = sym (append-nil slice)
slices-join alnum (suc fuel) slice (c ∷ cs) h = elim (Bool-cases (c == b';')) [
  | inl e ↦ rw e (
      join-cons (text ";") slice _ (slices-ne-nil alnum fuel [] cs (omega arith) (omega arith))
      ∙ rw (slices-join alnum fuel [] cs (omega arith), (==_iff c b';').0 e))
  | inr e ↦ rw e (
      slices-join alnum fuel _ _ (shorter alnum c cs h)
      ∙ append_assoc slice _ _
      ∙ ap (◌++◌ slice) (take-append-drop (advance alnum c cs) (c ∷ cs)))
]

-- Where a statement lies in the buffer: its text stands between two parts of it, its offsets are
-- numbers of bytes, and it has something in it, with no white space at either end.
pub record IsPlaced (sql : Text) (s : Statement) : Type 0 where
  pub before : Text
  pub after : Text
  pub splits : sql ≡ before ++ (s.text ++ after)
  pub starts : s.start ≡ len before
  pub ends : s.end ≡ len before + len s.text
  pub filled : s.text ≢ []
  pub trimmed : trim s.text ≡ s.text

strip_comments-nil : (fuel : ℕ) → strip_comments fuel [] ≡ []
unfolding strip_comments strip_prefix
strip_comments-nil zero = refl
strip_comments-nil (suc fuel) = refl

pub filled_of_not_blank : (slice : Text) → is_blank slice ≡ false → trim slice ≢ []
unfolding strip_leading_comments trim trim_start trim_end
filled_of_not_blank slice h e =
    cc (rw (trim-nil slice e, strip_comments-nil (suc (length slice))) at h)

module _ (slice before after : Text) (filled : trim slice ≢ []) where
  trimmed-IsPlaced : IsPlaced (before ++ (slice ++ after)) (record {
    text = trim slice;
    start = len before + (len slice - len (trim_start slice));
    end = len before + len slice - (len slice - len (trim_end slice));
  })
  trimmed-IsPlaced =
      let (lead, trail, e, f, _, _) = trim-split slice in
      let cut : slice ≡ lead ++ (trim slice ++ trail) = e ∙ ap (◌++◌ lead) f in
      record {
        before = before ++ lead;
        after = trail ++ after;
        splits = ap (λ t. before ++ (t ++ after)) cut ∙ simp append_assoc;
        starts =
            omega (arith, ap len e, len-append lead (trim_start slice), len-append before lead);
        ends = omega (
          arith,
          ap len e,
          ap len f,
          len-append lead (trim_start slice),
          len-append (trim slice) trail,
          len-append before lead,
          len-trim_end slice filled,
        );
        filled = filled;
        trimmed = trim_twice slice;
      }

pushed-IsPlaced :
    (slice before after : Text)
    → All
        (IsPlaced (before ++ (slice ++ after)))
        (pushed slice (len before) (len before + len slice))
unfolding pushed
pushed-IsPlaced slice before after = elim (Bool-cases (is_blank slice)) [
  | inl e ↦ rw e tt
  | inr e ↦ rw e (trimmed-IsPlaced slice before after (filled_of_not_blank slice e), tt)
]

len_separator : len (text ";") ≡ 1
unfolding len
len_separator = refl

statements_at-IsPlaced :
    (sql before : Text) (ss : List Text)
    → sql ≡ before ++ join (text ";") ss
    → All (IsPlaced sql) (statements_at (len before) ss)
unfolding join
statements_at-IsPlaced sql before [] e = tt
statements_at-IsPlaced sql before (s ∷ []) e =
    let first =
      subst (λ t. All (IsPlaced (before ++ t)) (pushed s (len before) (len before + len s)))
        (append-nil s) (pushed-IsPlaced s before []) in
    rw e (All-append (IsPlaced _) _ [] first tt)
statements_at-IsPlaced sql before (s ∷ t ∷ ss) e =
    let through = before ++ (s ++ text ";") in
    let after = text ";" ++ join (text ";") (t ∷ ss) in
    let offset : len through ≡ len before + len s + 1 =
      omega (arith, len-append before (s ++ text ";"), len-append s (text ";"), len_separator) in
    let rest = statements_at-IsPlaced sql through (t ∷ ss) (e ∙ simp append_assoc) in
    All-append (IsPlaced sql) _ _
      (subst (λ u. All (IsPlaced u) (pushed s (len before) (len before + len s))) (sym e)
        (pushed-IsPlaced s before after))
      (subst (λ o. All (IsPlaced sql) (statements_at o (t ∷ ss))) offset rest)

-- The slices between the separators make up the buffer, and the statements are those of the slices
-- that hold something to run, each at its slice's offset in the buffer.
pub split-covers :
    (alnum : ℕ → Bool) (sql : Text)
    → (ss : List Text) × (join (text ";") ss ≡ sql)
      × (split_sql_statements alnum sql ≡ statements_at 0 ss)
unfolding split_sql_statements
split-covers alnum sql = (
  slices alnum (suc (length sql)) [] sql,
  slices-join alnum (suc (length sql)) [] sql (omega arith),
  split_loop-statements_at alnum (suc (length sql)) [] 0 sql [],
)

-- Every statement lies in the buffer where its byte offsets say, holds more than white space, and has
-- none at either end.
pub split-IsPlaced :
    (alnum : ℕ → Bool) (sql : Text) → All (IsPlaced sql) (split_sql_statements alnum sql)
split-IsPlaced alnum sql =
    let (ss, whole, e) = split-covers alnum sql in
    rw e (unfold len in statements_at-IsPlaced sql [] ss (sym whole))

-- The statements stand in the buffer one after another, between two offsets.
abbrev pub Ordered : ℕ → List Statement → ℕ → Type 0
Ordered lo [] hi = lo ≤ hi
Ordered lo (s ∷ ss) hi = (lo ≤ s.start) × (s.start < s.end) × Ordered s.end ss hi

pushed-Ordered :
    (slice : Text) (lo offset hi : ℕ) (more : List Statement)
    → lo ≤ offset
    → ((from : ℕ) → from ≤ offset + len slice → Ordered from more hi)
    → Ordered lo (pushed slice offset (offset + len slice) ++ more) hi
unfolding pushed
pushed-Ordered slice lo offset hi more h later = elim (Bool-cases (is_blank slice)) [
  | inl e ↦ rw e (later lo (omega arith))
  | inr e ↦ rw e (
      let filled = filled_of_not_blank slice e in
      let (lead, trail, f, g, _, _) = trim-split slice in
      (
        omega arith,
        omega (
          arith,
          ap len f,
          ap len g,
          len-append lead (trim_start slice),
          len-append (trim slice) trail,
          len-trim_end slice filled,
          len-pos (trim slice) filled,
        ),
        later _ (omega arith),
      ))
]

statements_at-Ordered :
    (ss : List Text) (lo offset hi : ℕ)
    → lo ≤ offset
    → offset + len (join (text ";") ss) ≤ hi
    → Ordered lo (statements_at offset ss) hi
unfolding join
statements_at-Ordered [] lo offset hi h k = omega arith
statements_at-Ordered (s ∷ []) lo offset hi h k =
    pushed-Ordered s lo offset hi [] h (λ from l. omega arith)
statements_at-Ordered (s ∷ t ∷ ss) lo offset hi h k =
    let after = join (text ";") (t ∷ ss) in
    let longer : offset + len s + 1 + len after ≤ hi =
      omega (arith, len-append s (text ";" ++ after), len-append (text ";") after, len_separator) in
    pushed-Ordered s lo offset hi _ h
      (λ from l. statements_at-Ordered (t ∷ ss) from (offset + len s + 1) hi (omega arith) longer)

-- The statements are in the buffer's order, none is empty and no two overlap.
pub split-Ordered :
    (alnum : ℕ → Bool) (sql : Text) → Ordered 0 (split_sql_statements alnum sql) (len sql)
split-Ordered alnum sql =
    let (ss, whole, e) = split-covers alnum sql in
    rw e (statements_at-Ordered ss 0 0 (len sql) (omega arith) (omega (arith, ap len whole)))
