-- ===== src/Query/Statements/Inert.antt =====
-- Texts at which the splitter never finds a separator: plain characters and closed quotes.
use tradar.Base.{
  ℕ, zero, suc, ◌+◌, ◌<◌, Bool, true, false, not, ◌||◌, List, [], ◌∷◌, ◌++◌, map, ◌≡◌, ◌≢◌, ◌⊎◌,
  refl, sym, ap, ◌∙◌, inl, inr, arith, ◌==◌, ==_refl, Bool-cases, append_assoc, append-nil, length,
  length-append, take, drop, take-length-append, drop-length-append, all, Text, replace, within,
  trim, trim_start, trim_end, strip_prefix, is_empty, is_whitespace,
}
use tradar.Query.Statements.{
  next_is, advance, quoted, split_sql_statements, pushed, Statement, is_blank, strip_comments,
  strip_leading_comments,
}
use tradar.Query.Statements.Cover.{slices, shorter, split_loop-statements_at, statements_at}

-- More fuel than characters changes nothing.
slices_fuel :
    (alnum : ℕ → Bool) (f g : ℕ) (slice rest : Text)
    → length rest < f
    → length rest < g
    → slices alnum f slice rest ≡ slices alnum g slice rest
unfolding slices
slices_fuel alnum zero g slice rest h k = absurd (omega arith)
slices_fuel alnum (suc f) zero slice rest h k = absurd (omega arith)
slices_fuel alnum (suc f) (suc g) slice [] h k = refl
slices_fuel alnum (suc f) (suc g) slice (c ∷ cs) h k = elim (Bool-cases (c == b';')) [
  | inl e ↦ rw e (ap (◌∷◌ slice) (slices_fuel alnum f g [] cs (omega arith) (omega arith)))
  | inr e ↦ rw e (slices_fuel alnum f g _ _ (shorter alnum c cs h) (shorter alnum c cs k))
]

-- The slices from here on, with the fuel that the splitter has.
pub cut : (ℕ → Bool) → Text → Text → List Text
cut alnum slice rest = slices alnum (suc (length rest)) slice rest

-- Behind any slice the splitter passes over `t` in front of `rest`, and is then at `rest`.
abbrev pub Passes : (ℕ → Bool) → Text → Text → Type 0
Passes alnum t rest = (slice : Text) → cut alnum slice (t ++ rest) ≡ cut alnum (slice ++ t) rest

slices_step :
    (alnum : ℕ → Bool) (fuel : ℕ) (slice : Text) (c : ℕ) (cs t rest : Text)
    → (c == b';') ≡ false
    → take (advance alnum c cs) (c ∷ cs) ≡ t
    → drop (advance alnum c cs) (c ∷ cs) ≡ rest
    → slices alnum (suc fuel) slice (c ∷ cs) ≡ slices alnum fuel (slice ++ t) rest
unfolding slices
slices_step alnum fuel slice c cs t rest e h k = rw e (
    ap (λ u. slices alnum fuel (slice ++ u) (drop (advance alnum c cs) (c ∷ cs))) h
    ∙ ap (slices alnum fuel (slice ++ t)) k)

Passes-advance :
    (alnum : ℕ → Bool) (c : ℕ) (cs rest : Text)
    → (c == b';') ≡ false
    → advance alnum c (cs ++ rest) ≡ length (c ∷ cs)
    → Passes alnum (c ∷ cs) rest
unfolding cut
Passes-advance alnum c cs rest e n slice =
    slices_step alnum _ slice c (cs ++ rest) (c ∷ cs) rest e
      (ap (λ m. take m (c ∷ (cs ++ rest))) n ∙ ap (◌∷◌ c) (take-length-append cs rest))
      (ap (λ m. drop m (c ∷ (cs ++ rest))) n ∙ drop-length-append cs rest)
    ∙ slices_fuel alnum (length (c ∷ (cs ++ rest))) (suc (length rest)) _ rest
        (omega (arith, length-append cs rest)) (omega arith)

pub Passes-append :
    (alnum : ℕ → Bool) (t u rest : Text)
    → Passes alnum t (u ++ rest)
    → Passes alnum u rest
    → Passes alnum (t ++ u) rest
Passes-append alnum t u rest h k slice =
    rw (append_assoc t u rest) (h slice ∙ k (slice ++ t) ∙ rw append_assoc)

pub Passes-nil : (alnum : ℕ → Bool) (rest : Text) → Passes alnum [] rest
Passes-nil alnum rest slice = rw append-nil

-- A character that begins nothing and separates nothing.
abbrev pub is_plain : ℕ → Bool
is_plain c = not (c == b'\'' || c == b'"' || c == b'-' || c == b'/' || c == b'$' || c == b';')

advance_plain :
    (alnum : ℕ → Bool) (c : ℕ) (cs : Text)
    → is_plain c ≡ true
    → (advance alnum c cs ≡ 1) × ((c == b';') ≡ false)
unfolding advance
advance_plain alnum c cs h = ground arith

pub Passes-plain : (alnum : ℕ → Bool) (t rest : Text) → all is_plain t ≡ true → Passes alnum t rest
Passes-plain alnum [] rest h = Passes-nil alnum rest
Passes-plain alnum (c ∷ cs) rest h =
    let here : is_plain c ≡ true = ground arith in
    let later : all is_plain cs ≡ true = ground arith in
    let (n, e) = advance_plain alnum c (cs ++ rest) here in
    Passes-append alnum (c ∷ []) cs rest (Passes-advance alnum c [] (cs ++ rest) e n)
      (Passes-plain alnum cs rest later)

quoted-cons :
    (q c : ℕ) (cs : Text) → (c == q) ≡ false → cs ≢ [] → quoted q (c ∷ cs) ≡ 1 + quoted q cs
unfolding quoted
quoted-cons q c [] e h = absurd (h refl)
quoted-cons q c (d ∷ cs) e h = rw e

quoted-close : (q : ℕ) (rest : Text) → next_is q rest ≡ false → quoted q (q ∷ rest) ≡ 1
unfolding quoted
quoted-close q [] h = rw (==_refl q)
quoted-close q (d ∷ rest) h = rw (==_refl q) (rw h)

quoted-doubled : (q : ℕ) (s : Text) → quoted q (q ∷ q ∷ s) ≡ 2 + quoted q s
unfolding quoted
quoted-doubled q s = rw (==_refl q)

advance-quote :
    (alnum : ℕ → Bool) (q : ℕ) (s : Text)
    → (q ≡ b'\'') ⊎ (q ≡ b'"')
    → advance alnum q s ≡ 1 + quoted q s
unfolding advance
advance-quote alnum q s h = ground arith

append_cons-ne-nil : (s t : Text) (c : ℕ) → s ++ c ∷ t ≢ []
append_cons-ne-nil [] t c = λ e. cc
append_cons-ne-nil (x ∷ s) t c = λ e. cc

-- A text with its quotes doubled is read up to the closing quote.
quoted-replace :
    (q : ℕ) (s rest : Text)
    → next_is q rest ≡ false
    → quoted q (replace q (q ∷ q ∷ []) s ++ q ∷ rest) ≡ length (replace q (q ∷ q ∷ []) s ++ q ∷ [])
unfolding replace
quoted-replace q [] rest h = quoted-close q rest h
quoted-replace q (c ∷ s) rest h = elim (Bool-cases (c == q)) [
  | inl e ↦ rw e (quoted-doubled q _ ∙ omega (arith, quoted-replace q s rest h))
  | inr e ↦
      rw e (
        quoted-cons q c _ e (append_cons-ne-nil _ rest q)
        ∙ omega (arith, quoted-replace q s rest h))
]

-- Quotes, and what they enclose with every quote inside doubled.
pub Passes-enclosed :
    (alnum : ℕ → Bool) (q : ℕ) (s rest : Text)
    → (q ≡ b'\'') ⊎ (q ≡ b'"')
    → next_is q rest ≡ false
    → Passes alnum (q ∷ (replace q (q ∷ q ∷ []) s ++ q ∷ [])) rest
Passes-enclosed alnum q s rest h n =
    let body = replace q (q ∷ q ∷ []) s in
    Passes-advance alnum q (body ++ q ∷ []) rest (ground arith) (
      advance-quote alnum q _ h
      ∙ rw (append_assoc body (q ∷ []) rest) (omega (arith, quoted-replace q s rest n)))

-- A text that begins with a capital letter has nothing to strip in front.
module _ (c : ℕ) (cs : Text) (letter : within b'A' b'Z' c ≡ true) where
  letter-not-blank : is_whitespace c ≡ false
  unfolding is_whitespace
  letter-not-blank = ground arith

  trim_start_letter : trim_start (c ∷ cs) ≡ c ∷ cs
  unfolding trim_start
  trim_start_letter = rw letter-not-blank

  strip_letter : (fuel : ℕ) → strip_comments (suc fuel) (c ∷ cs) ≡ c ∷ cs
  unfolding strip_comments strip_prefix
  strip_letter fuel = ground arith

  trim_letter : is_empty (trim (c ∷ cs)) ≡ false
  unfolding trim trim_end
  trim_letter = rw trim_start_letter (rw letter-not-blank)

  is_blank_letter : is_blank (c ∷ cs) ≡ false
  unfolding strip_leading_comments
  is_blank_letter = rw (trim_start_letter, strip_letter (length (c ∷ cs)), trim_letter)

-- A text that the splitter passes over whole, and that begins with a capital letter, is one
-- statement.
pub split_single :
    (alnum : ℕ → Bool) (c : ℕ) (cs : Text)
    → within b'A' b'Z' c ≡ true
    → Passes alnum (c ∷ cs) []
    → map (λ (s : Statement). s.text) (split_sql_statements alnum (c ∷ cs)) ≡ trim (c ∷ cs) ∷ []
unfolding split_sql_statements pushed
split_single alnum c cs letter h =
    let sql = c ∷ cs in
    let one : slices alnum (suc (length sql)) [] sql ≡ sql ∷ [] =
      unfold cut slices in ap (cut alnum []) (sym (append-nil sql)) ∙ h [] in
    ap (map (λ (s : Statement). s.text))
      (split_loop-statements_at alnum (suc (length sql)) [] 0 sql [] ∙ ap (statements_at 0) one)
    ∙ rw (is_blank_letter c cs letter)
