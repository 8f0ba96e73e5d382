-- ===== src/Query/Keyword/Leading.antt =====
-- White space and comments in front of a statement change nothing about how it is classified.
use tradar.Base.{
  ℕ, zero, suc, ◌+◌, ◌≤◌, ◌<◌, Bool, true, [], ◌∷◌, ◌++◌, Option, none, some, ◌≡◌, refl, sym, ap,
  subst, ◌∙◌, ◌⊎◌, inl, inr, arith, find, strip_prefix, Bool-cases, Option-cases, length, drop,
  length-drop, Text, text, is_whitespace, trim_start,
}
use tradar.Query.Statements.{strip_comments, strip_leading_comments}
use tradar.Query.Keyword.{returns_rows, transaction_control}

-- `Leads s r`: in front of `r`, the text `s` has nothing but white space and comments, each comment
-- ended by the first end that fits. A comment with no end takes the rest.
pub data Leads : Text → Text → Type 0 where
  here : {s : Text} → Leads s s
  blank : {c : ℕ} {s r : Text} → is_whitespace c ≡ true → Leads s r → Leads (c ∷ s) r
  line :
      {after r : Text} (n : ℕ)
      → find (b'\n' ∷ []) after ≡ some n
      → Leads (drop (n + 1) after) r
      → Leads (b'-' ∷ b'-' ∷ after) r
  last_line : {after : Text} → find (b'\n' ∷ []) after ≡ none → Leads (b'-' ∷ b'-' ∷ after) []
  block :
      {after r : Text} (n : ℕ)
      → find (text "*/") after ≡ some n
      → Leads (drop (n + 2) after) r
      → Leads (b'/' ∷ b'*' ∷ after) r
  last_block : {after : Text} → find (text "*/") after ≡ none → Leads (b'/' ∷ b'*' ∷ after) []

length-trim_start : (s : Text) → length (trim_start s) ≤ length s
unfolding trim_start
length-trim_start [] = omega arith
length-trim_start (c ∷ s) = ground (arith, length-trim_start s)

strip_prefix-append : (p s r : Text) → strip_prefix p s ≡ some r → s ≡ p ++ r
unfolding strip_prefix
strip_prefix-append [] s r h = cc
strip_prefix-append (x ∷ p) [] r h = cc
strip_prefix-append (x ∷ p) (c ∷ s) r h = ground (arith, strip_prefix-append p s r)

-- What is left behind a comment with an end of `k` characters.
abbrev behind : Option ℕ → ℕ → Text → Text
behind none k after = []
behind (some n) k after = drop (n + k) after

length-behind : (o : Option ℕ) (k : ℕ) (after : Text) → length (behind o k after) ≤ length after
length-behind none k after = omega arith
length-behind (some n) k after = omega (arith, length-drop (n + k) after)

-- One round, but for the white space that it takes last, with the fuel left out.
data Round : Text → Text → Type 0 where
  dashes : {after : Text} → Round (b'-' ∷ b'-' ∷ after) (behind (find (b'\n' ∷ []) after) 1 after)
  slash : {after : Text} → Round (b'/' ∷ b'*' ∷ after) (behind (find (text "*/") after) 2 after)

strip_comments-Round :
    {s t : Text} (fuel : ℕ)
    → Round s t
    → strip_comments (suc fuel) s ≡ strip_comments fuel (trim_start t)
unfolding strip_comments strip_prefix
strip_comments-Round fuel (dashes {after}) = ground arith
strip_comments-Round fuel (slash {after}) = ground arith

-- No white space or comment in front.
pub record IsBare (s : Text) : Type 0 where
  pub no_blank : trim_start s ≡ s
  pub no_line : strip_prefix (text "--") s ≡ none
  pub no_block : strip_prefix (text "/*") s ≡ none

-- A text has no comment in front, or a round shortens it.
Round-or_stop :
    (s : Text)
    → (strip_prefix (text "--") s ≡ none) × (strip_prefix (text "/*") s ≡ none)
      ⊎ ((t : Text) × Round s t × (length t < length s))
Round-or_stop s = elim (Option-cases (strip_prefix (text "--") s)) [
  | inr (after, e) ↦
      let whole = strip_prefix-append _ s after e in
      let t = behind (find (b'\n' ∷ []) after) 1 after in
      inr (
        t,
        subst (λ u. Round u t) (sym whole) dashes,
        omega (arith, length-behind (find (b'\n' ∷ []) after) 1 after, ap length whole),
      )
  | inl e ↦ elim (Option-cases (strip_prefix (text "/*") s)) [
    | inr (after, f) ↦
        let whole = strip_prefix-append _ s after f in
        let t = behind (find (text "*/") after) 2 after in
        inr (
          t,
          subst (λ u. Round u t) (sym whole) slash,
          omega (arith, length-behind (find (text "*/") after) 2 after, ap length whole),
        )
    | inl f ↦ inl (e, f)
  ]
]

strip_comments_stop :
    (s : Text) (fuel : ℕ)
    → strip_prefix (text "--") s ≡ none
    → strip_prefix (text "/*") s ≡ none
    → strip_comments fuel s ≡ s
unfolding strip_comments
strip_comments_stop s zero e f = refl
strip_comments_stop s (suc fuel) e f = rw (e, strip_comments) (rw (f, strip_comments))

-- More fuel than characters is enough, and more still changes nothing.
strip_comments_fuel :
    (s : Text) (f g : ℕ) → length s < f → length s < g → strip_comments f s ≡ strip_comments g s
strip_comments_fuel s zero g h k = absurd (omega arith)
strip_comments_fuel s (suc f) zero h k = absurd (omega arith)
strip_comments_fuel s (suc f) (suc g) h k = elim (Round-or_stop s) [
  | inl (d, b) ↦ strip_comments_stop s (suc f) d b ∙ sym (strip_comments_stop s (suc g) d b)
  | inr (t, r, lt) ↦
      strip_comments-Round f r
      ∙ strip_comments_fuel (trim_start t) f g (omega (arith, length-trim_start t))
          (omega (arith, length-trim_start t))
      ∙ sym (strip_comments-Round g r)
]

strip_fuel :
    (s : Text) (fuel : ℕ)
    → length s < fuel
    → strip_comments fuel (trim_start s) ≡ strip_leading_comments s
unfolding strip_leading_comments
strip_fuel s fuel h =
    strip_comments_fuel (trim_start s) fuel (suc (length s)) (omega (arith, length-trim_start s))
      (omega (arith, length-trim_start s))

strip-Round :
    {s t : Text}
    → Round s t
    → length t < length s
    → trim_start s ≡ s
    → strip_leading_comments s ≡ strip_leading_comments t
unfolding strip_leading_comments
strip-Round {s} {t} r lt e = rw e (strip_comments-Round (length s) r) ∙ strip_fuel t (length s) lt

dash_bare : (s : Text) → trim_start (b'-' ∷ s) ≡ b'-' ∷ s
unfolding trim_start is_whitespace
dash_bare s = refl

slash_bare : (s : Text) → trim_start (b'/' ∷ s) ≡ b'/' ∷ s
unfolding trim_start is_whitespace
slash_bare s = refl

strip-line :
    (after : Text)
    → strip_leading_comments (b'-' ∷ b'-' ∷ after)
      ≡ strip_leading_comments (behind (find (b'\n' ∷ []) after) 1 after)
strip-line after =
    strip-Round dashes (omega (arith, length-behind (find (b'\n' ∷ []) after) 1 after))
      (dash_bare _)

strip-block :
    (after : Text)
    → strip_leading_comments (b'/' ∷ b'*' ∷ after)
      ≡ strip_leading_comments (behind (find (text "*/") after) 2 after)
strip-block after =
    strip-Round slash (omega (arith, length-behind (find (text "*/") after) 2 after)) (slash_bare _)

strip-blank :
    (c : ℕ) (s : Text)
    → is_whitespace c ≡ true
    → strip_leading_comments (c ∷ s) ≡ strip_leading_comments s
strip-blank c s w =
    let same : trim_start (c ∷ s) ≡ trim_start s = unfold trim_start in rw w in
    sym (strip_fuel (c ∷ s) (suc (suc (length s))) (omega arith))
    ∙ ap (strip_comments (suc (suc (length s)))) same
    ∙ strip_fuel s (suc (suc (length s))) (omega arith)

pub strip-Leads : {s r : Text} → Leads s r → strip_leading_comments s ≡ strip_leading_comments r
strip-Leads here = refl
strip-Leads (blank {c} {s} w l) = strip-blank c s w ∙ strip-Leads l
strip-Leads (line {after} n e l) = strip-line after ∙ rw e (strip-Leads l)
strip-Leads (last_line {after} e) = strip-line after ∙ rw e
strip-Leads (block {after} n e l) = strip-block after ∙ rw e (strip-Leads l)
strip-Leads (last_block {after} e) = strip-block after ∙ rw e

-- White space and comments in front of a statement change neither of its classifications.
pub classify-Leads :
    (alnum : ℕ → Bool) {s r : Text}
    → Leads s r
    → (returns_rows alnum s ≡ returns_rows alnum r)
      × (transaction_control s ≡ transaction_control r)
unfolding returns_rows transaction_control
classify-Leads alnum l = rw (strip-Leads l) (refl, refl)

Leads-trim_start : {r : Text} (s : Text) → Leads (trim_start s) r → Leads s r
unfolding trim_start
Leads-trim_start [] l = l
Leads-trim_start (c ∷ s) l = elim (Bool-cases (is_whitespace c)) [
  | inl w ↦ blank w (Leads-trim_start s (rw w at l))
  | inr w ↦ rw w at l
]

Leads-nil : {r : Text} → Leads [] r → r ≡ []
Leads-nil here = refl

Leads-Round : {s t r : Text} → Round s t → Leads t r → Leads s r
Leads-Round (dashes {after}) l = elim (Option-cases (find (b'\n' ∷ []) after)) [
  | inl e ↦ subst (Leads _) (sym (Leads-nil (rw e at l))) (last_line e)
  | inr (n, e) ↦ line n e (rw e at l)
]
Leads-Round (slash {after}) l = elim (Option-cases (find (text "*/") after)) [
  | inl e ↦ subst (Leads _) (sym (Leads-nil (rw e at l))) (last_block e)
  | inr (n, e) ↦ block n e (rw e at l)
]

trim_start_idem : (s : Text) → trim_start (trim_start s) ≡ trim_start s
unfolding trim_start
trim_start_idem [] = refl
trim_start_idem (c ∷ s) = ground (arith, trim_start_idem s)

strip_comments-IsBare :
    (fuel : ℕ) (s : Text)
    → length s < fuel
    → trim_start s ≡ s
    → Leads s (strip_comments fuel s) × IsBare (strip_comments fuel s)
strip_comments-IsBare zero s h t = absurd (omega arith)
strip_comments-IsBare (suc fuel) s h t = elim (Round-or_stop s) [
  | inl (d, b) ↦
      rw (strip_comments_stop s (suc fuel) d b)
        (here, record { no_blank = t; no_line = d; no_block = b })
  | inr (u, r, lt) ↦
      let (l, bare) =
        strip_comments-IsBare fuel (trim_start u) (omega (arith, length-trim_start u))
          (trim_start_idem u) in
      rw (strip_comments-Round fuel r) (Leads-Round r (Leads-trim_start u l), bare)
]

-- `strip_leading_comments` takes white space and comments, all there are in front, and no more.
pub strip-IsBare :
    (sql : Text) → Leads sql (strip_leading_comments sql) × IsBare (strip_leading_comments sql)
unfolding strip_leading_comments
strip-IsBare sql =
    let (l, bare) =
      strip_comments-IsBare (suc (length sql)) (trim_start sql)
        (omega (arith, length-trim_start sql)) (trim_start_idem sql) in
    (Leads-trim_start sql l, bare)
