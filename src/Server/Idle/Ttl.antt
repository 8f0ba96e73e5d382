-- ===== src/Server/Idle/Ttl.antt =====
-- crates/tradar-server/src/server/idle.rs, `parse_ttl`: after how many seconds an idle connection is
-- closed.
use tradar.Base.{
  ℕ, ◌*◌, ◌-◌, ◌<◌, Bool, true, false, not, ◌||◌, [], ◌∷◌, ◌++◌, Option, none, some, ◌≡◌, ◌≢◌, ◌⊎◌,
  refl, ap, ◌∙◌, inl, inr, arith, ◌==◌, if◌then◌else◌, Bool-cases, append-nil, min, any, all,
  take_while, drop_while, take_while-append, is_empty, Text, text, trim, trim_start, trim_end,
  is_whitespace, is_ascii_digit, eq_ignore_ascii_case, lower, eq, to_ascii_lowercase, decimal,
}
use tradar.Base.Decimal.{
  parse_below, u64_bound, parse_below-decimal, digits-decimal, decimal-ne-nil,
}

abbrev pub default_idle_ttl : ℕ
default_idle_ttl = 1800

abbrev pub is_off : Text → Bool
is_off raw =
    any (eq_ignore_ascii_case raw) (text "off" ∷ text "never" ∷ text "none" ∷ text "false" ∷ [])

-- `split_at` the first character that is no digit, or all and `"s"`
abbrev pub unit_of : Text → Text
unit_of [] = text "s"
unit_of (c ∷ cs) = c ∷ cs

unfoldable pub factor_of : Text → Option ℕ
unfolding eq
factor_of unit =
    if eq unit (text "s") || is_empty unit
    then some 1
    else if eq unit (text "m")
    then some 60
    else if eq unit (text "h")
    then some 3600
    else none

-- `saturating_mul` on a `u64`
abbrev pub saturating_mul : ℕ → ℕ → ℕ
saturating_mul a b = min (a * b) (u64_bound - 1)

abbrev pub seconds : ℕ → Option ℕ → Option ℕ
seconds factor none = some default_idle_ttl
seconds factor (some n) = if n == 0 then none else some (saturating_mul n factor)

abbrev pub with_unit : Text → Option ℕ → Option ℕ
with_unit digits none = some default_idle_ttl
with_unit digits (some factor) = seconds factor (parse_below u64_bound digits)

unfoldable pub read_ttl : Text → Option ℕ
unfolding is_ascii_digit trim factor_of parse_below eq
read_ttl raw =
    if is_empty raw
    then some default_idle_ttl
    else if is_off raw
    then none
    else with_unit (take_while is_ascii_digit raw)
        (factor_of (lower (trim (unit_of (drop_while is_ascii_digit raw)))))

unfoldable pub parse_ttl : Option Text → Option ℕ
unfolding read_ttl trim
parse_ttl none = some default_idle_ttl
parse_ttl (some value) = read_ttl (trim value)

-- The units that may stand behind a number.
pub data TimeUnit : Type 0 where
  bare : TimeUnit
  second : TimeUnit
  minute : TimeUnit
  hour : TimeUnit

abbrev pub suffix : TimeUnit → Text
suffix bare = []
suffix second = text "s"
suffix minute = text "m"
suffix hour = text "h"

abbrev pub in_seconds : TimeUnit → ℕ
in_seconds minute = 60
in_seconds hour = 3600
in_seconds _ = 1

abbrev is_solid : ℕ → Bool
is_solid c = not (is_whitespace c)

trim_end-solid : (s : Text) → all is_solid s ≡ true → trim_end s ≡ s
unfolding trim_end
trim_end-solid [] h = refl
trim_end-solid (c ∷ s) h = rw (trim_end-solid s (ground (arith, h))) (ground (arith, h))

trim-solid : (s : Text) → all is_solid s ≡ true → trim s ≡ s
unfolding trim trim_start
trim-solid [] h = unfold trim_end in refl
trim-solid (c ∷ s) h =
    let here : is_whitespace c ≡ false = ground (arith, h) in rw here (trim_end-solid (c ∷ s) h)

solid-digits : (s : Text) → all is_ascii_digit s ≡ true → all is_solid s ≡ true
unfolding is_ascii_digit is_whitespace
solid-digits [] h = refl
solid-digits (c ∷ s) h = ground (arith, solid-digits s, h)

all-append : (p : ℕ → Bool) (s t : Text) → all p s ≡ true → all p t ≡ true → all p (s ++ t) ≡ true
all-append p [] t h k = k
all-append p (c ∷ s) t h k = ground (arith, all-append p s t, h, k)

solid-suffix : (u : TimeUnit) → all is_solid (suffix u) ≡ true
unfolding is_whitespace
solid-suffix bare = refl
solid-suffix second = refl
solid-suffix minute = refl
solid-suffix hour = refl

take_while-all :
    (p : ℕ → Bool) (s : Text) → all p s ≡ true → (take_while p s ≡ s) × (drop_while p s ≡ [])
take_while-all p [] h = (refl, refl)
take_while-all p (c ∷ s) h =
    let here : p c ≡ true = ground arith in
    let rest = take_while-all p s (ground arith) in (rw here (ap (◌∷◌ c) rest.0), rw here rest.1)

-- The digits, and what stands behind them.
split-suffix :
    (digits : Text) (u : TimeUnit)
    → all is_ascii_digit digits ≡ true
    → (take_while is_ascii_digit (digits ++ suffix u) ≡ digits)
      × (drop_while is_ascii_digit (digits ++ suffix u) ≡ suffix u)
unfolding is_ascii_digit
split-suffix digits bare h = rw (append-nil digits) (take_while-all is_ascii_digit digits h)
split-suffix digits second h = take_while-append is_ascii_digit digits b's' [] h refl
split-suffix digits minute h = take_while-append is_ascii_digit digits b'm' [] h refl
split-suffix digits hour h = take_while-append is_ascii_digit digits b'h' [] h refl

factor_of-suffix :
    (u : TimeUnit) → factor_of (lower (trim (unit_of (suffix u)))) ≡ some (in_seconds u)
unfolding factor_of trim is_whitespace to_ascii_lowercase eq
factor_of-suffix bare = refl
factor_of-suffix second = refl
factor_of-suffix minute = refl
factor_of-suffix hour = refl

-- A word that begins with a digit turns nothing off.
is_off-digit :
    (s t : Text)
    → all is_ascii_digit s ≡ true
    → s ≢ []
    → (is_empty (s ++ t) ≡ false) × (is_off (s ++ t) ≡ false)
unfolding is_ascii_digit to_ascii_lowercase eq
is_off-digit [] t h n = absurd (n refl)
is_off-digit (c ∷ s) t h n = (refl, ground (arith, h))

with_unit-decimal :
    (n factor : ℕ)
    → n < u64_bound
    → with_unit (decimal n) (some factor)
      ≡ (if n == 0 then none else some (saturating_mul n factor))
with_unit-decimal n factor h =
    let reads : parse_below u64_bound (decimal n) ≡ some n =
      parse_below-decimal u64_bound n (omega arith) ∙ ground (arith, h) in
    rw reads

-- A number of 64 bits, alone or with `s`, `m` or `h` behind it, is read as so many seconds,
-- minutes or hours, at most as many seconds as 64 bits hold; zero is no limit.
pub parse_ttl-decimal :
    (n : ℕ) (u : TimeUnit)
    → n < u64_bound
    → parse_ttl (some (decimal n ++ suffix u))
      ≡ (if n == 0 then none else some (min (n * in_seconds u) (u64_bound - 1)))
unfolding parse_ttl read_ttl
parse_ttl-decimal n u h =
    let digits = digits-decimal n in
    let (taken, left) = split-suffix (decimal n) u digits in
    let (full, on) = is_off-digit (decimal n) (suffix u) digits (decimal-ne-nil n) in
    let whole : trim (decimal n ++ suffix u) ≡ decimal n ++ suffix u =
      trim-solid (decimal n ++ suffix u) (
        all-append is_solid (decimal n) (suffix u) (solid-digits (decimal n) digits)
          (solid-suffix u)) in
    rw (whole, full, on, taken, left, factor_of-suffix u) (with_unit-decimal n (in_seconds u) h)

seconds-none : (factor : ℕ) (o : Option ℕ) → seconds factor o ≡ none → o ≡ some 0
seconds-none factor none h = absurd cc
seconds-none factor (some n) h = ground (arith, h)

with_unit-none :
    (digits : Text) (factor : Option ℕ)
    → with_unit digits factor ≡ none
    → parse_below u64_bound digits ≡ some 0
with_unit-none digits none h = absurd cc
with_unit-none digits (some factor) h = seconds-none factor (parse_below u64_bound digits) h

-- A value that is set turns the limit off only if it is one of the words for that, whatever the
-- case of its letters, or begins with digits that read as zero; every other one leaves a limit.
pub parse_ttl-none :
    (value : Text)
    → parse_ttl (some value) ≡ none
    → (is_off (trim value) ≡ true)
      ⊎ (parse_below u64_bound (take_while is_ascii_digit (trim value)) ≡ some 0)
unfolding parse_ttl read_ttl
parse_ttl-none value h = elim (Bool-cases (is_empty (trim value))) [
  | inl e ↦ absurd (cc (rw e at h))
  | inr e ↦ elim (Bool-cases (is_off (trim value))) [
    | inl f ↦ inl f
    | inr f ↦ inr (
        with_unit-none (take_while is_ascii_digit (trim value))
          (factor_of (lower (trim (unit_of (drop_while is_ascii_digit (trim value))))))
          (rw (e, f) at h))
  ]
]
