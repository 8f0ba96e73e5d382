-- ===== src/Base/Decimal.antt =====
-- The digits that `decimal` prints are those of the number, and `str::parse` reads them.
use tradar.Base.{
  ℕ, zero, suc, ◌+◌, ◌-◌, ◌*◌, ◌/◌, ◌%◌, ◌<◌, ◌≤◌, true, Option, none, some, [], ◌∷◌, ◌++◌, ◌≡◌,
  ◌≢◌, refl, sym, ap, ◌∙◌, inl, inr, arith, ltb, if◌then◌else◌, Bool-cases, all, Text, decimal,
  decimal_fuel, is_ascii_digit,
}

read_from : ℕ → Text → ℕ
read_from acc [] = acc
read_from acc (c ∷ cs) = read_from (10 * acc + (c - b'0')) cs

read_from-append :
    (acc c : ℕ) (s : Text) → read_from acc (s ++ c ∷ []) ≡ 10 * read_from acc s + (c - b'0')
unfolding read_from
read_from-append acc c [] = refl
read_from-append acc c (d ∷ s) = read_from-append (10 * acc + (d - b'0')) c s

read_from-decimal_fuel : (fuel n : ℕ) → n < fuel → read_from 0 (decimal_fuel fuel n) ≡ n
unfolding decimal_fuel
read_from-decimal_fuel zero n h = absurd (omega arith)
read_from-decimal_fuel (suc fuel) n h = elim (Bool-cases (ltb n 10)) [
  | inl e ↦ rw e (unfold read_from in omega arith)
  | inr e ↦ rw e (
      read_from-append 0 (b'0' + n % 10) (decimal_fuel fuel (n / 10))
      ∙ (let small : n / 10 < fuel = ground arith in
          omega (arith, read_from-decimal_fuel fuel (n / 10) small)))
]

-- Two numbers that print alike are equal.
pub decimal-injective : (m n : ℕ) → decimal m ≡ decimal n → m ≡ n
unfolding decimal
decimal-injective m n h =
    sym (read_from-decimal_fuel (suc m) m (omega arith))
    ∙ ap (read_from 0) h
    ∙ read_from-decimal_fuel (suc n) n (omega arith)

-- `str::parse` of an unsigned number, for a text of digits: `none` is its error, for no digits and for
-- a number that is not below the bound of the type.
unfoldable pub read_below : ℕ → ℕ → Text → Option ℕ
read_below bound acc [] = some acc
read_below bound acc (c ∷ cs) =
    let next = 10 * acc + (c - b'0') in
    let rest = read_below bound next cs in if ltb next bound then rest else none

unfoldable pub parse_below : ℕ → Text → Option ℕ
unfolding read_below
parse_below bound [] = none
parse_below bound (c ∷ cs) = read_below bound 0 (c ∷ cs)

abbrev pub u64_bound : ℕ
u64_bound = 18446744073709551616

read_from-le : (acc : ℕ) (s : Text) → acc ≤ read_from acc s
unfolding read_from
read_from-le acc [] = omega arith
read_from-le acc (c ∷ s) = omega (arith, read_from-le (10 * acc + (c - b'0')) s)

read_below_lem :
    (bound acc : ℕ) (s : Text)
    → acc < bound
    → read_below bound acc s
      ≡ (if ltb (read_from acc s) bound then some (read_from acc s) else none)
unfolding read_below read_from
read_below_lem bound acc [] h = ground arith
read_below_lem bound acc (c ∷ s) h =
    let next = 10 * acc + (c - b'0') in
    ground (arith, read_below_lem bound next s, read_from-le next s)

concat-ne-nil : (s : Text) (c : ℕ) → s ++ c ∷ [] ≢ []
concat-ne-nil [] c = λ e. cc
concat-ne-nil (x ∷ s) c = λ e. cc

pub decimal-ne-nil : (n : ℕ) → decimal n ≢ []
unfolding decimal decimal_fuel
decimal-ne-nil n e = elim (Bool-cases (ltb n 10)) [
  | inl h ↦ cc (rw h at e)
  | inr h ↦ concat-ne-nil _ _ (rw h at e)
]

parse_below-some : (bound : ℕ) (s : Text) → s ≢ [] → parse_below bound s ≡ read_below bound 0 s
unfolding parse_below
parse_below-some bound [] h = absurd (h refl)
parse_below-some bound (c ∷ s) h = refl

-- What `decimal` prints is read again, if it is below the bound.
pub parse_below-decimal :
    (bound n : ℕ)
    → 0 < bound
    → parse_below bound (decimal n) ≡ (if ltb n bound then some n else none)
parse_below-decimal bound n h =
    parse_below-some bound (decimal n) (decimal-ne-nil n)
    ∙ read_below_lem bound 0 (decimal n) h
    ∙ ap (λ k. if ltb k bound then some k else none)
        (unfold decimal in read_from-decimal_fuel (suc n) n (omega arith))

all-concat :
    (s : Text) (c : ℕ)
    → all is_ascii_digit s ≡ true
    → is_ascii_digit c ≡ true
    → all is_ascii_digit (s ++ c ∷ []) ≡ true
all-concat [] c h k = rw k
all-concat (d ∷ s) c h k = ground (arith, all-concat s c, k, h)

digits-decimal_fuel : (fuel n : ℕ) → all is_ascii_digit (decimal_fuel fuel n) ≡ true
unfolding decimal_fuel
digits-decimal_fuel zero n = refl
digits-decimal_fuel (suc fuel) n = elim (Bool-cases (ltb n 10)) [
  | inl e ↦ rw e (unfold is_ascii_digit in ground arith)
  | inr e ↦ rw e (
      all-concat (decimal_fuel fuel (n / 10)) (b'0' + n % 10) (digits-decimal_fuel fuel (n / 10))
        (unfold is_ascii_digit in ground arith))
]

pub digits-decimal : (n : ℕ) → all is_ascii_digit (decimal n) ≡ true
unfolding decimal
digits-decimal n = digits-decimal_fuel (suc n) n
