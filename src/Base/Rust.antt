-- ===== src/Base/Rust.antt =====
-- Rust's `str` and `char`. A text is the list of its characters, each by its code point; `len` is
-- its length in bytes of UTF-8, which offsets into a `str` count. Where the standard library goes
-- by a Unicode table beyond ASCII, that part of the table is an argument.
use Prim.Native.Char.{code}
use Prim.Native.String.{String}
use Prim.Native.Nat.{ℕ, zero, suc, ◌+◌, ◌/◌, ◌%◌}
use mathlib.Core.Path.{◌≡◌, refl}
use mathlib.Core.Logic.{◌↔◌, inl, inr}
use mathlib.Core.Bool.{Bool, true, false, ◌&&◌, ◌||◌}
use mathlib.Core.List.{List, [], ◌∷◌, ◌++◌, map}
use mathlib.Core.Option.{Option, none, some}
use native.Mathlib.Omega.{arith}
use tradar.Base.Tests.{ltb, leb, ◌==◌, if◌then◌else◌, Bool-cases}
use tradar.Base.Lists.{is_empty, any}

abbrev pub Text : Type 0
Text = List ℕ

-- A literal of the source.
abbrev pub text : String → Text
text String.[] = []
text (String.◌∷◌ c s) = code c ∷ text s

-- `char::len_utf8`
unfoldable pub len_utf8 : ℕ → ℕ
len_utf8 c = if ltb c 0x80 then 1 else if ltb c 0x800 then 2 else if ltb c 0x10000 then 3 else 4

-- `str::len`
unfoldable pub len : Text → ℕ
unfolding len_utf8
len [] = 0
len (c ∷ cs) = len_utf8 c + len cs

abbrev pub within : ℕ → ℕ → ℕ → Bool
within lo hi c = leb lo c && leb c hi

-- `char::is_whitespace`: the property White_Space
unfoldable pub is_whitespace : ℕ → Bool
is_whitespace c =
    within 0x09 0x0D c
    || c == 0x20
    || c == 0x85
    || c == 0xA0
    || c == 0x1680
    || within 0x2000 0x200A c
    || c == 0x2028
    || c == 0x2029
    || c == 0x202F
    || c == 0x205F
    || c == 0x3000

-- `char::is_ascii_digit`
unfoldable pub is_ascii_digit : ℕ → Bool
is_ascii_digit c = within b'0' b'9' c

-- `char::is_alphanumeric`; `alnum` is its table beyond ASCII.
unfoldable pub is_alphanumeric : (ℕ → Bool) → ℕ → Bool
is_alphanumeric alnum c =
    if ltb c 0x80 then within b'0' b'9' c || within b'A' b'Z' c || within b'a' b'z' c else alnum c

-- `char::to_ascii_lowercase`
unfoldable pub to_ascii_lowercase : ℕ → ℕ
to_ascii_lowercase c = if within b'A' b'Z' c then c + 32 else c

-- `str::to_ascii_lowercase`
abbrev pub lower : Text → Text
lower = map to_ascii_lowercase

-- `==` on `str`
unfoldable pub eq : Text → Text → Bool
eq [] [] = true
eq (x ∷ xs) (y ∷ ys) = x == y && eq xs ys
eq _ _ = false

-- `str::eq_ignore_ascii_case`
abbrev pub eq_ignore_ascii_case : Text → Text → Bool
eq_ignore_ascii_case s t = eq (lower s) (lower t)

-- `matches!(s, "a" | "b" | …)`
abbrev pub one_of : Text → List Text → Bool
one_of s = any (eq s)

-- `str::trim_start`, `str::trim_end`, `str::trim`
unfoldable pub trim_start : Text → Text
trim_start [] = []
trim_start (c ∷ cs) = if is_whitespace c then trim_start cs else c ∷ cs

unfoldable pub trim_end : Text → Text
trim_end [] = []
trim_end (c ∷ cs) = let r = trim_end cs in if is_whitespace c && is_empty r then [] else c ∷ r

unfoldable pub trim : Text → Text
unfolding trim_start trim_end
trim s = trim_end (trim_start s)

-- `str::strip_prefix`
unfoldable pub strip_prefix : Text → Text → Option Text
strip_prefix [] s = some s
strip_prefix (p ∷ ps) [] = none
strip_prefix (p ∷ ps) (c ∷ cs) = if p == c then strip_prefix ps cs else none

abbrev pub starts_with : Text → Text → Bool
starts_with p s = elim (strip_prefix p s) [ none ↦ false | some _ ↦ true ]

-- `str::find`, as a number of characters
unfoldable pub find : Text → Text → Option ℕ
unfolding strip_prefix
find p [] = if starts_with p [] then some 0 else none
find p (c ∷ cs) =
    let later = find p cs in
    if starts_with p (c ∷ cs) then some 0 else elim later [ none ↦ none | some n ↦ some (suc n) ]

-- `str::replace` of one character
unfoldable pub replace : ℕ → Text → Text → Text
replace c to [] = []
replace c to (x ∷ xs) = if x == c then to ++ replace c to xs else x ∷ replace c to xs

-- `iter().position(|&c| c == x)`
unfoldable pub position : ℕ → Text → Option ℕ
position x [] = none
position x (c ∷ cs) =
    let later = position x cs in
    if c == x then some 0 else elim later [ none ↦ none | some n ↦ some (suc n) ]

-- How often a character occurs.
unfoldable pub count : ℕ → Text → ℕ
count x [] = 0
count x (c ∷ cs) = (if c == x then 1 else 0) + count x cs

pub count-append : (x : ℕ) (s t : Text) → count x (s ++ t) ≡ count x s + count x t
unfolding count
count-append x [] t = omega arith
count-append x (c ∷ s) t = omega (arith, count-append x s t)

-- `{}` of `format!` on a number: its digits, the most significant first.
unfoldable pub decimal_fuel : ℕ → ℕ → Text
decimal_fuel zero n = []
decimal_fuel (suc fuel) n =
    let higher = decimal_fuel fuel (n / 10) in
    if ltb n 10 then (b'0' + n) ∷ [] else higher ++ (b'0' + n % 10) ∷ []

unfoldable pub decimal : ℕ → Text
unfolding decimal_fuel
decimal n = decimal_fuel (suc n) n

-- `[_]::join`
unfoldable pub join : Text → List Text → Text
join sep [] = []
join sep (t ∷ []) = t
join sep (t ∷ u ∷ ts) = t ++ (sep ++ join sep (u ∷ ts))

-- `str::split` at the characters that pass a test
unfoldable pub split : (ℕ → Bool) → Text → List Text
split p [] = [] ∷ []
split p (c ∷ cs) =
    let rest = split p cs in
    if p c then [] ∷ rest else elim rest [ [] ↦ (c ∷ []) ∷ [] | w ∷ ws ↦ (c ∷ w) ∷ ws ]

pub split-cons : (p : ℕ → Bool) (s : Text) → (w : Text) × (ws : List Text) × (split p s ≡ w ∷ ws)
unfolding split
split-cons p [] = ([], [], refl)
split-cons p (c ∷ s) = elim (Bool-cases (p c)) [
  | inl e ↦ ([], split p s, rw e)
  | inr e ↦ let (w, ws, h) = split-cons p s in (c ∷ w, ws, rw e (rw h))
]

pub eq_iff : (s t : Text) → (eq s t ≡ true) ↔ (s ≡ t)
unfolding eq
eq_iff (x ∷ s) (y ∷ t) = ground (arith, eq_iff s t)
eq_iff _ _ = ground arith

pub eq_refl : (s : Text) → eq s s ≡ true
eq_refl s = (eq_iff s s).1 refl

pub len-append : (s t : Text) → len (s ++ t) ≡ len s + len t
unfolding len
len-append [] t = omega arith
len-append (c ∷ s) t = omega (arith, len-append s t)
