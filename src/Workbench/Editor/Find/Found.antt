-- ===== src/Workbench/Editor/Find/Found.antt =====
-- The search of Workbench/Editor/Find goes to an occurrence if there is one, and only to one.
use tradar.Base.{
  ℕ, zero, suc, ◌+◌, ◌-◌, ◌%◌, ◌≤◌, ◌<◌, Bool, true, false, ◌&&◌, [], ◌∷◌, Option, none, some, ◌≡◌,
  inl, inr, refl, arith, ltb, leb, ◌==◌, if◌then◌else◌, Bool-cases, length, min, Text,
}
use native.Mathlib.Nat.{mod-lt, mod-eq_of_lt, mod_self, add-mod_right}
use tradar.Workbench.Editor.{QueryEditor, line_at}
use tradar.Workbench.Editor.Motions.{Pos}
use tradar.Workbench.Editor.Find.{
  matches_at, first_index, or_index, last_index, fits, find_in_line, rfind_in_line, step_row,
  find_in_row, find_steps,
}
use tradar.Workbench.Editor.WellFormed.{Rowed}

-- An answer among the indices from `i` up to `j`.
abbrev Indexed : (ℕ → Bool) → ℕ → ℕ → Option ℕ → Type 0
Indexed p i j none = (k : ℕ) → i ≤ k → k < j → p k ≡ false
Indexed p i j (some k) = (p k ≡ true) × (k < j)

-- One index more in front, at which `p` does not hold.
one-more :
    (p : ℕ → Bool) (n i : ℕ) (o : Option ℕ)
    → p i ≡ false
    → Indexed p (i + 1) (i + 1 + n) o
    → Indexed p i (i + suc n) o
one-more p n i none h rest = λ k a b. elim (Bool-cases (k == i)) [
  | inl e ↦ let same : k ≡ i = ground (arith, e) in rw same h
  | inr e ↦ rest k (ground (arith, e, a)) (omega (arith, b))
]
one-more p n i (some k) h (q, b) = (q, omega (arith, b))

first_index-Indexed : (p : ℕ → Bool) (n i : ℕ) → Indexed p i (i + n) (first_index p n i)
first_index-Indexed p zero i = λ k a b. absurd (omega (arith, a, b))
first_index-Indexed p (suc n) i = elim (Bool-cases (p i)) [
  | inl h ↦ rw h (h, omega arith)
  | inr h ↦ rw h (one-more p n i (first_index p n (i + 1)) h (first_index-Indexed p n (i + 1)))
]

or_index-Indexed :
    (p : ℕ → Bool) (n i : ℕ) (rest : Option ℕ)
    → Indexed p (i + 1) (i + 1 + n) rest
    → Indexed p i (i + suc n) (or_index rest (if p i then some i else none))
or_index-Indexed p n i none r = elim (Bool-cases (p i)) [
  | inl h ↦ rw h (h, omega arith)
  | inr h ↦ rw h (one-more p n i none h r)
]
or_index-Indexed p n i (some k) (q, b) = (q, omega (arith, b))

last_index-Indexed : (p : ℕ → Bool) (n i : ℕ) → Indexed p i (i + n) (last_index p n i)
last_index-Indexed p zero i = λ k a b. absurd (omega (arith, a, b))
last_index-Indexed p (suc n) i =
    or_index-Indexed p n i (last_index p n (i + 1)) (last_index-Indexed p n (i + 1))

-- An occurrence in a line, or none at the columns of which `P` holds.
abbrev pub Occurs : Text → Text → ℕ → Type 0
Occurs line needle col = (matches_at line needle col ≡ true) × (col + length needle ≤ length line)

abbrev pub InLine : (ℕ → Type 0) → Text → Text → Option ℕ → Type 0
InLine P line needle none =
    (col : ℕ) → P col → col + length needle ≤ length line → matches_at line needle col ≡ false
InLine P line needle (some col) = Occurs line needle col

Indexed-InLine :
    (P : ℕ → Type 0) (line needle : Text) (p : ℕ → Bool) (i n : ℕ) (o : Option ℕ)
    → ((k : ℕ) → p k ≡ true → matches_at line needle k ≡ true)
    → ((k : ℕ) → P k → p k ≡ false → matches_at line needle k ≡ false)
    → ((k : ℕ) → P k → i ≤ k)
    → length needle ≤ length line
    → i + n ≤ length line - length needle + 1
    → length line - length needle + 1 ≤ i + n
    → Indexed p i (i + n) o
    → InLine P line needle o
Indexed-InLine P line needle p i n none sound complete from f a b h =
    λ col q e. complete col q (h col (from col q) (omega (arith, e, f, b)))
Indexed-InLine P line needle p i n (some k) sound complete from f a b (h, g) =
    (sound k h, omega (arith, f, g, a))

-- Every row is that of a step.
pub step_row-forward :
    (n row r : ℕ) → row < n → r < n → (s : ℕ) × (0 < s) × (s ≤ n) × (step_row false n row s ≡ r)
step_row-forward n row r h g = elim (Bool-cases (ltb row r)) [
  | inl e ↦
      let less : row < r = ground (arith, e) in
      let sum : row + (r - row) ≡ r = omega (arith, less) in
      (r - row, omega (arith, less), omega (arith, g), rw sum (mod-eq_of_lt g))
  | inr e ↦
      let less : r ≤ row = ground (arith, e) in
      let sum : row + (r + n - row) ≡ r + n = omega (arith, h) in
      (
        r + n - row,
        omega (arith, h),
        omega (arith, less),
        rw (sum, add-mod_right r n) (mod-eq_of_lt g),
      )
]

pub step_row-backward :
    (n row r : ℕ) → row < n → r < n → (s : ℕ) × (0 < s) × (s ≤ n) × (step_row true n row s ≡ r)
step_row-backward n row r h g = elim (Bool-cases (ltb r row)) [
  | inl e ↦
      let less : r < row = ground (arith, e) in
      let step : row - r < n = omega (arith, h) in
      let sum : row + n - (row - r) ≡ r + n = omega (arith, less) in
      (
        row - r,
        omega (arith, less),
        omega (arith, h),
        rw (mod-eq_of_lt step, sum, add-mod_right r n) (mod-eq_of_lt g),
      )
  | inr e ↦ elim (Bool-cases (ltb row r)) [
    | inl f ↦
        let less : row < r = ground (arith, f) in
        let step : row + n - r < n = omega (arith, less, g) in
        let sum : row + n - (row + n - r) ≡ r = omega (arith, g) in
        (
          row + n - r,
          omega (arith, g),
          omega (arith, less),
          rw (mod-eq_of_lt step, sum) (mod-eq_of_lt g),
        )
    | inr f ↦
        let same : row ≡ r = ground (arith, e, f) in
        let sum : row + n - 0 ≡ r + n = omega (arith, same) in
        (n, omega (arith, g), omega arith, rw (mod_self n, sum, add-mod_right r n) (mod-eq_of_lt g))
  ]
]

fits-length :
    (line needle : Text) → 0 < length needle → fits line needle ≡ true → length needle ≤ length line
fits-length line [] n h = absurd (omega (arith, n))
fits-length line (c ∷ needle) n h = ground arith

not-fits-length :
    (line needle : Text)
    → 0 < length needle
    → fits line needle ≡ false
    → length line < length needle
not-fits-length line [] n h = absurd (omega (arith, n))
not-fits-length line (c ∷ needle) n h = ground arith

-- No index is left behind the last place where the pattern fits.
none-left : (p : ℕ → Bool) (n i : ℕ) → n ≡ 0 → first_index p n i ≡ none
none-left p zero i h = refl
none-left p (suc n) i h = absurd (omega (arith, h))

find_in_line-InLine :
    (line needle : Text) (from : ℕ)
    → 0 < length needle
    → InLine (λ col. from ≤ col) line needle (find_in_line line needle from)
unfolding find_in_line
find_in_line-InLine line needle from n = elim (Bool-cases (fits line needle)) [
  | inr h ↦
      let short = not-fits-length line needle n h in
      rw h (λ col q e. absurd (omega (arith, e, short)))
  | inl h ↦
      let start = min from (length line) in
      let left = length line - length needle + 1 - start in
      let long = fits-length line needle n h in
      elim (Bool-cases (leb start (length line - length needle + 1))) [
        | inl g ↦
            let near : start ≤ length line - length needle + 1 = ground (arith, g) in
            rw h (
              Indexed-InLine (λ col. from ≤ col) line needle (matches_at line needle) start left
                (first_index (matches_at line needle) left start) (λ k q. q) (λ k q e. e)
                (λ k q. omega (arith, q)) long (omega (arith, near)) (omega (arith, near))
                (first_index-Indexed (matches_at line needle) left start))
        | inr g ↦
            let far : length line - length needle + 1 < start = ground (arith, g) in
            rw (h, none-left (matches_at line needle) left start (omega (arith, far)))
              (λ col q e. absurd (omega (arith, q, e, far)))
      ]
]

rfind_in_line-InLine :
    (line needle : Text) (before : ℕ)
    → 0 < length needle
    → InLine (λ col. col < before) line needle (rfind_in_line line needle before)
unfolding rfind_in_line
rfind_in_line-InLine line needle before n = elim (Bool-cases (fits line needle)) [
  | inr h ↦
      let short = not-fits-length line needle n h in
      rw h (λ col q e. absurd (omega (arith, e, short)))
  | inl h ↦
      let p : ℕ → Bool = λ i. ltb i before && matches_at line needle i in
      let count = length line - length needle + 1 in
      rw h (
        Indexed-InLine (λ col. col < before) line needle p 0 count (last_index p count 0)
          (λ k q. ground arith) (λ k q e. ground (arith, q, e)) (λ k q. omega arith)
          (fits-length line needle n h) (omega arith) (omega arith) (last_index-Indexed p count 0))
]

InLine-weaken :
    (P Q : ℕ → Type 0) (line needle : Text) (o : Option ℕ)
    → ((k : ℕ) → Q k → k + length needle ≤ length line → P k)
    → InLine P line needle o
    → InLine Q line needle o
InLine-weaken P Q line needle none f h = λ col q e. h col (f col q e) e
InLine-weaken P Q line needle (some k) f h = h

other_step : (step a b : ℕ) → 0 < step → (if step == 0 then a else b) ≡ b
other_step step a b h = elim (Bool-cases (step == 0)) [
  | inl e ↦ absurd (ground (arith, h, e))
  | inr e ↦ rw e refl
]

-- At a step behind the first, a whole line is searched.
find_in_row-InLine :
    (backwards : Bool) (step : ℕ) (needle line : Text) (col : ℕ)
    → 0 < length needle
    → InLine (λ col. 0 < step) line needle (find_in_row backwards step needle line col)
find_in_row-InLine true step needle line col n =
    InLine-weaken _ _ line needle _
      (λ k q e. rw (other_step step col (length line) q) (omega (arith, e, n)))
      (rfind_in_line-InLine line needle (if step == 0 then col else length line) n)
find_in_row-InLine false step needle line col n =
    InLine-weaken _ _ line needle _ (λ k q e. rw (other_step step (col + 1) 0 q) (omega arith))
      (find_in_line-InLine line needle (if step == 0 then col + 1 else 0) n)

-- What the steps from `step` up to `last` find in the lines.
abbrev pub Sought : ℕ → ℕ → Bool → Text → QueryEditor → Option Pos → Type 0
Sought step last backwards needle e none =
    (s : ℕ)
    → step ≤ s
    → s < last
    → InLine (λ col. 0 < s) (line_at (step_row backwards (length e.lines) e.cursor_row s) e.lines)
        needle none
Sought step last backwards needle e (some (row, col)) =
    (row < length e.lines) × Occurs (line_at row e.lines) needle col

step_row-inside : (backwards : Bool) (n row step : ℕ) → row < n → step_row backwards n row step < n
step_row-inside true n row step h = mod-lt (row + n - step % n) (omega (arith, h))
step_row-inside false n row step h = mod-lt (row + step) (omega (arith, h))

step-Sought :
    (n step : ℕ) (backwards : Bool) (needle : Text) (e : QueryEditor) (found : Option ℕ)
    (rest : Option Pos)
    → Rowed e
    → InLine
        (λ col. 0 < step)
        (line_at (step_row backwards (length e.lines) e.cursor_row step) e.lines)
        needle
        found
    → Sought (step + 1) (step + 1 + n) backwards needle e rest
    → Sought step (step + suc n) backwards needle e (elim found as (λ _. Option Pos) [
      | none ↦ rest
      | some col ↦ some (step_row backwards (length e.lines) e.cursor_row step, col)
    ])
step-Sought n step backwards needle e none none r i h = λ s a b. elim (Bool-cases (s == step)) [
  | inl g ↦ let same : s ≡ step = ground (arith, g) in rw same i
  | inr g ↦ h s (ground (arith, a, g)) (omega (arith, b))
]
step-Sought n step backwards needle e none (some pos) r i h = h
step-Sought n step backwards needle e (some col) rest r i h =
    (step_row-inside backwards (length e.lines) e.cursor_row step r.row_in, i)

pub find_steps-Sought :
    (n step : ℕ) (backwards : Bool) (needle : Text) (e : QueryEditor)
    → Rowed e
    → 0 < length needle
    → Sought step (step + n) backwards needle e (find_steps n step backwards needle e)
find_steps-Sought zero step backwards needle e r n = λ s a b. absurd (omega (arith, a, b))
find_steps-Sought (suc k) step backwards needle e r n =
    step-Sought k step backwards needle e _ _ r
      (find_in_row-InLine backwards step needle _ e.cursor_col n)
      (find_steps-Sought k (step + 1) backwards needle e r n)
