-- ===== src/Workbench/Editor/Motions/Loops.antt =====
-- Loops over the positions of a buffer, as those of Workbench/Editor/Motions are.
use tradar.Base.{
  subst, ℕ, zero, suc, ◌+◌, ◌-◌, ◌≤◌, ◌<◌, List, [], ◌∷◌, Option, none, some, ◌≡◌, refl, inl, inr,
  arith, ltb, Bool-cases, Option-cases, length, drop, take, Text,
}
use tradar.Workbench.Editor.{line_at}
use tradar.Workbench.Editor.Motions.{Pos, next_pos, prev_pos, size}

-- In a line, or one behind its last character.
abbrev pub Inside : List Text → Pos → Type 0
Inside lines pos = (pos.0 < length lines) × (pos.1 ≤ length (line_at pos.0 lines))

-- The positions from one on, and those up to one.
abbrev pub ahead : List Text → Pos → ℕ
ahead lines pos = size (drop pos.0 lines) - pos.1

abbrev pub behind : List Text → Pos → ℕ
behind lines pos = size (take pos.0 lines) + pos.1

size-drop-suc :
    (row : ℕ) (lines : List Text)
    → row < length lines
    → size (drop row lines) ≡ length (line_at row lines) + 1 + size (drop (suc row) lines)
unfolding size
size-drop-suc row [] h = absurd (omega arith)
size-drop-suc zero (l ∷ lines) h = refl
size-drop-suc (suc row) (l ∷ lines) h = size-drop-suc row lines (omega arith)

size-drop :
    (row : ℕ) (lines : List Text)
    → row < length lines
    → size (drop row lines) ≡ length (line_at row lines) + 1 + size (drop (row + 1) lines)
size-drop row lines h =
    let one : row + 1 ≡ suc row = omega arith in rw one (size-drop-suc row lines h)

size-take-suc :
    (row : ℕ) (lines : List Text)
    → row < length lines
    → size (take (suc row) lines) ≡ size (take row lines) + (length (line_at row lines) + 1)
unfolding size
size-take-suc row [] h = absurd (omega arith)
size-take-suc zero (l ∷ lines) h = omega arith
size-take-suc (suc row) (l ∷ lines) h = omega (arith, size-take-suc row lines (omega arith))

size-take :
    (row : ℕ) (lines : List Text)
    → 0 < row
    → row ≤ length lines
    → size (take row lines) ≡ size (take (row - 1) lines) + (length (line_at (row - 1) lines) + 1)
size-take zero lines h g = absurd (omega arith)
size-take (suc row) lines h g =
    let one : suc row - 1 ≡ row = omega arith in rw one (size-take-suc row lines (omega arith))

pub size-drop-le : (row : ℕ) (lines : List Text) → size (drop row lines) ≤ size lines
unfolding size
size-drop-le zero lines = omega arith
size-drop-le (suc row) [] = omega arith
size-drop-le (suc row) (l ∷ lines) = omega (arith, size-drop-le row lines)

pub size-take-col :
    (row col : ℕ) (lines : List Text)
    → (row < length lines) × (col ≤ length (line_at row lines))
    → size (take row lines) + col ≤ size lines
unfolding size
size-take-col row col [] h = absurd (omega arith)
size-take-col zero col (l ∷ lines) (r, c) = omega (arith, c)
size-take-col (suc row) col (l ∷ lines) (r, c) =
    omega (arith, size-take-col row col lines (omega arith, c))

-- What holds of the position that a step goes to, if it goes to one.
abbrev pub Reaches : (Pos → Type 0) → Option Pos → Type 0
Reaches P none = Unit
Reaches P (some pos) = P pos

abbrev pub Closer : List Text → (Pos → ℕ) → Pos → Pos → Type 0
Closer lines rank pos next = Inside lines next × (rank next < rank pos)

-- A step forward stays inside and leaves fewer positions.
pub next_pos-Closer :
    (lines : List Text) (pos : Pos)
    → Inside lines pos
    → Reaches (Closer lines (ahead lines) pos) (next_pos lines pos)
unfolding next_pos
next_pos-Closer lines (row, col) (r, c) =
    elim (Bool-cases (ltb (col + 1) (length (line_at row lines)))) [
      | inl h ↦ rw h ((r, ground (arith, h)), ground (arith, h, size-drop row lines r))
      | inr h ↦ elim (Bool-cases (ltb (row + 1) (length lines))) [
        | inl g ↦
            rw (h, g) ((ground (arith, g), omega arith), omega (arith, c, size-drop row lines r))
        | inr g ↦ rw (h, g) tt
      ]
    ]

pub prev_pos-Closer :
    (lines : List Text) (pos : Pos)
    → Inside lines pos
    → Reaches (Closer lines (behind lines) pos) (prev_pos lines pos)
unfolding prev_pos
prev_pos-Closer lines (row, col) (r, c) = elim (Bool-cases (ltb 0 col)) [
  | inl h ↦ rw h ((r, omega (arith, c)), ground (arith, h))
  | inr h ↦ elim (Bool-cases (ltb 0 row)) [
    | inl g ↦
        let up : 0 < row = ground (arith, g) in
        rw (h, g)
          (
            (omega (arith, r), omega arith),
            omega (arith, up, size-take row lines up (omega (arith, r))),
          )
    | inr g ↦ rw (h, g) tt
  ]
]

-- A loop over positions: one round goes on from the position that `step` gives, and takes the
-- position it is at, that one, or the end of the rest.
module _ (step : Pos → Option Pos) (choose : Pos → Pos → Pos → Pos) where
  unfoldable pub loop : ℕ → Pos → Pos
  loop zero pos = pos
  loop (suc fuel) pos = elim (step pos) [
    | none ↦ pos
    | some next ↦ choose pos next (loop fuel next)
  ]

  module _ (lines : List Text) (rank : Pos → ℕ)
      (steps : (pos : Pos) → Inside lines pos → Reaches (Closer lines rank pos) (step pos)) where
    step-Closer :
        (pos next : Pos) → Inside lines pos → step pos ≡ some next → Closer lines rank pos next
    step-Closer pos next i e = subst (Reaches (Closer lines rank pos)) e (steps pos i)

    pub loop-Inside :
        ((P : Pos → Type 0) (pos next rest : Pos)
          → P pos
          → P next
          → P rest
          → P (choose pos next rest))
        → (fuel : ℕ) (pos : Pos) → Inside lines pos
        → Inside lines (loop fuel pos)
    unfolding loop
    loop-Inside one zero pos i = i
    loop-Inside one (suc fuel) pos i = elim (Option-cases (step pos)) [
      | inl e ↦ rw (loop, e) i
      | inr (next, e) ↦
          let j = (step-Closer pos next i e).0 in
          rw (loop, e)
            (one (Inside lines) pos next (loop fuel next) i j (loop-Inside one fuel next j))
    ]

    pub loop-enough :
        (m n : ℕ) (pos : Pos)
        → Inside lines pos
        → rank pos ≤ m
        → rank pos ≤ n
        → loop m pos ≡ loop n pos
    unfolding loop
    loop-enough zero zero pos i a b = refl
    loop-enough zero (suc n) pos i a b = elim (Option-cases (step pos)) [
      | inl e ↦ rw (loop, e) refl
      | inr (next, e) ↦ absurd (omega (arith, a, (step-Closer pos next i e).1))
    ]
    loop-enough (suc m) zero pos i a b = elim (Option-cases (step pos)) [
      | inl e ↦ rw (loop, e) refl
      | inr (next, e) ↦ absurd (omega (arith, b, (step-Closer pos next i e).1))
    ]
    loop-enough (suc m) (suc n) pos i a b = elim (Option-cases (step pos)) [
      | inl e ↦ rw (loop, e) refl
      | inr (next, e) ↦
          let (j, less) = step-Closer pos next i e in
          rw (loop, e, loop-enough m n next j (omega (arith, a, less)) (omega (arith, b, less)))
            refl
    ]
