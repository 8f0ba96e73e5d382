-- ===== src/Base/Lines.antt =====
-- `str::lines` of Rust: a line ends at a newline, and a carriage return in front of that is not of it.
use tradar.Base.{
  ℕ, Bool, true, false, not, ◌&&◌, List, [], ◌∷◌, ◌++◌, ◌≡◌, refl, sym, ap, ◌∙◌, inl, inr, arith,
  ◌==◌, if◌then◌else◌, Bool-cases, all, Text, count,
}

-- Is the next character a newline?
abbrev pub at_newline : Text → Bool
at_newline [] = false
at_newline (c ∷ cs) = c == b'\n'

abbrev pub onto_first : ℕ → List Text → List Text
onto_first c [] = (c ∷ []) ∷ []
onto_first c (w ∷ ws) = (c ∷ w) ∷ ws

-- `c` in front of the lines of what follows; `next` says whether a newline is next.
abbrev pub in_front : ℕ → Bool → List Text → List Text
in_front c next rest =
    if c == b'\n' then [] ∷ rest else if c == b'\r' && next then rest else onto_first c rest

unfoldable pub lines : Text → List Text
lines [] = []
lines (c ∷ cs) = in_front c (at_newline cs) (lines cs)

abbrev pub is_plain : ℕ → Bool
is_plain c = not (c == b'\n') && not (c == b'\r')

lines-one : (c : ℕ) (s : Text) → is_plain c ≡ true → lines (c ∷ s) ≡ onto_first c (lines s)
unfolding lines
lines-one c s h = ground arith

-- Characters that end no line stand in front of the first line.
pub lines-plain :
    (p s w : Text) (ws : List Text)
    → all is_plain p ≡ true
    → lines s ≡ w ∷ ws
    → lines (p ++ s) ≡ (p ++ w) ∷ ws
lines-plain [] s w ws h e = e
lines-plain (c ∷ p) s w ws h e =
    lines-one c (p ++ s) (ground arith) ∙ ap (onto_first c) (lines-plain p s w ws (ground arith) e)

pub lines-last :
    (p : Text) (c : ℕ)
    → all is_plain p ≡ true
    → is_plain c ≡ true
    → lines (p ++ c ∷ []) ≡ (p ++ c ∷ []) ∷ []
lines-last p c h k = lines-plain p (c ∷ []) (c ∷ []) [] h (lines-one c [] k ∙ unfold lines in refl)

at_newline-break : (s t : Text) → at_newline (s ++ b'\n' ∷ t) ≡ at_newline (s ++ b'\n' ∷ [])
at_newline-break [] t = refl
at_newline-break (c ∷ s) t = refl

in_front-cons :
    (c : ℕ) (next : Bool) (w : Text) (ws : List Text)
    → (v : Text) × (vs : List Text) × (in_front c next (w ∷ ws) ≡ v ∷ vs)
      × ((more : List Text) → in_front c next (w ∷ (ws ++ more)) ≡ v ∷ (vs ++ more))
      × (c == b'\n' ≡ false → vs ≡ ws)
in_front-cons c next w ws = elim (Bool-cases (c == b'\n')) [
  | inl e ↦ ([], w ∷ ws, rw e, λ more. rw e, λ h. cc)
  | inr e ↦ elim (Bool-cases (c == b'\r' && next)) [
    | inl k ↦ (w, ws, rw (e, k), λ more. rw (e, k), λ h. refl)
    | inr k ↦ (c ∷ w, ws, rw (e, k), λ more. rw (e, k), λ h. refl)
  ]
]

-- The lines up to a newline, and those behind it.
record Broken (s : Text) : Type 0 where
  first : Text
  others : List Text
  up_to : lines (s ++ b'\n' ∷ []) ≡ first ∷ others
  behind : (t : Text) → lines (s ++ b'\n' ∷ t) ≡ first ∷ (others ++ lines t)
  alone : count b'\n' s ≡ 0 → others ≡ []

lines-Broken : (s : Text) → Broken s
unfolding lines count
lines-Broken [] = record {
  first = [];
  others = [];
  up_to = refl;
  behind = λ t. refl;
  alone = λ h. refl;
}
lines-Broken (c ∷ s) =
    let b = lines-Broken s in
    let next = at_newline (s ++ b'\n' ∷ []) in
    let (v, vs, e, more, k) = in_front-cons c next b.first b.others in
    record {
      first = v;
      others = vs;
      up_to = ap (in_front c next) b.up_to ∙ e;
      behind = λ t.
          ap (λ n. in_front c n (lines (s ++ b'\n' ∷ t))) (at_newline-break s t)
          ∙ ap (in_front c next) (b.behind t)
          ∙ more (lines t);
      alone = λ h. k (ground (arith, h)) ∙ b.alone (ground (arith, h));
    }

pub lines-break : (s t : Text) → lines (s ++ b'\n' ∷ t) ≡ lines (s ++ b'\n' ∷ []) ++ lines t
lines-break s t = let b = lines-Broken s in b.behind t ∙ sym (ap (λ l. l ++ lines t) b.up_to)

-- A text without a newline in it is one line in front of one.
pub lines-single :
    (s t : Text) → count b'\n' s ≡ 0 → (w : Text) × (lines (s ++ b'\n' ∷ t) ≡ w ∷ lines t)
lines-single s t h =
    let b = lines-Broken s in (b.first, b.behind t ∙ ap (λ l. b.first ∷ (l ++ lines t)) (b.alone h))
