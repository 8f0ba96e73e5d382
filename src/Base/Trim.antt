-- ===== src/Base/Trim.antt =====
-- What `trim_start`, `trim_end` and `trim` of Rust's `str` leave.
use tradar.Base.{
  ◌<◌, ◌-◌, length, length-append, true, ◌&&◌, [], ◌∷◌, ◌++◌, ◌≡◌, ◌≢◌, refl, sym, ap, subst, ◌∙◌,
  inl, inr, arith, Bool-cases, All, is_empty, Text, len, is_whitespace, trim_start, trim_end, trim,
}

abbrev pub AllBlank : Text → Type 0
AllBlank = All (λ c. is_whitespace c ≡ true)

pub trim_start-split : (s : Text) → (lead : Text) × (s ≡ lead ++ trim_start s) × AllBlank lead
unfolding trim_start
trim_start-split [] = ([], refl, tt)
trim_start-split (c ∷ cs) = elim (Bool-cases (is_whitespace c)) [
  | inl w ↦ let (lead, e, b) = trim_start-split cs in (c ∷ lead, rw w (ap (◌∷◌ c) e), (w, b))
  | inr w ↦ ([], rw w, tt)
]

is_empty-nil : (s : Text) → is_empty s ≡ true → s ≡ []
is_empty-nil [] h = refl
is_empty-nil (c ∷ cs) h = cc

pub trim_end-split : (s : Text) → (trail : Text) × (s ≡ trim_end s ++ trail) × AllBlank trail
unfolding trim_end
trim_end-split [] = ([], refl, tt)
trim_end-split (c ∷ cs) =
    let (trail, e, b) = trim_end-split cs in
    elim (Bool-cases (is_whitespace c && is_empty (trim_end cs))) [
      | inl w ↦
          let nothing : trim_end cs ≡ [] = is_empty-nil (trim_end cs) (ground arith) in
          let e' : cs ≡ trail = e ∙ ap (λ t. t ++ trail) nothing in
          (c ∷ cs, rw w, (ground arith, subst AllBlank (sym e') b))
      | inr w ↦ (trail, rw w (ap (◌∷◌ c) e), b)
    ]

-- A text is its trimmed text between white space.
pub trim-split :
    (s : Text)
    → (lead : Text) × (trail : Text) × (s ≡ lead ++ trim_start s)
      × (trim_start s ≡ trim s ++ trail)
      × AllBlank lead
      × AllBlank trail
unfolding trim
trim-split s =
    let (lead, e, b) = trim_start-split s in
    let (trail, f, d) = trim_end-split (trim_start s) in (lead, trail, e, f, b, d)

pub trim-nil : (s : Text) → trim s ≡ [] → trim_start s ≡ []
unfolding trim trim_start trim_end
trim-nil [] h = refl
trim-nil (c ∷ cs) h = ground (arith, trim-nil cs)

trim_end-ne-nil : (s : Text) → trim s ≢ [] → trim_end s ≢ []
unfolding trim trim_start trim_end
trim_end-ne-nil [] h = h
trim_end-ne-nil (c ∷ cs) h = ground (arith, trim_end-ne-nil cs)

-- Both ways of trimming the end drop as many bytes, unless there is nothing but white space.
pub len-trim_end :
    (s : Text) → trim s ≢ [] → len s - len (trim_end s) ≡ len (trim_start s) - len (trim s)
unfolding trim trim_start trim_end len
len-trim_end [] h = refl
len-trim_end (c ∷ cs) h = ground (arith, len-trim_end cs, trim_end-ne-nil cs)

pub len-pos : (s : Text) → s ≢ [] → 0 < len s
unfolding len
len-pos [] h = absurd (h refl)
len-pos (c ∷ cs) h = ground arith

trim_start_twice : (s : Text) → trim_start (trim_start s) ≡ trim_start s
unfolding trim_start
trim_start_twice [] = refl
trim_start_twice (c ∷ cs) = ground (arith, trim_start_twice cs)

trim_end_twice : (s : Text) → trim_end (trim_end s) ≡ trim_end s
unfolding trim_end
trim_end_twice [] = refl
trim_end_twice (c ∷ cs) = ground (arith, trim_end_twice cs)

-- Trimming the end leaves the start as it is.
trim_start-trim_end : (s : Text) → trim_start s ≡ s → trim_start (trim_end s) ≡ trim_end s
unfolding trim_start trim_end
trim_start-trim_end [] h = refl
trim_start-trim_end (c ∷ cs) h = elim (Bool-cases (is_whitespace c)) [
  | inl w ↦
      let (lead, e, _) = trim_start-split cs in
      let same : trim_start cs ≡ c ∷ cs = rw w at h in
      absurd (omega (arith, ap length e, ap length same, length-append lead (trim_start cs)))
  | inr w ↦ rw (w, w) refl
]

pub trim_twice : (s : Text) → trim (trim s) ≡ trim s
unfolding trim
trim_twice s =
    ap trim_end (trim_start-trim_end (trim_start s) (trim_start_twice s))
    ∙ trim_end_twice (trim_start s)
