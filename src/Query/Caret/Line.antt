-- ===== src/Query/Caret/Line.antt =====
-- Which line `line_and_caret` prints, and where its caret stands.
use tradar.Base.{
  ℕ, zero, suc, ◌+◌, ◌-◌, ◌<◌, ◌≤◌, true, false, [], ◌∷◌, ◌++◌, none, some, ◌≡◌, refl, sym, ap, ◌∙◌,
  ◌⊎◌, ◌↔◌, List, inl, inr, arith, leb, ◌==◌, Bool-cases, append_assoc, append-nil, length,
  length-append, take, drop, take-append-drop, count, take-length-append, drop-length-append, Text,
  text, position, decimal, replicate,
}
use tradar.Query.Caret.{scan, line_end, marked, line_and_caret}

-- The line that holds the character at `index`: `before` ends where a line does, `line` has no line
-- end, and what follows it is a line end or nothing.
pub record IsLine (sql : Text) (index : ℕ) (before line after : Text) : Type 0 where
  pub splits : sql ≡ before ++ (line ++ after)
  pub begins : (before ≡ []) ⊎ ((t : Text) × (before ≡ t ++ text "\n"))
  pub one_line : count b'\n' line ≡ 0
  pub stops : (after ≡ []) ⊎ ((t : Text) × (after ≡ b'\n' ∷ t))
  pub from : length before ≤ index
  pub to : index ≤ length before + length line

position-cases :
    (x : ℕ) (s : Text)
    → (position x s ≡ none) × (count x s ≡ 0)
      ⊎ ((a : Text) × (b : Text) × (s ≡ a ++ x ∷ b)
          × (count x a ≡ 0)
          × (position x s ≡ some (length a)))
unfolding position count
position-cases x [] = inl (refl, refl)
position-cases x (c ∷ cs) = elim (Bool-cases (c == x)) [
  | inl e ↦ inr ([], cs, ground arith, refl, rw e)
  | inr e ↦ elim (position-cases x cs) [
    | inl (p, n) ↦ inl (rw (e, p), rw e (omega arith))
    | inr (a, b, s, n, p) ↦ inr (c ∷ a, b, ap (◌∷◌ c) s, rw e (omega arith), rw (e, p))
  ]
]

-- A part with no `x` in front ends before the first `x`.
length-le_of_count :
    (x : ℕ) (s t a b : Text) → s ++ t ≡ a ++ x ∷ b → count x s ≡ 0 → length s ≤ length a
unfolding count
length-le_of_count x [] t a b e n = omega arith
length-le_of_count x (c ∷ s) t [] b e n = ground arith
length-le_of_count x (c ∷ s) t (d ∷ a) b e n =
    let e' : s ++ t ≡ a ++ x ∷ b = cc in
    let n' : count x s ≡ 0 = omega arith in omega (arith, length-le_of_count x s t a b e' n')

-- The walked text `cs` splits into whole lines and the start of the last one; `(number, start)` is
-- what the walk from line `n`, at index `i` of a line that starts at `st`, makes of it.
record Scanned (i n st : ℕ) (cs : Text) (number start : ℕ) : Type 0 where
  lines : Text
  current : Text
  splits : cs ≡ lines ++ current
  numbered : number ≡ n + count b'\n' lines
  one_line : count b'\n' current ≡ 0
  starts :
      (lines ≡ []) × (start ≡ st)
      ⊎ ((t : Text) × (lines ≡ t ++ text "\n") × (start ≡ i + length lines))

module _ (i n st c : ℕ) (cs : Text) {number start : ℕ} where
  Scanned-newline :
      (c == b'\n') ≡ true
      → Scanned (i + 1) (n + 1) (i + 1) cs number start
      → Scanned i n st (c ∷ cs) number start
  unfolding count
  Scanned-newline e h = record {
    lines = c ∷ h.lines;
    current = h.current;
    splits = ap (◌∷◌ c) h.splits;
    numbered = rw e (omega (arith, h.numbered));
    one_line = h.one_line;
    starts = inr (elim h.starts [
      | inl (l, s) ↦ ([], ground arith, omega (arith, ap length l))
      | inr (t, l, s) ↦ (c ∷ t, ap (◌∷◌ c) l, omega arith)
    ]);
  }

  Scanned-other :
      (c == b'\n') ≡ false
      → Scanned (i + 1) n st cs number start
      → Scanned i n st (c ∷ cs) number start
  unfolding count
  Scanned-other e h = elim h.starts [
    | inl (l, s) ↦ record {
      lines = [];
      current = c ∷ cs;
      splits = refl;
      numbered = omega (arith, h.numbered, ap (count b'\n') l);
      one_line =
          rw e
            (omega (arith, ap (count b'\n') (h.splits ∙ ap (λ t. t ++ h.current) l), h.one_line));
      starts = inl (refl, s);
    }
    | inr (t, l, s) ↦ record {
      lines = c ∷ h.lines;
      current = h.current;
      splits = ap (◌∷◌ c) h.splits;
      numbered = rw e (omega (arith, h.numbered));
      one_line = h.one_line;
      starts = inr (c ∷ t, ap (◌∷◌ c) l, omega arith);
    }
  ]

scan-Scanned : (i n st : ℕ) (cs : Text) → Scanned i n st cs (scan i n st cs).0 (scan i n st cs).1
unfolding scan count
scan-Scanned i n st [] = record {
  lines = [];
  current = [];
  splits = refl;
  numbered = omega arith;
  one_line = refl;
  starts = inl (refl, refl);
}
scan-Scanned i n st (c ∷ cs) = elim (Bool-cases (c == b'\n')) [
  | inl e ↦ rw (e, scan) (Scanned-newline i n st c cs e (scan-Scanned (i + 1) (n + 1) (i + 1) cs))
  | inr e ↦ rw (e, scan) (Scanned-other i n st c cs e (scan-Scanned (i + 1) n st cs))
]

length-take : (n : ℕ) (s : Text) → n ≤ length s → length (take n s) ≡ n
length-take zero s h = refl
length-take (suc n) [] h = absurd (omega arith)
length-take (suc n) (c ∷ s) h = omega (arith, length-take n s)

-- The rest of the line behind `current`, up to the first line end or the end of the text.
record Ended (current rest : Text) (line after : Text) : Type 0 where
  splits : current ++ rest ≡ line ++ after
  one_line : count b'\n' line ≡ 0
  stops : (after ≡ []) ⊎ ((t : Text) × (after ≡ b'\n' ∷ t))
  holds : length current ≤ length line
  cut :
      (start total : ℕ)
      → total ≡ start + length (current ++ rest)
      → take (line_end (position b'\n' (current ++ rest)) start total - start) (current ++ rest)
        ≡ line

take-length : (s : Text) → take (length s) s ≡ s
take-length [] = refl
take-length (c ∷ s) = ap (◌∷◌ c) (take-length s)

end_of_line :
    (current rest : Text)
    → count b'\n' current ≡ 0
    → (line : Text) × (after : Text) × Ended current rest line after
end_of_line current rest n = elim (position-cases b'\n' (current ++ rest)) [
  | inl (p, z) ↦ (
    current ++ rest,
    [],
    record {
      splits = sym (append-nil _);
      one_line = z;
      stops = inl refl;
      holds = omega (arith, length-append current rest);
      cut = λ start total e. rw p (
          let all : total - start ≡ length (current ++ rest) = omega arith in
          rw all (take-length (current ++ rest)));
    },
  )
  | inr (a, b, s, z, p) ↦ (
    a,
    b'\n' ∷ b,
    record {
      splits = s;
      one_line = z;
      stops = inr (b, refl);
      holds = length-le_of_count b'\n' current rest a b s n;
      cut = λ start total e. rw p (
          let all : start + length a - start ≡ length a = omega arith in
          rw all (rw s (take-length-append a _)));
    },
  )
]

line_and_caret_at :
    (sql : Text) (index start : ℕ) (tail : Text)
    → index < length sql
    → (scan 0 1 0 (take index sql)).1 ≡ start
    → drop start sql ≡ tail
    → line_and_caret sql (suc index)
      ≡ some (
          marked
            (scan 0 1 0 (take index sql)).0
            (take (line_end (position b'\n' tail) start (length sql) - start) tail)
            (index - start))
unfolding line_and_caret
line_and_caret_at sql index start tail h e f =
    let inside : leb (length sql) index ≡ false = ground arith in rw (inside, e, f)

replicate-add :
    {A : Type 0} (m n : ℕ) (x : A) (s : List A)
    → replicate m x ++ (replicate n x ++ s) ≡ replicate (m + n) x ++ s
replicate-add zero n x s = let e : n ≡ 0 + n = omega arith in ap (λ k. replicate k x ++ s) e
replicate-add (suc m) n x s =
    let e : suc (m + n) ≡ suc m + n = omega arith in
    ap (◌∷◌ x) (replicate-add m n x s) ∙ ap (λ k. replicate k x ++ s) e

-- The two lines of the mark, the blanks in front of the caret counted.
marked_lem :
    (n : ℕ) (line : Text) (k : ℕ)
    → (let label = text "LINE " ++ (decimal n ++ text ": ") in
        marked n line k
        ≡ label ++ (line ++ b'\n' ∷ (replicate (length label + k) b' ' ++ text "^")))
marked_lem n line k =
    let label = text "LINE " ++ (decimal n ++ text ": ") in
    ap (λ t. label ++ (line ++ b'\n' ∷ t)) (replicate-add (length label) k b' ' (text "^"))

-- The line of a position inside the text is marked under its number.
pub line_and_caret-marked :
    (sql : Text) (index : ℕ)
    → index < length sql
    → (before : Text) × (line : Text) × (after : Text) × IsLine sql index before line after
      × (line_and_caret sql (suc index)
          ≡ some (marked (1 + count b'\n' before) line (index - length before)))
line_and_caret-marked sql index h =
    let s = scan-Scanned 0 1 0 (take index sql) in
    let rest = drop index sql in
    let (line, after, w) = end_of_line s.current rest s.one_line in
    let start : (scan 0 1 0 (take index sql)).1 ≡ length s.lines = elim s.starts [
      | inl (l, e) ↦ e ∙ sym (ap length l)
      | inr (t, l, e) ↦ omega arith
    ] in
    let whole : sql ≡ s.lines ++ (s.current ++ rest) =
      sym (take-append-drop index sql)
      ∙ ap (λ t. t ++ rest) s.splits
      ∙ append_assoc s.lines s.current rest in
    let tail : drop (length s.lines) sql ≡ s.current ++ rest =
      ap (drop (length s.lines)) whole ∙ drop-length-append s.lines _ in
    let at_index : length s.lines + length s.current ≡ index = omega (
      arith,
      ap length s.splits,
      length-append s.lines s.current,
      length-take index sql (omega arith),
    ) in
    (
      s.lines,
      line,
      after,
      record {
        splits = whole ∙ ap (◌++◌ s.lines) w.splits;
        begins = elim s.starts [ inl (l, _) ↦ inl l | inr (t, l, _) ↦ inr (t, l) ];
        one_line = w.one_line;
        stops = w.stops;
        from = omega arith;
        to = omega (arith, w.holds);
      },
      line_and_caret_at sql index (length s.lines) (s.current ++ rest) h start tail
          ∙ rw (
            w.cut (length s.lines) (length sql)
                (ap length whole ∙ length-append s.lines (s.current ++ rest)),
            s.numbered,
          ),
    )

-- The answer for a position inside the text is two lines: `LINE`, the number of the line that holds the
-- position, a colon and that line; and below, in the column at which the position is printed, a caret
-- behind blanks.
pub line_and_caret_inside :
    (sql : Text) (index : ℕ)
    → index < length sql
    → (before : Text) × (line : Text) × (after : Text) × IsLine sql index before line after
      × (let label = text "LINE " ++ (decimal (1 + count b'\n' before) ++ text ": ") in
          line_and_caret sql (suc index)
          ≡ some (
              label
              ++ (line
                  ++ b'\n'
                    ∷ (replicate (length label + (index - length before)) b' ' ++ text "^"))))
line_and_caret_inside sql index h =
    let (before, line, after, w, e) = line_and_caret-marked sql index h in
    (
      before,
      line,
      after,
      w,
      e ∙ ap some (marked_lem (1 + count b'\n' before) line (index - length before)),
    )

-- There is no answer exactly for the position 0 and for positions behind the text.
pub line_and_caret-none :
    (sql : Text) (p : ℕ) → (line_and_caret sql p ≡ none) ↔ (p ≡ 0) ⊎ (length sql < p)
unfolding line_and_caret
line_and_caret-none sql zero = ((λ _. inl refl), (λ _. refl))
line_and_caret-none sql (suc index) = elim (Bool-cases (leb (length sql) index)) [
  | inl e ↦ ((λ _. inr (ground arith)), (λ _. rw e))
  | inr e ↦ ((λ h. cc (rw e at h)), (λ h. absurd (ground arith)))
]
