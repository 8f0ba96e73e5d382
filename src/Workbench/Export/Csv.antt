-- ===== src/Workbench/Export/Csv.antt =====
-- A reader of CSV by the rules of RFC 4180, which takes CR LF, and also an LF or a CR alone, for the end
-- of a row wherever it is not quoted; and that it reads back what `to_csv` writes.
use tradar.Base.{
  ℕ, Bool, true, false, ◌||◌, List, [], ◌∷◌, ◌++◌, append_assoc, map, ◌≡◌, ◌≢◌, refl, ap, ◌∙◌, inl,
  inr, arith, ◌==◌, if◌then◌else◌, any, All, Bool-cases, Text, text, join, replace,
}
use tradar.Workbench.Export.{
  Exported, ok, err, table, needs_quotes, csv_field, csv_line, csv_lines, to_csv,
}

-- Where the reader stands: at the start of a field, in a bare one, in a quoted one, behind a quote in a
-- quoted one, or behind a CR that has ended a row.
pub data Place : Type 0 where
  fresh bare quoted behind_quote behind_return : Place

-- A character, a comma and the end of a line, in front of what the rest of the text reads as.
abbrev pub add : ℕ → List (List Text) → List (List Text)
add c ((f ∷ fs) ∷ rows) = ((c ∷ f) ∷ fs) ∷ rows
add c _ = []

abbrev pub next_field : List (List Text) → List (List Text)
next_field (fs ∷ rows) = ([] ∷ fs) ∷ rows
next_field [] = []

abbrev next_row : List (List Text) → List (List Text)
next_row rows = ([] ∷ []) ∷ rows

-- The rows of a text; what stands behind the last end of a line is no row.
unfoldable pub read : Place → Text → List (List Text)
read place [] = []
read quoted (c ∷ cs) =
    let inside = add c (read quoted cs) in if c == b'"' then read behind_quote cs else inside
read fresh (c ∷ cs) =
    let field = next_field (read fresh cs) in
    let row = next_row (read fresh cs) in
    let returned = next_row (read behind_return cs) in
    let inside = add c (read bare cs) in
    if c == b'"'
    then read quoted cs
    else if c == b','
    then field
    else if c == b'\n'
    then row
    else if c == b'\r'
    then returned
    else inside
read bare (c ∷ cs) =
    let field = next_field (read fresh cs) in
    let row = next_row (read fresh cs) in
    let returned = next_row (read behind_return cs) in
    let inside = add c (read bare cs) in
    if c == b',' then field else if c == b'\n' then row else if c == b'\r' then returned else inside
read behind_quote (c ∷ cs) =
    let field = next_field (read fresh cs) in
    let row = next_row (read fresh cs) in
    let returned = next_row (read behind_return cs) in
    let inside = add c (read bare cs) in
    let doubled = add c (read quoted cs) in
    if c == b'"'
    then doubled
    else if c == b','
    then field
    else if c == b'\n'
    then row
    else if c == b'\r'
    then returned
    else inside
read behind_return (c ∷ cs) =
    let field = next_field (read fresh cs) in
    let returned = next_row (read behind_return cs) in
    let inside = add c (read bare cs) in
    if c == b'\n'
    then read fresh cs
    else if c == b'"'
    then read quoted cs
    else if c == b','
    then field
    else if c == b'\r'
    then returned
    else inside

abbrev add_all : Text → List (List Text) → List (List Text)
add_all [] rows = rows
add_all (c ∷ cs) rows = add c (add_all cs rows)

-- What ends a field.
abbrev Ends : Text → Type 0
Ends [] = ⊥
Ends (c ∷ cs) = (c == b',' || c == b'\n') ≡ true

read-bare :
    (f rest : Text)
    → any needs_quotes f ≡ false
    → read bare (f ++ rest) ≡ add_all f (read bare rest)
unfolding read
read-bare [] rest h = refl
read-bare (c ∷ cs) rest h = ground (arith, read-bare cs rest, h)

read-plain :
    (f rest : Text)
    → any needs_quotes f ≡ false
    → Ends rest
    → read fresh (f ++ rest) ≡ add_all f (read bare rest)
unfolding read
read-plain [] [] h e = absurd e
read-plain [] (c ∷ cs) h e = ground (arith, e)
read-plain (c ∷ cs) rest h e = ground (arith, read-bare cs rest, h)

read-quoted :
    (f rest : Text)
    → Ends rest
    → read quoted (replace b'"' (text "\"\"") f ++ b'"' ∷ rest) ≡ add_all f (read bare rest)
unfolding read replace
read-quoted [] [] e = absurd e
read-quoted [] (c ∷ cs) e = ground (arith, e)
read-quoted (c ∷ cs) rest e = elim (Bool-cases (c == b'"')) [
  | inl h ↦ rw h (ground (arith, read-quoted cs rest e, h))
  | inr h ↦ rw (h, h) (ground (arith, read-quoted cs rest e, h))
]

quoted_start :
    (f rest : Text)
    → read fresh (b'"' ∷ (replace b'"' (text "\"\"") f ++ b'"' ∷ rest))
      ≡ read quoted (replace b'"' (text "\"\"") f ++ b'"' ∷ rest)
unfolding read
quoted_start f rest = refl

after_comma : (rest : Text) → read bare (b',' ∷ rest) ≡ next_field (read fresh rest)
unfolding read
after_comma rest = refl

read-csv_field :
    (f rest : Text) → Ends rest → read fresh (csv_field f ++ rest) ≡ add_all f (read bare rest)
unfolding csv_field
read-csv_field f rest e = elim (Bool-cases (any needs_quotes f)) [
  | inl h ↦ rw h (
      ap (read fresh) (ap (◌∷◌ b'"') (append_assoc (replace b'"' (text "\"\"") f) (b'"' ∷ []) rest))
      ∙ quoted_start f rest
      ∙ read-quoted f rest e)
  | inr h ↦ rw h (read-plain f rest h e)
]

-- A field in front of rows that go on.
add_all-row :
    (f : Text) (fs : List Text) (rows : List (List Text))
    → add_all f (([] ∷ fs) ∷ rows) ≡ (f ∷ fs) ∷ rows
add_all-row [] fs rows = refl
add_all-row (c ∷ cs) fs rows = ap (add c) (add_all-row cs fs rows)

read-csv_fields :
    (f : Text) (fs : List Text) (rest : Text)
    → read fresh (join (text ",") (map csv_field (f ∷ fs)) ++ b'\n' ∷ rest)
      ≡ (f ∷ fs) ∷ read fresh rest
unfolding join
read-csv_fields f [] rest =
    read-csv_field f (b'\n' ∷ rest) refl ∙ unfold read in add_all-row f [] (read fresh rest)
read-csv_fields f (g ∷ gs) rest =
    ap (read fresh)
      (append_assoc (csv_field f) (b',' ∷ join (text ",") (map csv_field (g ∷ gs))) (b'\n' ∷ rest))
    ∙ read-csv_field f (b',' ∷ (join (text ",") (map csv_field (g ∷ gs)) ++ b'\n' ∷ rest)) refl
    ∙ ap (add_all f) (after_comma (join (text ",") (map csv_field (g ∷ gs)) ++ b'\n' ∷ rest))
    ∙ ap (λ rows. add_all f (next_field rows)) (read-csv_fields g gs rest)
    ∙ add_all-row f (g ∷ gs) (read fresh rest)

read-csv_line :
    (fields : List Text) (rest : Text)
    → fields ≢ []
    → read fresh (csv_line fields ++ rest) ≡ fields ∷ read fresh rest
unfolding csv_line
read-csv_line [] rest n = absurd (n refl)
read-csv_line (f ∷ fs) rest n =
    ap (read fresh) (append_assoc (join (text ",") (map csv_field (f ∷ fs))) (b'\n' ∷ []) rest)
    ∙ read-csv_fields f fs rest

read-csv_lines :
    (rows : List (List Text)) → All (λ row. row ≢ []) rows → read fresh (csv_lines rows) ≡ rows
unfolding csv_lines
read-csv_lines [] h = unfold read in refl
read-csv_lines (row ∷ rows) h =
    read-csv_line row (csv_lines rows) h.0 ∙ ap (◌∷◌ row) (read-csv_lines rows h.1)

abbrev pub read_exported : Exported → List (List Text)
read_exported (ok text) = read fresh text
read_exported (err message) = []

-- The CSV of a table reads, by the rules of RFC 4180 with CR LF, a LF alone or a CR alone for the end of
-- a row, as its header and its rows, whatever commas, quotes and ends of lines the cells hold, if the
-- table has a column and no row is empty.
pub read-to_csv :
    (J : Type 0) (columns : List Text) (rows : List (List Text)) (truncated : Bool)
    → columns ≢ []
    → All (λ row. row ≢ []) rows
    → read_exported (to_csv {J = J} (table columns rows truncated)) ≡ columns ∷ rows
unfolding to_csv
read-to_csv J columns rows truncated n h =
    read-csv_line columns (csv_lines rows) n ∙ ap (◌∷◌ columns) (read-csv_lines rows h)
