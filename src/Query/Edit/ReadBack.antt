-- ===== src/Query/Edit/ReadBack.antt =====
-- The statements of `build_sql_edit` say what the edit says, whatever the names and values hold.
use tradar.Base.{
  split-cons, ℕ, zero, suc, ◌≤◌, ◌<◌, false, List, [], ◌∷◌, ◌++◌, map, none, some, ◌≡◌, refl, sym,
  ap, ◌∙◌, inl, inr, arith, ◌==◌, ==_iff, ==_refl, Bool-cases, Text, text, strip_prefix, replace,
  length, length-append, split, join, append_assoc, eq, Option, if◌then◌else◌,
}
use tradar.Query.Statements.{next_is}
use tradar.Query.Edit.{Pair, enclosed, quote_identifier, sql_literal, key_condition, assignment}
use tradar.Query.Edit.Reader.{
  Reads, Reads-bind, bind-none, Reads-first, Reads-second, Reads-word, Reads-pure, null_value,
  next_parts, and_parts, set_to, is_null, test, a_string, Cell, Read, word-none, word, quoted_text,
  pure, ◌>>=◌, read_body, read_parts, read_identifier, read_value, read_assignment, read_condition,
}

-- What may follow a name or a value.
pub record IsEnd (rest : Text) : Type 0 where
  pub no_quote : next_is b'\'' rest ≡ false
  pub no_name : next_is b'"' rest ≡ false
  pub no_dot : next_is b'.' rest ≡ false

read_body-cons :
    (q c : ℕ) (s body rest : Text)
    → (c == q) ≡ false
    → read_body q s ≡ some (body, rest)
    → read_body q (c ∷ s) ≡ some (c ∷ body, rest)
unfolding read_body
read_body-cons q c [] body rest e h = cc
read_body-cons q c (d ∷ s) body rest e h = rw e (ground arith)

read_body-doubled :
    (q : ℕ) (s body rest : Text)
    → read_body q s ≡ some (body, rest)
    → read_body q (q ∷ q ∷ s) ≡ some (q ∷ body, rest)
unfolding read_body
read_body-doubled q s body rest h = rw (==_refl q) (ground arith)

read_body-close :
    (q : ℕ) (rest : Text) → next_is q rest ≡ false → read_body q (q ∷ rest) ≡ some ([], rest)
unfolding read_body
read_body-close q [] h = rw (==_refl q)
read_body-close q (d ∷ rest) h = rw (==_refl q) (rw h)

read_body-replace :
    (q : ℕ) (s rest : Text)
    → next_is q rest ≡ false
    → read_body q (replace q (q ∷ q ∷ []) s ++ q ∷ rest) ≡ some (s, rest)
unfolding replace
read_body-replace q [] rest h = read_body-close q rest h
read_body-replace q (c ∷ s) rest h = elim (Bool-cases (c == q)) [
  | inl e ↦ rw e (
      read_body-doubled q _ s rest (read_body-replace q s rest h)
      ∙ ap (λ x. some (x ∷ s, rest)) (sym ((==_iff c q).0 e)))
  | inr e ↦ rw e (read_body-cons q c _ s rest e (read_body-replace q s rest h))
]

read_body-enclosed :
    (q : ℕ) (s rest : Text)
    → next_is q rest ≡ false
    → read_body q ((replace q (q ∷ q ∷ []) s ++ q ∷ []) ++ rest) ≡ some (s, rest)
read_body-enclosed q s rest h =
    rw (append_assoc (replace q (q ∷ q ∷ []) s) (q ∷ []) rest) (read_body-replace q s rest h)

quoted_text-enclosed :
    (q : ℕ) (s rest : Text)
    → next_is q rest ≡ false
    → Reads (quoted_text q) (enclosed q s ++ rest) s rest
unfolding quoted_text
quoted_text-enclosed q s rest h =
    Reads-bind (word (q ∷ [])) _ (Reads-word (q ∷ []) _) (read_body-enclosed q s rest h)

pub no_next : (c : ℕ) (w s : Text) → next_is c s ≡ false → word (c ∷ w) s ≡ none
unfolding strip_prefix
no_next c w s h = word-none (c ∷ w) s (go s h)
  where
    go : (s : Text) → next_is c s ≡ false → strip_prefix (c ∷ w) s ≡ none
    go [] h = refl
    go (d ∷ s) h = ground arith

-- The parts of a dotted name.
abbrev pub parts_of : Text → List Text
parts_of name = split (λ c. c == b'.') name

-- The value that a text of the grid stands for: `NULL` for no value, else itself.
abbrev pub value_of : Text → Option Text
value_of value = if eq value (text "NULL") then none else some value

abbrev pub cell_of : Pair → Cell
cell_of (column, value) = (parts_of column, value_of value)

-- A string is read back as its text.
a_string-enclosed :
    (value rest : Text)
    → IsEnd rest
    → Reads a_string (enclosed b'\'' value ++ rest) (some value) rest
a_string-enclosed value rest h =
    Reads-bind (quoted_text b'\'') (λ v. pure (some v))
      (quoted_text-enclosed b'\'' value rest h.no_quote) (Reads-pure (some value) rest)

-- A literal is read back as its value, and nothing behind it is touched.
pub read_value-sql_literal :
    (value rest : Text)
    → IsEnd rest
    → Reads read_value (sql_literal value ++ rest) (value_of value) rest
unfolding read_value sql_literal
read_value-sql_literal value rest h = elim (Bool-cases (eq value (text "NULL"))) [
  | inl e ↦ rw e (
      Reads-second a_string null_value
        (bind-none (quoted_text b'\'') (λ v. pure (some v))
          (unfold quoted_text in
            bind-none (word (text "'")) (λ _. read_body b'\'')
              (no_next b'\'' [] (text "NULL" ++ rest) refl)))
        (Reads-bind (word (text "NULL")) (λ _. pure none) (Reads-word (text "NULL") rest)
          (Reads-pure none rest)))
  | inr e ↦ rw e (Reads-first a_string null_value (a_string-enclosed value rest h))
]

read_parts_step :
    (fuel : ℕ) (s : Text) (a : List Text) (rest : Text)
    → Reads (quoted_text b'"' >>= and_parts (read_parts fuel)) s a rest
    → Reads (read_parts (suc fuel)) s a rest
unfolding read_parts
read_parts_step fuel s a rest h = h

pub join_one : (sep t : Text) → join sep (t ∷ []) ≡ t
unfolding join
join_one sep t = refl

pub join_more :
    (sep t u : Text) (ts : List Text) → join sep (t ∷ u ∷ ts) ≡ t ++ (sep ++ join sep (u ∷ ts))
unfolding join
join_more sep t u ts = refl

read_parts-join :
    (fuel : ℕ) (part : Text) (parts : List Text) (rest : Text)
    → length parts < fuel
    → IsEnd rest
    → Reads
        (read_parts fuel)
        (join (text ".") (map (enclosed b'"') (part ∷ parts)) ++ rest)
        (part ∷ parts)
        rest
read_parts-join zero part parts rest h e = elim h [ ]
read_parts-join (suc fuel) part [] rest h e = rw (join_one (text ".") (enclosed b'"' part)) (
    read_parts_step fuel _ _ _ (
      Reads-bind (quoted_text b'"') (and_parts (read_parts fuel))
        (quoted_text-enclosed b'"' part rest e.no_name)
        (Reads-second (next_parts (read_parts fuel) part) (pure (part ∷ []))
          (bind-none (word (text ".")) _ (no_next b'.' [] rest e.no_dot))
          (Reads-pure (part ∷ []) rest))))
read_parts-join (suc fuel) part (p ∷ parts) rest h e =
    let names = join (text ".") (map (enclosed b'"') (p ∷ parts)) in
    let ih = read_parts-join fuel p parts rest (omega arith) e in
    rw
      (
        join_more (text ".") (enclosed b'"' part) (enclosed b'"' p) (map (enclosed b'"') parts),
        append_assoc (enclosed b'"' part) (text "." ++ names) rest,
      )
      (read_parts_step fuel _ _ _ (
        Reads-bind (quoted_text b'"') (and_parts (read_parts fuel))
          (quoted_text-enclosed b'"' part _ refl)
          (Reads-first (next_parts (read_parts fuel) part) (pure (part ∷ [])) (
            Reads-bind (word (text ".")) _ (Reads-word (text ".") (names ++ rest))
              (Reads-bind (read_parts fuel) _ ih (Reads-pure _ rest))))))

-- Items that are not empty: there are no more of them than characters.
pub length-join-map :
    {A : Type 0} (f : A → Text) (sep : Text) (xs : List A)
    → ((x : A) → 0 < length (f x))
    → length xs ≤ length (join sep (map f xs))
unfolding join
length-join-map f sep [] h = omega arith
length-join-map f sep (x ∷ []) h = omega (arith, h x)
length-join-map f sep (x ∷ y ∷ xs) h = omega (
  arith,
  h x,
  length-join-map f sep (y ∷ xs) h,
  length-append (f x) (sep ++ join sep (map f (y ∷ xs))),
  length-append sep (join sep (map f (y ∷ xs))),
)

read_identifier_step :
    (s : Text) (a : List Text) (rest : Text)
    → Reads (read_parts (length s)) s a rest
    → Reads read_identifier s a rest
unfolding read_identifier
read_identifier_step s a rest h = h

-- A quoted name is read back as the name.
pub read_identifier-quote_identifier :
    (name rest : Text)
    → IsEnd rest
    → Reads read_identifier (quote_identifier name ++ rest) (parts_of name) rest
unfolding quote_identifier
read_identifier-quote_identifier name rest e =
    let (w, ws, h) = split-cons (λ c. c == b'.') name in
    let names = join (text ".") (map (enclosed b'"') (w ∷ ws)) in
    let fuel = length-join-map (enclosed b'"') (text ".") (w ∷ ws) (λ x. omega arith) in
    rw h (
      read_identifier_step _ _ _ (
        read_parts-join (length (names ++ rest)) w ws rest (omega (arith, length-append names rest))
          e))

abbrev pub IsEnd_blank : (t : Text) → IsEnd (b' ' ∷ t)
IsEnd_blank t = record { no_quote = refl; no_name = refl; no_dot = refl }

set_to-Reads :
    (read : Read (Option Text)) (column : List Text) (s rest : Text) (value : Option Text)
    → Reads read s value rest
    → Reads (set_to read column) (text " = " ++ s) (column, value) rest
set_to-Reads read column s rest value h =
    Reads-bind (word (text " = ")) _ (Reads-word (text " = ") s)
      (Reads-bind read (λ v. pure (column, v)) h (Reads-pure (column, value) rest))

pub read_assignment-assignment :
    (p : Pair) (rest : Text)
    → IsEnd rest
    → Reads read_assignment (assignment p ++ rest) (cell_of p) rest
unfolding read_assignment assignment
read_assignment-assignment (column, value) rest e =
    rw (append_assoc (quote_identifier column) (text " = " ++ sql_literal value) rest) (
      Reads-bind read_identifier (set_to read_value)
        (read_identifier-quote_identifier column _ (IsEnd_blank _))
        (set_to-Reads read_value (parts_of column) (sql_literal value ++ rest) rest (value_of value)
          (read_value-sql_literal value rest e)))

pub read_condition-key_condition :
    (p : Pair) (rest : Text)
    → IsEnd rest
    → Reads read_condition (key_condition p ++ rest) (cell_of p) rest
unfolding read_condition key_condition
read_condition-key_condition (column, value) rest e =
    let parts = parts_of column in
    elim (Bool-cases (eq value (text "NULL"))) [
      | inl n ↦ rw n (
          rw (append_assoc (quote_identifier column) (text " IS NULL") rest) (
            Reads-bind read_identifier test
              (read_identifier-quote_identifier column _ (IsEnd_blank _))
              (Reads-first (is_null parts) (set_to a_string parts) (
                Reads-bind (word (text " IS NULL")) (λ _. pure (parts, none))
                  (Reads-word (text " IS NULL") rest) (Reads-pure (parts, none) rest)))))
      | inr n ↦ rw n (
          rw (append_assoc (quote_identifier column) (text " = " ++ sql_literal value) rest) (
            Reads-bind read_identifier test
              (read_identifier-quote_identifier column _ (IsEnd_blank _))
              (Reads-second (is_null parts) (set_to a_string parts)
                (bind-none (word (text " IS NULL")) (λ _. pure (parts, none))
                  (word-none (text " IS NULL") (text " = " ++ (sql_literal value ++ rest))
                    (unfold strip_prefix in refl)))
                (set_to-Reads a_string parts (sql_literal value ++ rest) rest (some value)
                  (unfold sql_literal in rw n (a_string-enclosed value rest e))))))
    ]
