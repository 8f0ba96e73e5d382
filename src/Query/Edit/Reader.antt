-- ===== src/Query/Edit/Reader.antt =====
-- A reader of SQL that knows nothing of `build_sql_edit`: names are lists of quoted parts, in which and
-- in strings a doubled quote stands for one; `NULL` is a value of its own, which no `=` finds; and an
-- UPDATE and a DELETE have lists that are not empty.
use tradar.Base.{
  ℕ, zero, suc, List, [], ◌∷◌, ◌++◌, Option, none, some, ◌≡◌, refl, ◌==◌, ==_refl, if◌then◌else◌,
  Text, text, strip_prefix, length,
}

-- Reads a value from the front of a text, and says what is left.
abbrev pub Read : Type 0 → Type 0
Read A = Text → Option (A × Text)

-- `m` reads `a` from the front of `s` and leaves `rest`.
abbrev pub Reads : {A : Type 0} → Read A → Text → A → Text → Type 0
Reads m s a rest = m s ≡ some (a, rest)

infixl 5 ◌>>=◌ ◌>>◌
unfoldable pub ◌>>=◌ : {A B : Type 0} → Read A → (A → Read B) → Read B
◌>>=◌ m f s = elim (m s) [ none ↦ none | some (a, rest) ↦ f a rest ]

abbrev pub ◌>>◌ : {B : Type 0} → Read (Unit {0}) → Read B → Read B
m >> k = m >>= λ _. k

unfoldable pub pure : {A : Type 0} → A → Read A
pure a s = some (a, s)

pub Reads-pure : {A : Type 0} (a : A) (s : Text) → Reads (pure a) s a s
unfolding pure
Reads-pure a s = refl

-- A fixed text.
unfoldable pub word : Text → Read (Unit {0})
word w s = elim (strip_prefix w s) [ none ↦ none | some rest ↦ some (tt, rest) ]

-- The first reader if it reads, else the second.
unfoldable pub or_else : {A : Type 0} → Read A → Read A → Read A
or_else m n s = elim (m s) [ none ↦ n s | some r ↦ some r ]

pub Reads-bind :
    {A B : Type 0} (m : Read A) (f : A → Read B) {s rest t : Text} {a : A} {b : B}
    → Reads m s a rest
    → Reads (f a) rest b t
    → Reads (m >>= f) s b t
unfolding ◌>>=◌
Reads-bind m f h k = rw (h, ◌>>=◌) k

pub bind-none :
    {A B : Type 0} (m : Read A) (f : A → Read B) {s : Text} → m s ≡ none → (m >>= f) s ≡ none
unfolding ◌>>=◌
bind-none m f h = rw (h, ◌>>=◌)

pub Reads-first :
    {A : Type 0} (m n : Read A) {s rest : Text} {a : A}
    → Reads m s a rest
    → Reads (or_else m n) s a rest
unfolding or_else
Reads-first m n h = rw (h, or_else)

pub Reads-second :
    {A : Type 0} (m n : Read A) {s rest : Text} {a : A}
    → m s ≡ none
    → Reads n s a rest
    → Reads (or_else m n) s a rest
unfolding or_else
Reads-second m n h k = rw (h, or_else) k

strip_prefix_append : (w rest : Text) → strip_prefix w (w ++ rest) ≡ some rest
unfolding strip_prefix
strip_prefix_append [] rest = refl
strip_prefix_append (c ∷ w) rest = rw (==_refl c) (strip_prefix_append w rest)

pub Reads-word : (w rest : Text) → Reads (word w) (w ++ rest) tt rest
unfolding word
Reads-word w rest = rw (strip_prefix_append w rest, word)

pub word-none : (w s : Text) → strip_prefix w s ≡ none → word w s ≡ none
unfolding word
word-none w s h = rw (h, word)

abbrev in_front : ℕ → Option (Text × Text) → Option (Text × Text)
in_front c none = none
in_front c (some (s, rest)) = some (c ∷ s, rest)

-- The rest of a quoted text, behind the opening quote.
unfoldable pub read_body : ℕ → Read Text
read_body q [] = none
read_body q (c ∷ []) = if c == q then some ([], []) else none
read_body q (c ∷ d ∷ cs) =
    let doubled = in_front q (read_body q cs) in
    let plain = in_front c (read_body q (d ∷ cs)) in
    if c == q then (if d == q then doubled else some ([], d ∷ cs)) else plain

unfoldable pub quoted_text : ℕ → Read Text
quoted_text q = do word (q ∷ []); read_body q

-- A name: quoted parts with dots between.
abbrev pub next_parts : Read (List Text) → Text → Read (List Text)
next_parts more part = do word (text "."); rest ← more; pure (part ∷ rest)

abbrev pub and_parts : Read (List Text) → Text → Read (List Text)
and_parts more part = or_else (next_parts more part) (pure (part ∷ []))

unfoldable pub read_parts : ℕ → Read (List Text)
unfolding read_body ◌>>=◌ or_else word pure quoted_text
read_parts zero s = none
read_parts (suc fuel) s = let more = read_parts fuel in (quoted_text b'"' >>= and_parts more) s

unfoldable pub read_identifier : Read (List Text)
unfolding read_parts
read_identifier s = read_parts (length s) s

-- A value: a string, or NULL.
abbrev pub Cell : Type 0
Cell = List Text × Option Text

abbrev pub a_string : Read (Option Text)
a_string = do value ← quoted_text b'\''; pure (some value)

abbrev pub null_value : Read (Option Text)
null_value = do word (text "NULL"); pure none

unfoldable pub read_value : Read (Option Text)
unfolding read_body quoted_text or_else word pure ◌>>=◌
read_value = or_else a_string null_value

abbrev pub set_to : Read (Option Text) → List Text → Read Cell
set_to value column = do word (text " = "); v ← value; pure (column, v)

unfoldable pub read_assignment : Read Cell
unfolding read_identifier read_value
read_assignment = read_identifier >>= set_to read_value

abbrev pub is_null : List Text → Read Cell
is_null column = do word (text " IS NULL"); pure (column, none)

-- A condition that can hold: `IS NULL`, or `=` with a string.
abbrev pub test : List Text → Read Cell
test column = or_else (is_null column) (set_to a_string column)

unfoldable pub read_condition : Read Cell
unfolding read_identifier quoted_text word pure or_else ◌>>=◌
read_condition = read_identifier >>= test

-- One item or more, with a separator between.
abbrev pub next_items : Text → Read (List Cell) → Cell → Read (List Cell)
next_items sep more first = do word sep; rest ← more; pure (first ∷ rest)

abbrev pub and_items : Text → Read (List Cell) → Cell → Read (List Cell)
and_items sep more first = or_else (next_items sep more first) (pure (first ∷ []))

unfoldable pub read_items : ℕ → Text → Read Cell → Read (List Cell)
read_items zero sep item s = none
read_items (suc fuel) sep item s = (item >>= and_items sep (read_items fuel sep item)) s

-- What a statement on one table asks for: the new values (none of them for a DELETE), and the
-- condition on the key.
pub record Request : Type 0 where
  pub table : List Text
  pub assigned : Option (List Cell)
  pub key : List Cell

abbrev at_end : {A : Type 0} → Option (A × Text) → Option A
at_end none = none
at_end (some (a, [])) = some a
at_end (some (a, c ∷ cs)) = none

abbrev pub requested : List Text → Option (List Cell) → List Cell → Request
requested table assigned key = record { table = table; assigned = assigned; key = key }

abbrev pub with_key : ℕ → List Text → Option (List Cell) → Read Request
with_key fuel table assigned = do
  word (text " WHERE ")
  key ← read_items fuel (text " AND ") read_condition
  pure (requested table assigned key)

unfoldable pub read_where : List Text → Option (List Cell) → Read Request
unfolding read_condition read_items
read_where table assigned s = with_key (length s) table assigned s

abbrev pub with_assignments : ℕ → List Text → Read Request
with_assignments fuel table = do
  word (text " SET ")
  pairs ← read_items fuel (text ", ") read_assignment
  read_where table (some pairs)

abbrev pub updates : ℕ → Read Request
updates fuel = do word (text "UPDATE "); table ← read_identifier; with_assignments fuel table

unfoldable pub read_update : Read Request
unfolding read_identifier read_assignment read_items read_where
read_update s = updates (length s) s

abbrev pub deletes : Read Request
deletes = do word (text "DELETE FROM "); table ← read_identifier; read_where table none

unfoldable pub read_delete : Read Request
unfolding read_identifier read_where
read_delete = deletes

abbrev pub read_statement : Read Request
read_statement = or_else read_update read_delete

unfoldable pub read_request : Text → Option Request
unfolding read_update read_delete
read_request s = at_end (read_statement s)

pub read_request_lem :
    (s : Text) (r : Request) → Reads read_statement s r [] → read_request s ≡ some r
unfolding read_request
read_request_lem s r h = rw h
