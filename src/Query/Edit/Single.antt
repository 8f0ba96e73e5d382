-- ===== src/Query/Edit/Single.antt =====
-- A statement that `build_sql_edit` or `build_sql_insert` makes of a table, columns and values is one
-- statement to `split_sql_statements`, whatever the names and values hold.
use tradar.Base.{
  ℕ, Bool, true, false, List, [], ◌∷◌, ◌++◌, map, ◌≡◌, refl, inl, inr, Bool-cases, all, Text, text,
  eq, join, trim,
}
use tradar.Query.Statements.{next_is, Statement, split_sql_statements}
use tradar.Query.Statements.Inert.{
  Passes, Passes-append, Passes-nil, Passes-plain, Passes-enclosed, is_plain, split_single,
}
use tradar.Query.Edit.{
  Pair, RowChange, set_value, set_values, delete_row, RowEdit, enclosed, quote_identifier,
  sql_literal, key_condition, assignment, change_sql, build_sql_edit, build_sql_insert,
}

abbrev Unquoted : Text → Type 0
Unquoted rest = (next_is b'\'' rest ≡ false) × (next_is b'"' rest ≡ false)

module _ (alnum : ℕ → Bool) where
  -- The splitter passes over `t` in front of everything but a quote.
  abbrev Safe : Text → Type 0
  Safe t = (rest : Text) → Unquoted rest → Passes alnum t rest

  -- Plain characters stand in front of anything.
  then_plain : (t u : Text) → all is_plain t ≡ true → Safe u → Safe (t ++ u)
  then_plain t u p s rest q =
      Passes-append alnum t u rest (Passes-plain alnum t (u ++ rest) p) (s rest q)

  -- What follows a quoted piece begins with a character that is no quote.
  then-Safe :
      (t : Text) (c : ℕ) (u : Text) → Safe t → Unquoted (c ∷ []) → Safe (c ∷ u) → Safe (t ++ c ∷ u)
  then-Safe t c u s n r rest q =
      Passes-append alnum t (c ∷ u) rest (s (c ∷ (u ++ rest)) n) (r rest q)

  then_where :
      (t where_clause : Text)
      → Safe t
      → Safe where_clause
      → Safe (t ++ (text " WHERE " ++ where_clause))
  then_where t where_clause s w =
      then-Safe t b' ' _ s (refl, refl) (then_plain (text " WHERE ") _ refl w)

  Safe-nil : Safe []
  Safe-nil rest q = Passes-nil alnum rest

  Safe-plain : (t : Text) → all is_plain t ≡ true → Safe t
  Safe-plain t p rest q = Passes-plain alnum t rest p

  Safe-join-map {ℓ} :
      {A : Type ℓ} (f : A → Text) (c : ℕ) (sep : Text) (xs : List A)
      → ((x : A) → Safe (f x))
      → Unquoted (c ∷ [])
      → all is_plain (c ∷ sep) ≡ true
      → Safe (join (c ∷ sep) (map f xs))
  unfolding join
  Safe-join-map f c sep [] h n p = Safe-nil
  Safe-join-map f c sep (x ∷ []) h n p = h x
  Safe-join-map f c sep (x ∷ y ∷ xs) h n p =
      then-Safe (f x) c (sep ++ join (c ∷ sep) (map f (y ∷ xs))) (h x) n
        (then_plain (c ∷ sep) _ p (Safe-join-map f c sep (y ∷ xs) h n p))

  quote_identifier-Safe : (name : Text) → Safe (quote_identifier name)
  unfolding quote_identifier
  quote_identifier-Safe name =
      Safe-join-map (enclosed b'"') b'.' [] _
        (λ part rest q. Passes-enclosed alnum b'"' part rest (inr refl) q.1) (refl, refl) refl

  sql_literal-Safe : (value : Text) → Safe (sql_literal value)
  unfolding sql_literal
  sql_literal-Safe value = elim (Bool-cases (eq value (text "NULL"))) [
    | inl e ↦ rw e (Safe-plain (text "NULL") refl)
    | inr e ↦ rw e (λ rest q. Passes-enclosed alnum b'\'' value rest (inl refl) q.0)
  ]

  assignment-Safe : (p : Pair) → Safe (assignment p)
  unfolding assignment
  assignment-Safe (column, value) =
      then-Safe (quote_identifier column) b' ' _ (quote_identifier-Safe column) (refl, refl)
        (then_plain (text " = ") _ refl (sql_literal-Safe value))

  key_condition-Safe : (p : Pair) → Safe (key_condition p)
  unfolding key_condition
  key_condition-Safe (column, value) = elim (Bool-cases (eq value (text "NULL"))) [
    | inl e ↦ rw e (
        then-Safe (quote_identifier column) b' ' _ (quote_identifier-Safe column) (refl, refl)
          (Safe-plain (text " IS NULL") refl))
    | inr e ↦ rw e (
        then-Safe (quote_identifier column) b' ' _ (quote_identifier-Safe column) (refl, refl)
          (then_plain (text " = ") _ refl (sql_literal-Safe value)))
  ]

  change_sql-Safe :
      (table where_clause : Text) (change : RowChange)
      → Safe table
      → Safe where_clause
      → Safe (change_sql table where_clause change)
  unfolding change_sql
  change_sql-Safe table where_clause (set_value column value) t w =
      then_plain (text "UPDATE ") _ refl (
        then-Safe table b' ' _ t (refl, refl)
          (then_plain (text " SET ") _ refl (
            then-Safe (quote_identifier column) b' ' _ (quote_identifier-Safe column) (refl, refl)
              (then_plain (text " = ") _ refl
                (then_where (sql_literal value) where_clause (sql_literal-Safe value) w)))))
  change_sql-Safe table where_clause (set_values pairs) t w = then_plain (text "UPDATE ") _ refl (
      then-Safe table b' ' _ t (refl, refl)
        (then_plain (text " SET ") _ refl (
          then_where (join (text ", ") (map assignment pairs)) where_clause
            (Safe-join-map assignment b',' (text " ") pairs assignment-Safe (refl, refl) refl) w)))
  change_sql-Safe table where_clause delete_row t w =
      then_plain (text "DELETE FROM ") _ refl (then_where table where_clause t w)

  build_sql_edit-Safe : (edit : RowEdit) → Safe (build_sql_edit edit)
  unfolding build_sql_edit
  build_sql_edit-Safe edit =
      change_sql-Safe _ _ edit.change (quote_identifier-Safe edit.table) (
        Safe-join-map key_condition b' ' (text "AND ") edit.key key_condition-Safe (refl, refl)
          refl)

  build_sql_insert-Safe : (table : Text) (values : List Pair) → Safe (build_sql_insert table values)
  unfolding build_sql_insert
  build_sql_insert-Safe table values = then_plain (text "INSERT INTO ") _ refl (
      then-Safe (quote_identifier table) b' ' _ (quote_identifier-Safe table) (refl, refl)
        (then_plain (text " (") _ refl (
          then-Safe (join (text ", ") (map (λ p. quote_identifier p.0) values)) b')' _
            (Safe-join-map (λ (p : Pair). quote_identifier p.0) b',' (text " ") values
              (λ p. quote_identifier-Safe p.0) (refl, refl) refl)
            (refl, refl)
            (then_plain (text ") VALUES (") _ refl (
              then-Safe (join (text ", ") (map (λ p. sql_literal p.1) values)) b')' []
                (Safe-join-map (λ (p : Pair). sql_literal p.1) b',' (text " ") values
                  (λ p. sql_literal-Safe p.1) (refl, refl) refl)
                (refl, refl) (Safe-plain (text ")") refl))))))

abbrev pub texts : List Statement → List Text
texts = map (λ (s : Statement). s.text)

split-change_sql :
    (alnum : ℕ → Bool) (table where_clause : Text) (change : RowChange)
    → Passes alnum (change_sql table where_clause change) []
    → texts (split_sql_statements alnum (change_sql table where_clause change))
      ≡ trim (change_sql table where_clause change) ∷ []
unfolding change_sql
split-change_sql alnum table where_clause (set_value column value) h =
    split_single alnum b'U' _ refl h
split-change_sql alnum table where_clause (set_values pairs) h = split_single alnum b'U' _ refl h
split-change_sql alnum table where_clause delete_row h = split_single alnum b'D' _ refl h

-- An edit of a row is one statement, whatever the table, the columns and the values hold.
pub split-build_sql_edit :
    (alnum : ℕ → Bool) (edit : RowEdit)
    → texts (split_sql_statements alnum (build_sql_edit edit)) ≡ trim (build_sql_edit edit) ∷ []
unfolding build_sql_edit
split-build_sql_edit alnum edit =
    split-change_sql alnum _ _ edit.change (build_sql_edit-Safe alnum edit [] (refl, refl))

-- So is the insertion of a row.
pub split-build_sql_insert :
    (alnum : ℕ → Bool) (table : Text) (values : List Pair)
    → texts (split_sql_statements alnum (build_sql_insert table values))
      ≡ trim (build_sql_insert table values) ∷ []
split-build_sql_insert alnum table values =
    let safe = build_sql_insert-Safe alnum table values [] (refl, refl) in
    unfold build_sql_insert in split_single alnum b'I' _ refl safe
