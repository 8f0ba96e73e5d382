-- ===== src/Query/Edit/Requests.antt =====
-- The whole statement of an edit, read back.
use tradar.Base.{
  split-cons, ℕ, zero, suc, ◌<◌, true, List, [], ◌∷◌, ◌++◌, map, Option, none, some, ◌≡◌, refl, inl,
  inr, arith, ◌==◌, Bool-cases, Text, text, strip_prefix, length, length-append, join, append_assoc,
  append-nil, eq, ◌≢◌, ap,
}
use tradar.Query.Statements.{next_is}
use tradar.Query.Edit.{
  Pair, RowChange, set_value, set_values, delete_row, RowEdit, enclosed, quote_identifier,
  sql_literal, key_condition, assignment, change_sql, build_sql_edit,
}
use tradar.Query.Edit.Reader.{
  Cell, Read, Reads, Reads-bind, bind-none, Reads-first, Reads-second, Reads-word, Reads-pure,
  next_items, and_items, word-none, word, pure, ◌>>=◌, read_identifier, read_assignment,
  read_condition, read_items, Request, read_where, read_update, read_delete, read_request,
  requested, with_key, with_assignments, updates, deletes, read_statement, read_request_lem,
}
use tradar.Query.Edit.ReadBack.{
  IsEnd, IsEnd_blank, read_identifier-quote_identifier, read_assignment-assignment, parts_of,
  cell_of, read_condition-key_condition, join_one, join_more, length-join-map,
}

read_items_step :
    (fuel : ℕ) (sep : Text) (item : Read Cell) (s : Text) (a : List Cell) (rest : Text)
    → Reads (item >>= and_items sep (read_items fuel sep item)) s a rest
    → Reads (read_items (suc fuel) sep item) s a rest
unfolding read_items
read_items_step fuel sep item s a rest k = k

-- The pieces of a list, each read back by `item`, are read back as the list.
module _ (f : Pair → Text) (item : Read Cell) (sep : Text)
    (reads : (p : Pair) (rest : Text) → IsEnd rest → Reads item (f p ++ rest) (cell_of p) rest)
    (sep-IsEnd : (rest : Text) → IsEnd (sep ++ rest)) where
  read_items-join :
      (fuel : ℕ) (p : Pair) (ps : List Pair) (rest : Text)
      → length ps < fuel
      → IsEnd rest
      → word sep rest ≡ none
      → Reads
          (read_items fuel sep item)
          (join sep (map f (p ∷ ps)) ++ rest)
          (map cell_of (p ∷ ps))
          rest
  read_items-join zero p ps rest h e n = elim h [ ]
  read_items-join (suc fuel) p [] rest h e n = rw (join_one sep (f p)) (
      read_items_step fuel sep item _ _ rest (
        Reads-bind item (and_items sep (read_items fuel sep item)) (reads p rest e) (
          Reads-second (next_items sep (read_items fuel sep item) (cell_of p))
            (pure (cell_of p ∷ [])) (bind-none (word sep) _ n) (Reads-pure (cell_of p ∷ []) rest))))
  read_items-join (suc fuel) p (q ∷ ps) rest h e n =
      let more = join sep (map f (q ∷ ps)) in
      let ih = read_items-join fuel q ps rest (omega arith) e n in
      rw
        (
          join_more sep (f p) (f q) (map f ps),
          append_assoc (f p) (sep ++ more) rest,
          append_assoc sep more rest,
        )
        (read_items_step fuel sep item _ _ rest (
          Reads-bind item (and_items sep (read_items fuel sep item))
            (reads p (sep ++ (more ++ rest)) (sep-IsEnd (more ++ rest)))
            (Reads-first (next_items sep (read_items fuel sep item) (cell_of p))
              (pure (cell_of p ∷ []))
              (Reads-bind (word sep) _ (Reads-word sep (more ++ rest)) (
                Reads-bind (read_items fuel sep item) _ ih
                  (Reads-pure (map cell_of (p ∷ q ∷ ps)) rest))))))

  read_items_all :
      (fuel : ℕ) (ps : List Pair) (rest : Text)
      → ps ≢ []
      → length ps < fuel
      → IsEnd rest
      → word sep rest ≡ none
      → Reads (read_items fuel sep item) (join sep (map f ps) ++ rest) (map cell_of ps) rest
  read_items_all fuel [] rest m h e n = absurd (m refl)
  read_items_all fuel (p ∷ ps) rest m h e n = read_items-join fuel p ps rest (omega arith) e n

enclosed_begins :
    (ts : List Text) (t rest : Text)
    → next_is b'"' (join (text ".") (map (enclosed b'"') (t ∷ ts)) ++ rest) ≡ true
unfolding join
enclosed_begins [] t rest = refl
enclosed_begins (u ∷ ts) t rest = refl

quote_identifier_begins : (name rest : Text) → next_is b'"' (quote_identifier name ++ rest) ≡ true
unfolding quote_identifier
quote_identifier_begins name rest =
    let (w, ws, h) = split-cons (λ c. c == b'.') name in rw h (enclosed_begins ws w rest)

assignment_begins : (p : Pair) (rest : Text) → next_is b'"' (assignment p ++ rest) ≡ true
unfolding assignment
assignment_begins (column, value) rest =
    rw (append_assoc (quote_identifier column) (text " = " ++ sql_literal value) rest)
      (quote_identifier_begins column _)

key_condition_begins : (p : Pair) (rest : Text) → next_is b'"' (key_condition p ++ rest) ≡ true
unfolding key_condition
key_condition_begins (column, value) rest = elim (Bool-cases (eq value (text "NULL"))) [
  | inl n ↦ rw n (
      rw (append_assoc (quote_identifier column) (text " IS NULL") rest)
        (quote_identifier_begins column _))
  | inr n ↦ rw n (
      rw (append_assoc (quote_identifier column) (text " = " ++ sql_literal value) rest)
        (quote_identifier_begins column _))
]

IsEnd-nil : IsEnd []
IsEnd-nil = record { no_quote = refl; no_name = refl; no_dot = refl }

begins-pos : (t : Text) → next_is b'"' (t ++ []) ≡ true → 0 < length t
begins-pos [] h = cc
begins-pos (c ∷ t) h = omega arith

-- The key's conditions, at the end of every statement.
where_sql : List Pair → Text
where_sql key = join (text " AND ") (map key_condition key)

read_where_step :
    (table : List Text) (assigned : Option (List Cell)) (s : Text) (r : Request) (rest : Text)
    → Reads (with_key (length s) table assigned) s r rest
    → Reads (read_where table assigned) s r rest
unfolding read_where
read_where_step table assigned s r rest h = h

read_update_step :
    (s : Text) (r : Request) (rest : Text)
    → Reads (updates (length s)) s r rest
    → Reads read_update s r rest
unfolding read_update
read_update_step s r rest h = h

read_delete_step :
    (s : Text) (r : Request) (rest : Text) → Reads deletes s r rest → Reads read_delete s r rest
unfolding read_delete
read_delete_step s r rest h = h

IsEnd_comma : (t : Text) → IsEnd (b',' ∷ t)
IsEnd_comma t = record { no_quote = refl; no_name = refl; no_dot = refl }

no_update : (t : Text) → read_update (text "DELETE" ++ t) ≡ none
unfolding read_update strip_prefix word ◌>>=◌
no_update t = refl

read_where-Reads :
    (table : List Text) (assigned : Option (List Cell)) (key : List Pair)
    → key ≢ []
    → Reads
        (read_where table assigned)
        (text " WHERE " ++ where_sql key)
        (requested table assigned (map cell_of key))
        []
unfolding where_sql
read_where-Reads table assigned key m =
    let conditions = join (text " AND ") (map key_condition key) in
    let fuel =
      length-join-map key_condition (text " AND ") key
        (λ p. begins-pos (key_condition p) (key_condition_begins p [])) in
    let read =
      read_items_all key_condition read_condition (text " AND ") read_condition-key_condition
        (λ rest. IsEnd_blank _) (length (text " WHERE " ++ conditions)) key [] m (omega arith)
        IsEnd-nil (word-none (text " AND ") [] (unfold strip_prefix in refl)) in
    read_where_step table assigned (text " WHERE " ++ conditions) _ [] (
      Reads-bind (word (text " WHERE ")) _ (Reads-word (text " WHERE ") conditions) (
        Reads-bind
          (read_items (length (text " WHERE " ++ conditions)) (text " AND ") read_condition)
          (λ k. pure (requested table assigned k)) (rw append-nil at read)
          (Reads-pure (requested table assigned (map cell_of key)) [])))

read_delete-Reads :
    (table : Text) (key : List Pair)
    → key ≢ []
    → Reads read_delete
        (text "DELETE FROM " ++ (quote_identifier table ++ (text " WHERE " ++ where_sql key)))
        (requested (parts_of table) none (map cell_of key))
        []
read_delete-Reads table key m = read_delete_step _ _ [] (
    Reads-bind (word (text "DELETE FROM ")) _ (Reads-word (text "DELETE FROM ") _) (
      Reads-bind read_identifier (λ t. read_where t none)
        (read_identifier-quote_identifier table _ (IsEnd_blank _))
        (read_where-Reads (parts_of table) none key m)))

read_update-Reads :
    (table : Text) (pairs key : List Pair)
    → pairs ≢ []
    → key ≢ []
    → Reads read_update
        (text "UPDATE "
          ++ (quote_identifier table
              ++ (text " SET "
                  ++ (join (text ", ") (map assignment pairs)
                      ++ (text " WHERE " ++ where_sql key)))))
        (requested (parts_of table) (some (map cell_of pairs)) (map cell_of key))
        []
read_update-Reads table pairs key l m =
    let tail = text " WHERE " ++ where_sql key in
    let assignments = join (text ", ") (map assignment pairs) in
    let sql =
      text "UPDATE " ++ (quote_identifier table ++ (text " SET " ++ (assignments ++ tail))) in
    let few =
      length-join-map assignment (text ", ") pairs
        (λ p. begins-pos (assignment p) (assignment_begins p [])) in
    let enough : length pairs < length sql = omega (
      arith,
      length-append (quote_identifier table) (text " SET " ++ (assignments ++ tail)),
      length-append assignments tail,
    ) in
    read_update_step sql _ [] (
      Reads-bind (word (text "UPDATE ")) _ (Reads-word (text "UPDATE ") _) (
        Reads-bind read_identifier (with_assignments (length sql))
          (read_identifier-quote_identifier table _ (IsEnd_blank _))
          (Reads-bind (word (text " SET ")) _ (Reads-word (text " SET ") (assignments ++ tail)) (
            Reads-bind (read_items (length sql) (text ", ") read_assignment)
              (λ ps. read_where (parts_of table) (some ps))
              (read_items_all assignment read_assignment (text ", ") read_assignment-assignment
                (λ rest. IsEnd_comma _) (length sql) pairs tail l enough (IsEnd_blank _)
                (word-none (text ", ") tail (unfold strip_prefix in refl)))
              (read_where-Reads (parts_of table) (some (map cell_of pairs)) key m)))))

-- What an edit asks for.
abbrev pub assigned : RowChange → Option (List Cell)
assigned (set_value column value) = some (cell_of (column, value) ∷ [])
assigned (set_values pairs) = some (map cell_of pairs)
assigned delete_row = none

abbrev pub change_request : RowEdit → Request
change_request edit = requested (parts_of edit.table) (assigned edit.change) (map cell_of edit.key)

assignment-append :
    (column value t : Text)
    → assignment (column, value) ++ t
      ≡ quote_identifier column ++ (text " = " ++ (sql_literal value ++ t))
unfolding assignment
assignment-append column value t =
    append_assoc (quote_identifier column) (text " = " ++ sql_literal value) t

read_change :
    (table : Text) (key : List Pair) (change : RowChange)
    → key ≢ []
    → change ≢ set_values []
    → Reads read_statement
        (change_sql (quote_identifier table) (where_sql key) change)
        (requested (parts_of table) (assigned change) (map cell_of key))
        []
unfolding change_sql
read_change table key (set_value column value) m n = Reads-first read_update read_delete (
    rw
      (
        join_one (text ", ") (assignment (column, value)),
        assignment-append column value (text " WHERE " ++ where_sql key),
      )
      at (read_update-Reads table ((column, value) ∷ []) key (λ e. cc) m))
read_change table key (set_values pairs) m n =
    Reads-first read_update read_delete
      (read_update-Reads table pairs key (λ e. n (ap set_values e)) m)
read_change table key delete_row m n =
    Reads-second read_update read_delete (no_update _) (read_delete-Reads table key m)

-- A reader that goes by SQL's rules for quoted names, strings and NULL finds in the statement of an
-- edit the edit's table, columns, values and key, and nothing else, whatever characters they hold,
-- if the key has a column and the edit does not set a list of no cells. Each name is read as its parts
-- between dots; a value that is NULL in the grid is NULL in the assignment, and IS NULL in the key.
pub read_request-build_sql_edit :
    (edit : RowEdit)
    → edit.key ≢ []
    → edit.change ≢ set_values []
    → read_request (build_sql_edit edit) ≡ some (change_request edit)
unfolding build_sql_edit where_sql
read_request-build_sql_edit edit m n =
    read_request_lem _ _ (read_change edit.table edit.key edit.change m n)
