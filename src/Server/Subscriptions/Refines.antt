-- ===== src/Server/Subscriptions/Refines.antt =====
-- The two maps are one table of subscriptions in the order in which they began.
pub mod Run
use tradar.Base.{
  ℕ, Bool, true, false, not, ◌||◌, List, [], ◌∷◌, ◌++◌, map, map-append, Option, none, some, ◌≡◌,
  refl, sym, ap, ◌∙◌, inl, inr, arith, ◌==◌, ==_iff, if◌then◌else◌, Bool-cases, Option-cases,
  filter, All, Text, eq, eq_iff, eq_refl,
}
use tradar.Base.Map.{
  lookup, insert, remove, lookup-insert, lookup-remove, contains, Distinct, contains-append,
}
use tradar.Server.Subscriptions.{
  ids, clients, Entry, Subscriptions, new, or_empty, handle_of, forgetting, subscribe, unsubscribe,
  keep_handle, remove_client,
}
use tradar.Server.Subscriptions.Ownership.{
  owned, owns, Inv, new-Inv, subscribe-Inv, unsubscribe-Inv, handles, remove_client_lem,
}

-- The table.
abbrev pub Table : Type 0 → Type 0 → Type 0
Table H M = List (Text × Entry H M)

module _ {H M : Type 0} where
  abbrev pub of_client : ℕ → Text × Entry H M → Bool
  of_client c row = row.1.client == c

  abbrev pub names : Table H M → List Text
  names = map (λ row. row.0)

  abbrev pub begin_row : Text → ℕ → M → H → Table H M → Table H M
  begin_row id client meta handle l =
      l ++ (id, record { client = client; meta = meta; handle = handle }) ∷ []

  abbrev pub leave_rows : ℕ → Table H M → Table H M
  leave_rows c = filter (λ row. not (of_client c row))

  pub record Refines (s : Subscriptions H M) (l : Table H M) : Type 0 where
    pub inv : Inv s
    pub entries_are : (id : Text) → lookup ids id s.entries ≡ lookup ids id l
    pub owned_are : (c : ℕ) → owned s c ≡ names (filter (of_client c) l)
    pub once : Distinct ids (names l)

  pub lookup-append :
      (j id : Text) (e : Entry H M) (l : Table H M)
      → lookup ids id l ≡ none
      → lookup ids j (l ++ (id, e) ∷ []) ≡ (if eq id j then some e else lookup ids j l)
  unfolding lookup
  lookup-append j id e [] h = refl
  lookup-append j id e ((i, f) ∷ l) h =
      ground (arith, lookup-append j id e l, eq_iff i id, eq_iff i j, eq_iff id j)

  pub filter-append :
      (p : Text × Entry H M → Bool) (l : Table H M) (row : Text × Entry H M)
      → names (filter p (l ++ row ∷ []))
        ≡ (if p row then names (filter p l) ++ row.0 ∷ [] else names (filter p l))
  filter-append p [] row = ground arith
  filter-append p (r ∷ l) row = ground (arith, filter-append p l row)

  pub unlisted :
      (id : Text) (l : Table H M) → lookup ids id l ≡ none → contains ids id (names l) ≡ false
  unfolding lookup contains
  unlisted id [] h = refl
  unlisted id ((i, e) ∷ l) h = ground (arith, unlisted id l, h)

  pub names-filter_out :
      (id : Text) (p : Text × Entry H M → Bool) (l : Table H M)
      → names (filter p (remove ids id l)) ≡ filter (λ x. not (eq x id)) (names (filter p l))
  unfolding remove
  names-filter_out id p [] = refl
  names-filter_out id p ((i, e) ∷ l) = ground (arith, names-filter_out id p l)

  pub names-remove :
      (id : Text) (l : Table H M) → names (remove ids id l) ≡ filter (λ x. not (eq x id)) (names l)
  unfolding remove
  names-remove id [] = refl
  names-remove id ((i, e) ∷ l) = ground (arith, names-remove id l)

  pub remove-unlisted : (id : Text) (l : Table H M) → lookup ids id l ≡ none → remove ids id l ≡ l
  unfolding lookup remove
  remove-unlisted id [] h = refl
  remove-unlisted id ((i, e) ∷ l) h = ground (arith, remove-unlisted id l, h)

  pub absent :
      (i j : Text) (l : Table H M)
      → eq i j ≡ true
      → contains ids i (names l) ≡ false
      → lookup ids j l ≡ none
  unfolding lookup contains
  absent i j [] h n = refl
  absent i j ((k, e) ∷ l) h n =
      ground (arith, absent i j l, eq_iff i j, eq_iff k j, eq_iff k i, h, n)

  pub lookup-leave_rows :
      (c : ℕ) (j : Text) (l : Table H M)
      → Distinct ids (names l)
      → lookup ids j (leave_rows c l) ≡ (if owns c (lookup ids j l) then none else lookup ids j l)
  unfolding lookup
  lookup-leave_rows c j [] d = refl
  lookup-leave_rows c j ((i, e) ∷ l) d = ground (arith, lookup-leave_rows c j l, absent i j l, d)

  pub of_client-leave_rows :
      (c k : ℕ) (l : Table H M)
      → names (filter (of_client k) (leave_rows c l))
        ≡ (if c == k then [] else names (filter (of_client k) l))
  of_client-leave_rows c k [] = ground arith
  of_client-leave_rows c k ((i, e) ∷ l) = ground (arith, of_client-leave_rows c k l)

  names-leave_rows :
      (c : ℕ) (i : Text) (l : Table H M)
      → contains ids i (names l) ≡ false
      → contains ids i (names (leave_rows c l)) ≡ false
  unfolding contains
  names-leave_rows c i [] h = refl
  names-leave_rows c i ((k, e) ∷ l) h = ground (arith, names-leave_rows c i l, h)

  pub Distinct-leave_rows :
      (c : ℕ) (l : Table H M) → Distinct ids (names l) → Distinct ids (names (leave_rows c l))
  Distinct-leave_rows c [] d = tt
  Distinct-leave_rows c ((i, e) ∷ l) d =
      ground (arith, Distinct-leave_rows c l d.1, names-leave_rows c i l d.0)

  -- The handles of rows that the entries agree with.
  pub handles-rows :
      (c : ℕ) (m l : Table H M)
      → All (λ row. lookup ids row.0 m ≡ some row.1) l
      → handles (names (filter (of_client c) l)) m
        ≡ map (λ row. row.1.handle) (filter (of_client c) l)
  handles-rows c m [] a = refl
  handles-rows c m ((i, e) ∷ l) a = elim (Bool-cases (e.client == c)) [
    | inl h ↦ rw (h, a.0) (ap (◌∷◌ e.handle) (handles-rows c m l a.1))
    | inr h ↦ rw h (handles-rows c m l a.1)
  ]

  rows_behind :
      (i : Text) (e : Entry H M) (m l : Table H M)
      → contains ids i (names l) ≡ false
      → All (λ row. lookup ids row.0 m ≡ some row.1) l
      → All (λ row. lookup ids row.0 ((i, e) ∷ m) ≡ some row.1) l
  unfolding lookup contains
  rows_behind i e m [] n a = tt
  rows_behind i e m ((k, f) ∷ l) n a =
      let other : eq i k ≡ false = ground (arith, eq_iff i k, eq_iff k i, n) in
      (rw other a.0, rows_behind i e m l (ground (arith, n)) a.1)

  pub rows_listed :
      (l : Table H M) → Distinct ids (names l) → All (λ row. lookup ids row.0 l ≡ some row.1) l
  unfolding lookup contains
  rows_listed [] d = tt
  rows_listed ((i, e) ∷ l) d = (rw (eq_refl i), rows_behind i e l l d.0 (rows_listed l d.1))
