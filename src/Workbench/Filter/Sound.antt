-- ===== src/Workbench/Filter/Sound.antt =====
-- What holds of every filter that is parsed, and of what is left of one when conditions are removed.
use tradar.Base.{
  ℕ, zero, suc, Bool, false, not, ◌&&◌, ◌||◌, List, [], ◌∷◌, ◌++◌, Option, none, some, ◌≡◌, ◌≢◌,
  refl, ap, ap₂, inl, inr, arith, Bool-cases, Option-cases, is_empty, any, all, get_elem?, All,
  All-append, join, Text, text, trim, take, position, eq_ignore_ascii_case,
}
use tradar.Workbench.Filter.{
  FilterCondition, column_named, ParsedFilter, bare_condition, scoped_or_bare, parse_condition,
  matches_cells, condition_matches_row, flush, push_group, parse_loop, parse, matches_row,
  matches_text, remove_at, keep_group, without, has,
}

-- The column that a condition is about is a column of the result, at its index.
abbrev pub Resolved : List Text → Option (Text × ℕ) → Type 0
Resolved columns none = Unit
Resolved columns (some (name, index)) = get_elem? columns index ≡ some name

module _ (fold : Text → Text) (columns : List Text) where
  pub record IsGood (c : FilterCondition) : Type 0 where
    pub resolved : Resolved columns c.column
    pub folded : c.value_lower ≡ fold c.value

  abbrev pub GoodGroup : List FilterCondition → Type 0
  GoodGroup group = (group ≢ []) × All IsGood group

  -- No group is empty, and every condition is good.
  abbrev pub WellFormed : ParsedFilter → Type 0
  WellFormed = All GoodGroup

later-Resolved :
    (c : Text) (columns : List Text) (o : Option (Text × ℕ))
    → Resolved columns o
    → Resolved (c ∷ columns) (elim o [ none ↦ none | some (d, i) ↦ some (d, suc i) ])
later-Resolved c columns none h = tt
later-Resolved c columns (some (d, i)) h = h

column_named-Resolved :
    (name : Text) (columns : List Text) → Resolved columns (column_named name columns)
unfolding column_named
column_named-Resolved name [] = tt
column_named-Resolved name (c ∷ cs) = elim (Bool-cases (eq_ignore_ascii_case c name)) [
  | inl h ↦ rw h refl
  | inr h ↦ rw h (later-Resolved c cs (column_named name cs) (column_named-Resolved name cs))
]

module _ (fold : Text → Text) (columns : List Text) where
  bare-IsGood : (raw : Text) → IsGood fold columns (bare_condition fold raw)
  bare-IsGood raw = record { resolved = tt; folded = refl }

  scoped_or_bare-IsGood :
      (raw right : Text) (o : Option (Text × ℕ))
      → Resolved columns o
      → IsGood fold columns (scoped_or_bare fold raw right o)
  scoped_or_bare-IsGood raw right none h = bare-IsGood raw
  scoped_or_bare-IsGood raw right (some c) h = record { resolved = h; folded = refl }

  parse_condition-IsGood : (raw : Text) → IsGood fold columns (parse_condition fold raw columns)
  unfolding parse_condition
  parse_condition-IsGood raw = elim (Option-cases (position b':' raw)) [
    | inl h ↦ rw (h, parse_condition) (bare-IsGood raw)
    | inr (i, h) ↦
        rw (h, parse_condition)
          (scoped_or_bare-IsGood raw _ _ (column_named-Resolved (trim (take i raw)) columns))
  ]

  flush-IsGood :
      (words : List Text) (group : List FilterCondition)
      → All (IsGood fold columns) group
      → All (IsGood fold columns) (flush fold columns words group)
  unfolding flush
  flush-IsGood [] group g = g
  flush-IsGood (w ∷ words) group g =
      All-append _ group _ g (parse_condition-IsGood (join (text " ") (w ∷ words)), tt)

  push_group-WellFormed :
      (groups : ParsedFilter) (group : List FilterCondition)
      → WellFormed fold columns groups
      → All (IsGood fold columns) group
      → WellFormed fold columns (push_group groups group)
  push_group-WellFormed groups [] h g = h
  push_group-WellFormed groups (c ∷ group) h g =
      All-append _ groups _ h ((λ e. ground (arith, e), g), tt)

  parse_loop-WellFormed :
      (words : List Text) (group : List FilterCondition) (groups : ParsedFilter) (ws : List Text)
      → All (IsGood fold columns) group
      → WellFormed fold columns groups
      → WellFormed fold columns (parse_loop fold columns words group groups ws)
  unfolding parse_loop
  parse_loop-WellFormed words group groups [] g h =
      push_group-WellFormed groups _ h (flush-IsGood words group g)
  parse_loop-WellFormed words group groups (w ∷ ws) g h =
      elim (Bool-cases (eq_ignore_ascii_case w (text "and") && not (is_empty words))) [
        | inl a ↦ rw a (parse_loop-WellFormed [] _ groups ws (flush-IsGood words group g) h)
        | inr a ↦ elim (Bool-cases (eq_ignore_ascii_case w (text "or") && not (is_empty words))) [
          | inl o ↦
              rw (a, o)
                (parse_loop-WellFormed [] [] _ ws tt
                  (push_group-WellFormed groups _ h (flush-IsGood words group g)))
          | inr o ↦ rw (a, o) (parse_loop-WellFormed (words ++ w ∷ []) group groups ws g h)
        ]
      ]

  -- In a parsed filter no group is empty, every condition that is about a column is about one that
  -- the result has, at its index, and the text that is searched for is the folded value.
  pub parse-WellFormed : (s : Text) → WellFormed fold columns (parse fold s columns)
  unfolding parse
  parse-WellFormed s = parse_loop-WellFormed [] [] [] _ tt tt

  remove_at-IsGood :
      (i : ℕ) (group : List FilterCondition)
      → All (IsGood fold columns) group
      → All (IsGood fold columns) (remove_at i group)
  remove_at-IsGood i [] g = tt
  remove_at-IsGood zero (c ∷ group) g = g.1
  remove_at-IsGood (suc i) (c ∷ group) g = (g.0, remove_at-IsGood i group g.1)

  keep_group-WellFormed :
      (group : List FilterCondition) (groups : ParsedFilter)
      → All (IsGood fold columns) group
      → WellFormed fold columns groups
      → WellFormed fold columns (keep_group group groups)
  keep_group-WellFormed [] groups g h = h
  keep_group-WellFormed (c ∷ group) groups g h = ((λ e. ground (arith, e), g), h)

  -- A filter in which no group is empty and every condition is good, as in a parsed one, remains
  -- so when a condition is removed, the last one of its group or not.
  pub without-WellFormed :
      (i j : ℕ) (f : ParsedFilter)
      → WellFormed fold columns f
      → WellFormed fold columns (without i j f)
  unfolding without
  without-WellFormed i j [] h = tt
  without-WellFormed zero j (group ∷ groups) h =
      keep_group-WellFormed _ groups (remove_at-IsGood j group h.0.1) h.1
  without-WellFormed (suc i) j (group ∷ groups) h = (h.0, without-WellFormed i j groups h.1)

any-alone : (b : Bool) → (b || false) ≡ b
any-alone b = ground arith

module _ (fold : Text → Text) (cell : Text) where
  bare-matches :
      (column : Option (Text × ℕ)) (needle : Text)
      → Resolved [] column
      → matches_cells fold column needle (cell ∷ []) ≡ has needle (fold cell)
  bare-matches none needle h = any-alone _
  bare-matches (some (name, i)) needle h = absurd (ground (arith, h))

  group-matches :
      (group : List FilterCondition)
      → All (IsGood fold []) group
      → all (condition_matches_row fold (cell ∷ [])) group
        ≡ all (λ (c : FilterCondition). has c.value_lower (fold cell)) group
  unfolding condition_matches_row
  group-matches [] h = refl
  group-matches (c ∷ group) h =
      ap₂ ◌&&◌ (bare-matches c.column c.value_lower h.0.resolved) (group-matches group h.1)

  groups-match :
      (f : ParsedFilter)
      → WellFormed fold [] f
      → any (all (condition_matches_row fold (cell ∷ []))) f
        ≡ any (all (λ (c : FilterCondition). has c.value_lower (fold cell))) f
  groups-match [] h = refl
  groups-match (group ∷ f) h = ap₂ ◌||◌ (group-matches group h.0.1) (groups-match f h.1)

  -- Without columns, as in the view of documents, a filter takes a document for the one cell of a
  -- row: the search through its text and the search through that row agree.
  pub matches_row-matches_text :
      (s : Text)
      → matches_row fold (parse fold s []) (cell ∷ []) ≡ matches_text (parse fold s []) (fold cell)
  unfolding matches_row matches_text
  matches_row-matches_text s =
      ap (λ b. is_empty (parse fold s []) || b) (groups-match _ (parse-WellFormed fold [] s))
