-- ===== src/Query/Source/Names.antt =====
-- Names of tables, with and without the schema in front.
use tradar.Base.{
  ℕ, ◌+◌, ◌≤◌, Bool, true, false, not, ◌&&◌, ◌||◌, List, [], ◌∷◌, ◌++◌, Option, none, some, ◌≡◌,
  ◌≢◌, subst, ◌⊎◌, refl, sym, ap, ◌∙◌, inl, inr, arith, if◌then◌else◌, Bool-cases, Option-cases,
  any, All, length, length-append, take, take-length-append, ltb, ◌==◌, Text, text, eq, eq_iff,
  eq_refl, lower, split, split-cons, map, eq_ignore_ascii_case,
}
use tradar.Query.Schema.{SchemaInfo}
use tradar.Query.Source.{
  last_of, last_segment, same_table, times, in_schema, qualified, qualify_colliding_names,
}

abbrev pub is_dot : ℕ → Bool
is_dot c = c == b'.'

split-dotless : (name : Text) → any is_dot name ≡ false → split is_dot name ≡ name ∷ []
unfolding split
split-dotless [] h = refl
split-dotless (c ∷ cs) h =
    let (h1, h2) : (is_dot c ≡ false) × (any is_dot cs ≡ false) =
      (ground (arith, h), ground (arith, h)) in
    rw (h1, split-dotless cs h2)

-- A dotless name behind the last dot is the last piece.
split-append :
    (schema name : Text)
    → any is_dot name ≡ false
    → split is_dot (schema ++ b'.' ∷ name) ≡ split is_dot schema ++ name ∷ []
unfolding split
split-append [] name h = ap (◌∷◌ []) (split-dotless name h)
split-append (c ∷ cs) name h =
    let (w, ws, e) = split-cons is_dot cs in rw (split-append cs name h, e) (ground arith)

last_of-append : (d name : Text) (pieces : List Text) → last_of d (pieces ++ name ∷ []) ≡ name
last_of-append d name [] = refl
last_of-append d name (p ∷ ps) = last_of-append p name ps

last_segment-append :
    (schema name : Text) → any is_dot name ≡ false → last_segment (schema ++ b'.' ∷ name) ≡ name
unfolding last_segment
last_segment-append schema name h =
    rw (split-append schema name h) (last_of-append _ name (split is_dot schema))

last_segment-dotless : (name : Text) → any is_dot name ≡ false → last_segment name ≡ name
unfolding last_segment
last_segment-dotless name h = rw (split-dotless name h)

eq_comm : (s t : Text) → eq s t ≡ eq t s
eq_comm s t = ground (arith, eq_iff s t, eq_iff t s)

-- To `same_table` it makes no difference which of the two names is the query's.
pub same_table_comm : (a b : Text) → same_table a b ≡ same_table b a
unfolding same_table
same_table_comm a b = ground (
  arith,
  eq_comm (lower a) (lower b),
  eq_comm (lower (last_segment a)) (lower b),
  eq_comm (lower (last_segment b)) (lower a),
)

any_dot-lower : (s : Text) → any is_dot (lower s) ≡ any is_dot s
unfolding tradar.Base.to_ascii_lowercase
any_dot-lower [] = refl
any_dot-lower (c ∷ cs) = ground (arith, any_dot-lower cs)

any_dot-append : (s t : Text) → any is_dot (s ++ b'.' ∷ t) ≡ true
any_dot-append [] t = refl
any_dot-append (c ∷ cs) t = ground (arith, any_dot-append cs t)

-- A name with a schema is not one without.
dotted-ne :
    (schema name bare : Text)
    → any is_dot bare ≡ false
    → eq_ignore_ascii_case bare (schema ++ b'.' ∷ name) ≡ false
dotted-ne schema name bare h =
    elim (Bool-cases (eq_ignore_ascii_case bare (schema ++ b'.' ∷ name))) [
      | inl e ↦
          let same = ap (any is_dot) ((eq_iff _ _).0 e) in
          absurd (
            ground (
              arith,
              same,
              any_dot-lower bare,
              any_dot-lower (schema ++ b'.' ∷ name),
              any_dot-append schema name,
              h,
            ))
      | inr e ↦ e
    ]

module _ (schema name : Text) (plain : any is_dot name ≡ false) where
  -- A name with a schema and a bare one name the same table if they agree but for the schema and the
  -- case of letters; two names that both have one must agree in it, too.
  pub same_table-qualified :
      (bare other : Text)
      → any is_dot bare ≡ false
      → (same_table (schema ++ b'.' ∷ name) bare ≡ eq_ignore_ascii_case name bare)
        × (same_table (schema ++ b'.' ∷ name) (other ++ b'.' ∷ bare)
            ≡ eq_ignore_ascii_case (schema ++ b'.' ∷ name) (other ++ b'.' ∷ bare))
  unfolding same_table
  same_table-qualified bare other h =
      let own = last_segment-append schema name plain in
      let others = last_segment-append other bare h in
      let bare_ne =
        sym (eq_comm (lower bare) (lower (schema ++ b'.' ∷ name))) ∙ dotted-ne schema name bare h in
      (
        rw (own, last_segment-dotless bare h) (ground (arith, bare_ne)),
        rw (own, others) (ground (arith, dotted-ne other bare name plain, bare_ne)),
      )

-- Every two entries, in the list's order.
abbrev pub Pairs : {A : Type 0} → (A → A → Type 0) → List A → Type 0
Pairs R [] = Unit
Pairs R (x ∷ xs) = All (R x) xs × Pairs R xs

abbrev pub SameEntry : SchemaInfo → SchemaInfo → Type 0
SameEntry a b = (a.schema ≡ b.schema) × (a.name ≡ b.name)

abbrev pub Plain : SchemaInfo → Type 0
Plain e = any is_dot e.name ≡ false

-- What `qualified` makes of a name.
data Name (all : List SchemaInfo) (e : SchemaInfo) : Text → Type 0 where
  bare : (2 ≤ times e.name all → e.schema ≡ none) → Name all e e.name
  dotted : {schema : Text} → e.schema ≡ some schema → Name all e (schema ++ b'.' ∷ e.name)

in_schema-Name :
    (all : List SchemaInfo) (e : SchemaInfo) (schema : Option Text)
    → e.schema ≡ schema
    → Name all e (in_schema schema e).name
in_schema-Name all e none h = bare (λ m. h)
in_schema-Name all e (some schema) h = dotted h

qualified-Name : (all : List SchemaInfo) (e : SchemaInfo) → Name all e (qualified all e).name
unfolding qualified
qualified-Name all e = elim (Bool-cases (ltb 1 (times e.name all))) [
  | inl h ↦ rw h (in_schema-Name all e e.schema refl)
  | inr h ↦ rw h (bare (λ m. absurd (ground (arith, h, m))))
]

dotted-injective :
    (s t m n : Text)
    → any is_dot m ≡ false
    → any is_dot n ≡ false
    → (s ++ b'.' ∷ m ≡ t ++ b'.' ∷ n)
    → (s ≡ t) × (m ≡ n)
dotted-injective s t m n h k e =
    let same = sym (last_segment-append s m h) ∙ ap last_segment e ∙ last_segment-append t n k in
    let lens : length s ≡ length t = omega (
      arith,
      ap length e,
      ap length same,
      length-append s (b'.' ∷ m),
      length-append t (b'.' ∷ n),
    ) in
    (
      sym (take-length-append s (b'.' ∷ m))
          ∙ ap (take (length s)) e
          ∙ ap (λ l. take l (t ++ b'.' ∷ n)) lens
          ∙ take-length-append t (b'.' ∷ n),
      same,
    )

module _ (all : List SchemaInfo) (a b : SchemaInfo) (plain : Plain a × Plain b) where
  Name-distinct :
      (¬ SameEntry a b)
      → (a.name ≡ b.name → 2 ≤ times a.name all)
      → (x : Text) → Name all a x
      → (y : Text) → Name all b y
      → x ≢ y
  Name-distinct apart often x (bare h) y (bare k) e =
      let twice = often e in apart (h twice ∙ sym (k (subst (λ n. 2 ≤ times n all) e twice)), e)
  Name-distinct apart often x (bare h) y (dotted {schema = s} k) e =
      ground (arith, ap (any is_dot) e, any_dot-append s b.name, plain.0)
  Name-distinct apart often x (dotted {schema = s} h) y (bare k) e =
      ground (arith, ap (any is_dot) e, any_dot-append s a.name, plain.1)
  Name-distinct apart often x (dotted h) y (dotted k) e =
      let (s, n) = dotted-injective _ _ a.name b.name plain.0 plain.1 e in
      apart (h ∙ ap some s ∙ sym k, n)

module _ (all : List SchemaInfo) where
  apart-from :
      (a : SchemaInfo) (es : List SchemaInfo)
      → ((n : Text) → (if eq a.name n then 1 else 0) + times n es ≤ times n all)
      → Plain a
      → All Plain es
      → All (λ b. ¬ SameEntry a b) es
      → All (λ e. (qualified all a).name ≢ e.name) (map (qualified all) es)
  unfolding times
  apart-from a [] bound p ps h = tt
  apart-from a (b ∷ es) bound p ps h = (
    Name-distinct all a b (p, ps.0) h.0
        (λ same. ground (arith, bound a.name, eq_refl a.name, eq_iff b.name a.name, same)) _
        (qualified-Name all a) _ (qualified-Name all b),
    apart-from a es (λ n. omega (arith, bound n)) p ps.1 h.1,
  )

  names-apart :
      (es : List SchemaInfo)
      → ((n : Text) → times n es ≤ times n all)
      → All Plain es
      → Pairs (λ a b. ¬ SameEntry a b) es
      → Pairs (λ a b. a.name ≢ b.name) (map (qualified all) es)
  unfolding times
  names-apart [] bound ps h = tt
  names-apart (a ∷ es) bound ps h =
      (apart-from a es bound ps.0 ps.1 h.0, names-apart es (λ n. omega (arith, bound n)) ps.1 h.1)

-- Of entries that differ in schema or name, in a schema without dots in its tables' names, no two
-- have the same name afterwards.
pub qualify_colliding_names-apart :
    (es : List SchemaInfo)
    → All Plain es
    → Pairs (λ a b. ¬ SameEntry a b) es
    → Pairs (λ a b. a.name ≢ b.name) (qualify_colliding_names es)
unfolding qualify_colliding_names
qualify_colliding_names-apart es = names-apart es es (λ n. omega arith)
