-- ===== src/Base/Json.antt =====
-- A JSON value (`serde_json::Value`), told apart as far as the code does; a number is known by what
-- `as_u64` answers, and the members of an object stand in the order in which they came, each key once
-- in an object that `to_object` makes.
use tradar.Base.{
  arith, ℕ, Bool, Bool-cases, inl, inr, List, [], ◌∷◌, Option, none, some, ◌≡◌, refl, ap, Text, eq,
  if◌then◌else◌, ◌++◌, false, ◌∙◌, append_assoc, eq_iff, append-nil, subst, sym,
}
use tradar.Base.Map.{Key, contains, Distinct}

mutual
  pub data Value : Type 0 where
    null : Value
    boolean : Bool → Value
    number : Option ℕ → Value
    string : Text → Value
    array : Values → Value
    object : Members → Value

  pub data Values : Type 0 where
    end : Values
    item : Value → Values → Values

  pub data Members : Type 0 where
    done : Members
    member : Text → Value → Members → Members

-- `as_str`, `as_u64`, `as_array`, `as_object`
abbrev pub as_str : Value → Option Text
as_str (string s) = some s
as_str _ = none

abbrev pub as_u64 : Value → Option ℕ
as_u64 (number n) = n
as_u64 _ = none

abbrev pub items_of : Values → List Value
items_of end = []
items_of (item v vs) = v ∷ items_of vs

abbrev pub members_of : Members → List (Text × Value)
members_of done = []
members_of (member k v ms) = (k, v) ∷ members_of ms

abbrev pub as_array : Value → Option (List Value)
as_array (array vs) = some (items_of vs)
as_array _ = none

abbrev pub as_object : Value → Option (List (Text × Value))
as_object (object ms) = some (members_of ms)
as_object _ = none

-- `json!` of a list, and of pairs
abbrev pub values : List Value → Values
values [] = end
values (v ∷ vs) = item v (values vs)

abbrev pub to_array : List Value → Value
to_array vs = array (values vs)

-- `Map::insert`: a key that is there keeps its place and gets the new value.
abbrev pub put : Text → Value → Members → Members
put k v done = member k v done
put k v (member j w ms) = let rest = put k v ms in if eq j k then member j v ms else member j w rest

abbrev pub put_all : Members → List (Text × Value) → Members
put_all ms [] = ms
put_all ms ((k, v) ∷ more) = put_all (put k v ms) more

abbrev pub to_object : List (Text × Value) → Value
to_object ms = object (put_all done ms)

pub items_of-values : (vs : List Value) → items_of (values vs) ≡ vs
items_of-values [] = refl
items_of-values (v ∷ vs) = ap (◌∷◌ v) (items_of-values vs)

-- Keys are told apart as texts.
abbrev pub keys : Key Text
keys = record { same = eq; same_iff = eq_iff }

abbrev pub names : List (Text × Value) → List Text
names [] = []
names (m ∷ ms) = m.0 ∷ names ms

put-new :
    (k : Text) (v : Value) (ms : Members)
    → contains keys k (names (members_of ms)) ≡ false
    → members_of (put k v ms) ≡ members_of ms ++ (k, v) ∷ []
unfolding contains
put-new k v done h = refl
put-new k v (member j w ms) h = elim (Bool-cases (eq j k)) [
  | inl e ↦ cc (rw e at h)
  | inr e ↦ rw e (ap (◌∷◌ (j, w)) (put-new k v ms (rw e at h)))
]

-- Texts that differ one way differ the other way.
apart : (j k : Text) → eq j k ≡ false → eq k j ≡ false
apart j k h = elim (Bool-cases (eq k j)) [
  | inl e ↦ let back = (eq_iff j k).1 (sym ((eq_iff k j).0 e)) in cc
  | inr e ↦ e
]

contains-middle :
    (k : Text) (xs : List (Text × Value)) (m : Text × Value) (ys : List (Text × Value))
    → contains keys k (names (xs ++ m ∷ ys)) ≡ false
    → eq m.0 k ≡ false
unfolding contains
contains-middle k [] m ys h = ground arith
contains-middle k (x ∷ xs) m ys h = contains-middle k xs m ys (ground arith)

unlisted_before :
    (xs : List (Text × Value)) (m : Text × Value) (ys : List (Text × Value))
    → Distinct keys (names (xs ++ m ∷ ys))
    → contains keys m.0 (names xs) ≡ false
unfolding contains
unlisted_before [] m ys d = refl
unlisted_before (x ∷ xs) m ys d =
    rw (apart m.0 x.0 (contains-middle x.0 xs m ys d.0), unlisted_before xs m ys d.1) refl

members_of-put_all :
    (acc : Members) (ms : List (Text × Value))
    → Distinct keys (names (members_of acc ++ ms))
    → members_of (put_all acc ms) ≡ members_of acc ++ ms
members_of-put_all acc [] d = sym (append-nil (members_of acc))
members_of-put_all acc ((k, v) ∷ ms) d =
    let one = put-new k v acc (unlisted_before (members_of acc) (k, v) ms d) in
    let all : members_of (put k v acc) ++ ms ≡ members_of acc ++ (k, v) ∷ ms =
      ap (λ l. l ++ ms) one ∙ append_assoc (members_of acc) ((k, v) ∷ []) ms in
    members_of-put_all (put k v acc) ms (subst (λ l. Distinct keys (names l)) (sym all) d) ∙ all

-- An object that is made of members with different keys has just those, in their order.
pub members_of-members :
    (ms : List (Text × Value)) → Distinct keys (names ms) → members_of (put_all done ms) ≡ ms
members_of-members ms d = members_of-put_all done ms d

-- `get` on an object
abbrev pub find_member : Text → List (Text × Value) → Option Value
find_member name [] = none
find_member name ((k, v) ∷ ms) = if eq k name then some v else find_member name ms

unfoldable pub get : Text → Value → Option Value
get name (object ms) = find_member name (members_of ms)
get name _ = none
