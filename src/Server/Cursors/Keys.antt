-- ===== src/Server/Cursors/Keys.antt =====
-- The keys of an association list, and the sum of its numbers, under `insert` and `remove`.
use tradar.Base.{
  ℕ, ◌+◌, Bool, true, false, not, ◌&&◌, ◌||◌, List, [], ◌∷◌, map, Option, none, some, ◌≡◌, refl,
  arith, ◌==◌, ==_iff,
}
use tradar.Base.Map.{lookup, insert, remove, contains, Distinct}
use tradar.Server.Subscriptions.{clients}
use tradar.Server.Cursors.{sum, or_zero}

abbrev pub is_some : {A : Type 0} → Option A → Bool
is_some none = false
is_some (some a) = true

abbrev pub map_option : {A B : Type 0} → (A → B) → Option A → Option B
map_option f none = none
map_option f (some a) = some (f a)

abbrev pub keys : {V : Type 0} → List (ℕ × V) → List ℕ
keys = map (λ e. e.0)

contains-remove :
    {V : Type 0} (k j : ℕ) (m : List (ℕ × V))
    → contains clients j (keys (remove clients k m)) ≡ (contains clients j (keys m) && not (k == j))
unfolding remove contains
contains-remove k j [] = refl
contains-remove k j ((i, v) ∷ m) =
    ground (arith, contains-remove k j m, ==_iff i k, ==_iff i j, ==_iff k j)

pub keys-remove :
    {V : Type 0} (k : ℕ) (m : List (ℕ × V))
    → Distinct clients (keys m)
    → Distinct clients (keys (remove clients k m))
unfolding remove
keys-remove k [] d = tt
keys-remove k ((i, v) ∷ m) d = ground (arith, keys-remove k m d.1, contains-remove k i m, d.0)

contains-insert :
    {V : Type 0} (k j : ℕ) (v : V) (m : List (ℕ × V))
    → contains clients j (keys (insert clients k v m)) ≡ (contains clients j (keys m) || k == j)
unfolding insert contains
contains-insert k j v [] = ground arith
contains-insert k j v ((i, w) ∷ m) =
    ground (arith, contains-insert k j v m, ==_iff i k, ==_iff i j, ==_iff k j)

pub keys-insert :
    {V : Type 0} (k : ℕ) (v : V) (m : List (ℕ × V))
    → Distinct clients (keys m)
    → Distinct clients (keys (insert clients k v m))
unfolding insert contains
keys-insert k v [] d = (refl, tt)
keys-insert k v ((i, w) ∷ m) d =
    ground (arith, keys-insert k v m d.1, contains-insert k i v m, d.0, ==_iff i k, ==_iff k i)

remove-absent :
    (k : ℕ) (m : List (ℕ × ℕ)) → contains clients k (keys m) ≡ false → remove clients k m ≡ m
unfolding remove contains
remove-absent k [] h = refl
remove-absent k ((i, n) ∷ m) h = ground (arith, remove-absent k m, h)

pub sum-remove :
    (k : ℕ) (m : List (ℕ × ℕ))
    → Distinct clients (keys m)
    → sum (remove clients k m) + or_zero (lookup clients k m) ≡ sum m
unfolding sum remove lookup
sum-remove k [] d = refl
sum-remove k ((i, n) ∷ m) d = ground (arith, sum-remove k m d.1, remove-absent k m, d.0, ==_iff i k)
