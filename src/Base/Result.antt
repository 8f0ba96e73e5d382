-- ===== src/Base/Result.antt =====
-- `Result` of Rust, with `?` as a bind that `do` blocks use.
use tradar.Base.{List, [], ◌∷◌, Option, none, some}

pub data Result (A E : Type 0) : Type 0 where
  ok : A → Result A E
  err : E → Result A E

infixl 5 ◌>>=◌
abbrev pub ◌>>=◌ : {A B E : Type 0} → Result A E → (A → Result B E) → Result B E
ok a >>= f = f a
err e >>= f = err e

-- `ok_or_else`
abbrev pub ok_or : {A E : Type 0} → E → Option A → Result A E
ok_or e none = err e
ok_or e (some a) = ok a

-- `map(f).collect::<Result<Vec<_>, _>>()`: the first error, if there is one
unfoldable pub collect : {A B E : Type 0} → (A → Result B E) → List A → Result (List B) E
collect f [] = ok []
collect f (a ∷ as_) = do b ← f a; bs ← collect f as_; ok (b ∷ bs)
