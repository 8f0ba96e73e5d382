-- ===== src/Workbench/Engine/Counts.antt =====
-- Lists of tasks and outcomes, by their epochs.
use tradar.Base.{
  ℕ, ◌+◌, ◌≤◌, List, [], ◌∷◌, ◌++◌, ◌≡◌, refl, arith, ◌==◌, ==_iff, if◌then◌else◌, All,
}
use tradar.Workbench.Engine.World.{having}

module _ {A : Type 0} where
  pub having-append :
      (epoch : ℕ) (xs ys : List (ℕ × A))
      → having epoch (xs ++ ys) ≡ having epoch xs + having epoch ys
  having-append epoch [] ys = omega arith
  having-append epoch (x ∷ xs) ys = omega (arith, having-append epoch xs ys)

  -- What was sent under an older epoch is not of the new one.
  pub having-next :
      (current : ℕ) (xs : List (ℕ × A)) → All (λ x. x.0 ≤ current) xs → having (current + 1) xs ≡ 0
  having-next current [] h = refl
  having-next current (x ∷ xs) h =
      ground (arith, having-next current xs h.1, h.0, ==_iff x.0 (current + 1))

  pub having-without :
      (epoch : ℕ) (before after : List (ℕ × A)) (x : ℕ × A)
      → having epoch (before ++ x ∷ after)
        ≡ (if x.0 == epoch then 1 else 0) + having epoch (before ++ after)
  having-without epoch before after x =
      omega (arith, having-append epoch before (x ∷ after), having-append epoch before after)

  pub All-map :
      {P Q : ℕ × A → Type 0} (xs : List (ℕ × A)) → ((x : ℕ × A) → P x → Q x) → All P xs → All Q xs
  All-map [] f h = tt
  All-map (x ∷ xs) f h = (f x h.0, All-map xs f h.1)

  pub All-without :
      (P : ℕ × A → Type 0) (before after : List (ℕ × A)) (x : ℕ × A)
      → All P (before ++ x ∷ after)
      → P x × All P (before ++ after)
  All-without P [] after x h = h
  All-without P (b ∷ before) after x h =
      let (p, q) = All-without P before after x h.1 in (p, (h.0, q))
