-- ===== src/Server/Cursors/Bounded.antt =====
-- The three maps of the cursors agree, and a new result leaves them within their bounds.
use tradar.Base.{
  ℕ, ◌-◌, ◌≤◌, true, false, List, [], ◌∷◌, ◌++◌, ◌≡◌, ◌⊎◌, refl, ap, ◌∙◌, inl, inr, arith, ==_iff,
  Bool-cases, length,
}
use tradar.Base.Map.{lookup, remove, lookup-remove, contains, Distinct}
use tradar.Server.Subscriptions.{clients}
use tradar.Server.Cursors.{sum, or_zero, too_many, evict}
use tradar.Server.Cursors.Keys.{is_some, map_option, keys, keys-remove, sum-remove}

module _ {R : Type 0} (approx_bytes : R → ℕ) where
  -- The order has each cursor once, and the maps have the cursors of the order, with their sizes.
  pub record Agree (order : List ℕ) (cursors : List (ℕ × R)) (bytes : List (ℕ × ℕ)) : Type 0 where
    pub once : Distinct clients order
    pub listed : (c : ℕ) → is_some (lookup clients c cursors) ≡ contains clients c order
    pub sized :
        (c : ℕ) → lookup clients c bytes ≡ map_option approx_bytes (lookup clients c cursors)
    pub keyed : Distinct clients (keys bytes)

  -- What eviction leaves of them.
  abbrev AgreeKept : List ℕ × (List (ℕ × R) × List (ℕ × ℕ)) → Type 0
  AgreeKept t = Agree t.0 t.1.0 t.1.1

  oldest-Agree :
      (oldest : ℕ) (order : List ℕ) (cursors : List (ℕ × R)) (bytes : List (ℕ × ℕ))
      → Agree (oldest ∷ order) cursors bytes
      → Agree order (remove clients oldest cursors) (remove clients oldest bytes)
  unfolding contains
  oldest-Agree oldest order cursors bytes a = record {
    once = a.once.1;
    listed = λ c.
        rw (lookup-remove clients oldest c cursors)
          (ground (arith, a.listed c, a.once.0, ==_iff oldest c));
    sized = λ c.
        rw (lookup-remove clients oldest c cursors)
          (rw (lookup-remove clients oldest c bytes) (ground (arith, a.sized c)));
    keyed = keys-remove oldest bytes a.keyed;
  }

  pub evict-Agree :
      (held : ℕ) (order : List ℕ) (cursors : List (ℕ × R)) (bytes : List (ℕ × ℕ))
      → Agree order cursors bytes
      → AgreeKept (evict held order cursors bytes)
  unfolding evict
  evict-Agree held [] cursors bytes a = a
  evict-Agree held (oldest ∷ order) cursors bytes a =
      elim (Bool-cases (too_many held (oldest ∷ order))) [
        | inl h ↦ rw h (
            evict-Agree (held - or_zero (lookup clients oldest bytes)) order
              (remove clients oldest cursors) (remove clients oldest bytes)
              (oldest-Agree oldest order cursors bytes a))
        | inr h ↦ rw h a
      ]

  -- The bounds, for what is kept.
  abbrev Within : List ℕ × (List (ℕ × R) × List (ℕ × ℕ)) → Type 0
  Within t = (length t.0 ≤ 16) × ((sum t.1.1 ≤ 268435456) ⊎ (length t.0 ≤ 1))

  within :
      (held : ℕ) (order : List ℕ)
      → too_many held order ≡ false
      → (length order ≤ 16) × ((held ≤ 268435456) ⊎ (length order ≤ 1))
  within held order h = ground (arith, h)

  pub evict-Within :
      (held : ℕ) (order : List ℕ) (cursors : List (ℕ × R)) (bytes : List (ℕ × ℕ))
      → (held ≡ sum bytes)
      → Agree order cursors bytes
      → Within (evict held order cursors bytes)
  unfolding evict
  evict-Within held [] cursors bytes h a = (omega arith, inr (omega arith))
  evict-Within held (oldest ∷ order) cursors bytes h a =
      elim (Bool-cases (too_many held (oldest ∷ order))) [
        | inl k ↦ rw k (
            evict-Within (held - or_zero (lookup clients oldest bytes)) order
              (remove clients oldest cursors) (remove clients oldest bytes)
              (omega (arith, h, sum-remove oldest bytes a.keyed))
              (oldest-Agree oldest order cursors bytes a))
        | inr k ↦ rw k (rw h at (within held (oldest ∷ order) k))
      ]

module _ {R : Type 0} where
  -- The newest cursor stays, behind those that are left of the others.
  pub evict-newest :
      (held newest : ℕ) (order : List ℕ) (cursors : List (ℕ × R)) (bytes : List (ℕ × ℕ))
      → (gone : List ℕ) × (left : List ℕ) × (order ≡ gone ++ left)
        × ((evict held (order ++ newest ∷ []) cursors bytes).0 ≡ left ++ newest ∷ [])
  unfolding evict
  evict-newest held newest [] cursors bytes = ([], [], refl, ground arith)
  evict-newest held newest (oldest ∷ order) cursors bytes =
      elim (Bool-cases (too_many held (oldest ∷ (order ++ newest ∷ [])))) [
        | inl h ↦
            let (gone, left, e, k) =
              evict-newest (held - or_zero (lookup clients oldest bytes)) newest order
                (remove clients oldest cursors) (remove clients oldest bytes) in
            (oldest ∷ gone, left, ap (◌∷◌ oldest) e, rw h k)
        | inr h ↦ ([], oldest ∷ order, refl, rw h)
      ]

  pub evict-listed :
      (held c : ℕ) (order : List ℕ) (cursors : List (ℕ × R)) (bytes : List (ℕ × ℕ))
      → contains clients c (evict held order cursors bytes).0 ≡ true
      → contains clients c order ≡ true
  unfolding evict contains
  evict-listed held c [] cursors bytes h = h
  evict-listed held c (oldest ∷ order) cursors bytes h =
      elim (Bool-cases (too_many held (oldest ∷ order))) [
        | inl k ↦ ground (
          arith,
          evict-listed (held - or_zero (lookup clients oldest bytes)) c order
              (remove clients oldest cursors) (remove clients oldest bytes) (rw k at h),
        )
        | inr k ↦ rw k at h
      ]

  -- What is kept is as it was.
  pub evict-kept :
      (held c : ℕ) (order : List ℕ) (cursors : List (ℕ × R)) (bytes : List (ℕ × ℕ))
      → Distinct clients order
      → contains clients c (evict held order cursors bytes).0 ≡ true
      → lookup clients c (evict held order cursors bytes).1.0 ≡ lookup clients c cursors
  unfolding evict
  evict-kept held c [] cursors bytes d h = refl
  evict-kept held c (oldest ∷ order) cursors bytes d h =
      elim (Bool-cases (too_many held (oldest ∷ order))) [
        | inl k ↦ rw k (
            evict-kept (held - or_zero (lookup clients oldest bytes)) c order
              (remove clients oldest cursors) (remove clients oldest bytes) d.1 (rw k at h)
            ∙ lookup-remove clients oldest c cursors
            ∙ ground (
              arith,
              d.0,
              ==_iff oldest c,
              evict-listed (held - or_zero (lookup clients oldest bytes)) c order
                  (remove clients oldest cursors) (remove clients oldest bytes) (rw k at h),
            ))
        | inr k ↦ rw k
      ]
