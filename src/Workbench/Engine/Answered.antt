-- ===== src/Workbench/Engine/Answered.antt =====
-- A tick that finds the answer of the running query in the channel ends the query.
use tradar.Base.{
  ℕ, zero, suc, ◌≤◌, Bool, false, not, ◌&&◌, List, [], ◌∷◌, Option, none, some, ◌≡◌, refl, inl, inr,
  arith, ◌==◌, leb, ◌-◌, ◌/◌, Bool-cases, length,
}
use tradar.Workbench.Engine.{
  QueryOutcome, QueryEngine, accept, drain, hear, hear_ping, ping_if_due, is_frame, spin_since,
  spin, tick,
}
use tradar.Workbench.Engine.World.{having}

module _ {R : Type 0} where
  -- The rest of `tick` leaves the query and its outcome alone.
  abbrev Answered : QueryEngine R → QueryOutcome R → Type 0
  Answered e o = (e.pending ≡ false) × (e.last_outcome ≡ some o)

  hear-Answered :
      (replies : List Bool) (e : QueryEngine R) (o : QueryOutcome R)
      → Answered e o
      → Answered (hear replies e).0 o
  hear-Answered [] e o h = h
  hear-Answered (alive ∷ replies) e o h = h

  ping_if_due-Answered :
      (now : ℕ) (e : QueryEngine R) (o : QueryOutcome R)
      → Answered e o
      → Answered (ping_if_due now e) o
  unfolding ping_if_due
  ping_if_due-Answered now e o h =
      elim (Bool-cases (not e.ping_in_flight && leb 15000 (now - e.last_ping))) [
        | inl k ↦ rw k h
        | inr k ↦ rw k h
      ]

  spin_since-Answered :
      (now : ℕ) (since : Option ℕ) (e : QueryEngine R) (o : QueryOutcome R)
      → Answered e o
      → Answered (spin_since now since e).0 o
  spin_since-Answered now none e o h = h
  spin_since-Answered now (some since) e o h =
      elim (Bool-cases
        (e.pending && not (is_frame ((now - since) / 80) e.last_reported_spinner_frame))) [
          | inl k ↦ rw k h
          | inr k ↦ rw k h
        ]

  -- Outcomes of older epochs change nothing.
  drain-stale :
      (n : ℕ) (sent : List (ℕ × QueryOutcome R)) (e : QueryEngine R) (o : QueryOutcome R)
      → having e.epoch sent ≡ 0
      → Answered e o
      → Answered (drain n sent e) o
  unfolding drain
  drain-stale zero sent e o h a = a
  drain-stale (suc n) [] e o h a = a
  drain-stale (suc n) ((epoch, p) ∷ sent) e o h a = elim (Bool-cases (epoch == e.epoch)) [
    | inl k ↦ absurd (ground (arith, h, k))
    | inr k ↦ rw k (drain-stale n sent e o (ground (arith, h, k)) a)
  ]

  drain-Answered :
      (n : ℕ) (sent : List (ℕ × QueryOutcome R)) (e : QueryEngine R)
      → having e.epoch sent ≡ 1
      → length sent ≤ n
      → (o : QueryOutcome R) × Answered (drain n sent e) o
  unfolding drain
  drain-Answered zero [] e h l = absurd (ground (arith, h))
  drain-Answered zero (m ∷ sent) e h l = absurd (omega arith)
  drain-Answered (suc n) [] e h l = absurd (ground (arith, h))
  drain-Answered (suc n) ((epoch, o) ∷ sent) e h l = elim (Bool-cases (epoch == e.epoch)) [
    | inl k ↦ rw k (o, drain-stale n sent (accept o e) o (ground (arith, h, k)) (refl, refl))
    | inr k ↦ rw k (drain-Answered n sent e (ground (arith, h, k)) (omega arith))
  ]

  -- A tick with the answer of the running query in the channel, among no more outcomes than one tick
  -- reads, ends the query and shows an outcome.
  pub tick-Answered :
      (now : ℕ) (e : QueryEngine R)
      → having e.epoch e.outcomes ≡ 1
      → length e.outcomes ≤ 64
      → (o : QueryOutcome R) × ((tick now e).0.pending ≡ false)
        × ((tick now e).0.last_outcome ≡ some o)
  unfolding tick hear_ping spin
  tick-Answered now e h l =
      let (o, a) = drain-Answered 64 e.outcomes e h l in
      let (p, q) =
        spin_since-Answered now _ _ o (ping_if_due-Answered now _ o (hear-Answered _ _ o a)) in
      (o, p, q)
