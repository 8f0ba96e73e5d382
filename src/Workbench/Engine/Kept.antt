-- ===== src/Workbench/Engine/Kept.antt =====
-- What `tick` and `take_outcome` of crates/tradar-query-workbench/src/query_engine.rs keep.
use tradar.Base.{
  ℕ, zero, suc, ◌+◌, Bool, true, false, not, ◌&&◌, List, [], ◌∷◌, Option, none, some, ◌≡◌, refl,
  inl, inr, arith, ◌==◌, ==_iff, leb, ◌-◌, ◌/◌, Bool-cases, All, Text,
}
use tradar.Query.Schema.{SchemaInfo}
use tradar.Workbench.Engine.{
  QueryOutcome, Answer, Job, QueryEngine, take_outcome, accept, drain, hear, hear_ping, ping_if_due,
  is_frame, spin_since, spin, tick,
}
use tradar.Workbench.Engine.World.{having, TaskKnown, OutcomeKnown, Shown, Holds}
use tradar.Workbench.Engine.Counts.{having-next, All-map}

module _ {R : Type 0} (execute : ℕ → ℕ → Text → Answer R)
    (browse_entry : ℕ → SchemaInfo → Answer R) where
  module _ (tasks : List (ℕ × Job)) (latest : Option Job) where
    abbrev Holding : QueryEngine R → List (ℕ × QueryOutcome R) → Type 0
    Holding = Holds execute browse_entry tasks latest

    taken :
        (e : QueryEngine R) (sent : List (ℕ × QueryOutcome R))
        → Holding e sent
        → Holding (record e { outcomes = sent }) sent
    taken e sent v = record {
      tasks_known = v.tasks_known;
      outcomes_known = v.outcomes_known;
      one_answer = v.one_answer;
      running_is = v.running_is;
      since_is = v.since_is;
      shown = v.shown;
    }

    accepted :
        (e : QueryEngine R) (epoch : ℕ) (o : QueryOutcome R) (sent : List (ℕ × QueryOutcome R))
        → (epoch == e.epoch) ≡ true
        → Holding e ((epoch, o) ∷ sent)
        → Holding (accept o e) sent
    accepted e epoch o sent h v = record {
      tasks_known = v.tasks_known;
      outcomes_known = v.outcomes_known.1;
      one_answer = ground (arith, v.one_answer, h);
      running_is = refl;
      since_is = refl;
      shown = v.outcomes_known.0.1 ((==_iff epoch e.epoch).0 h);
    }

    ignored :
        (e : QueryEngine R) (epoch : ℕ) (o : QueryOutcome R) (sent : List (ℕ × QueryOutcome R))
        → (epoch == e.epoch) ≡ false
        → Holding e ((epoch, o) ∷ sent)
        → Holding e sent
    ignored e epoch o sent h v = record {
      tasks_known = v.tasks_known;
      outcomes_known = v.outcomes_known.1;
      one_answer = ground (arith, v.one_answer, h);
      running_is = v.running_is;
      since_is = v.since_is;
      shown = v.shown;
    }

    pub drain-Holds :
        (n : ℕ) (sent : List (ℕ × QueryOutcome R)) (e : QueryEngine R)
        → Holding e sent
        → Holding (drain n sent e) (drain n sent e).outcomes
    unfolding drain
    drain-Holds zero sent e v = taken e sent v
    drain-Holds (suc n) [] e v = taken e [] v
    drain-Holds (suc n) ((epoch, o) ∷ sent) e v = elim (Bool-cases (epoch == e.epoch)) [
      | inl h ↦ rw h (drain-Holds n sent (accept o e) (accepted e epoch o sent h v))
      | inr h ↦ rw h (drain-Holds n sent e (ignored e epoch o sent h v))
    ]

    -- What `tick` does behind the loop touches nothing that these facts are about.
    pub touched :
        (e : QueryEngine R) (frame : Option ℕ) (alive in_flight : Bool) (last : ℕ)
        (replies : List Bool)
        → Holding e e.outcomes
        → Holding
            (record e {
              last_reported_spinner_frame = frame;
              alive = alive;
              last_ping = last;
              ping_in_flight = in_flight;
              pings = replies;
            })
            e.outcomes
    touched e frame alive in_flight last replies v = record {
      tasks_known = v.tasks_known;
      outcomes_known = v.outcomes_known;
      one_answer = v.one_answer;
      running_is = v.running_is;
      since_is = v.since_is;
      shown = v.shown;
    }

    abbrev Held : QueryEngine R → Type 0
    Held e = Holding e e.outcomes

    hear-Held : (replies : List Bool) (e : QueryEngine R) → Held e → Held (hear replies e).0
    hear-Held [] e v = v
    hear-Held (alive ∷ replies) e v =
        touched e e.last_reported_spinner_frame alive false e.last_ping replies v

    pub hear_ping-Held : (e : QueryEngine R) → Held e → Held (hear_ping e).0
    unfolding hear_ping
    hear_ping-Held e v = hear-Held e.pings e v

    pub ping_if_due-Held : (now : ℕ) (e : QueryEngine R) → Held e → Held (ping_if_due now e)
    unfolding ping_if_due
    ping_if_due-Held now e v =
        elim (Bool-cases (not e.ping_in_flight && leb 15000 (now - e.last_ping))) [
          | inl h ↦ rw h (touched e e.last_reported_spinner_frame e.alive true now e.pings v)
          | inr h ↦ rw h v
        ]

    spin_since-Held :
        (now : ℕ) (since : Option ℕ) (e : QueryEngine R) → Held e → Held (spin_since now since e).0
    spin_since-Held now none e v = v
    spin_since-Held now (some since) e v =
        elim (Bool-cases
          (e.pending && not (is_frame ((now - since) / 80) e.last_reported_spinner_frame))) [
            | inl h ↦ rw h (
                touched e (some ((now - since) / 80)) e.alive e.ping_in_flight e.last_ping e.pings
                  v)
            | inr h ↦ rw h v
          ]

    pub spin-Held : (now : ℕ) (e : QueryEngine R) → Held e → Held (spin now e).0
    unfolding spin
    spin-Held now e v = spin_since-Held now e.running_since e v

    pub tick-Held : (now : ℕ) (e : QueryEngine R) → Held e → Held (tick now e).0
    unfolding tick
    tick-Held now e v =
        spin-Held now _ (ping_if_due-Held now _ (hear_ping-Held _ (drain-Holds 64 e.outcomes e v)))

    Shown-none :
        (current : ℕ) (pending : Bool) → Shown execute browse_entry current latest pending none
    Shown-none current true = tt
    Shown-none current false = tt

    pub take_outcome-Held : (e : QueryEngine R) → Held e → Held (take_outcome e).0
    unfolding take_outcome
    take_outcome-Held e v = record {
      tasks_known = v.tasks_known;
      outcomes_known = v.outcomes_known;
      one_answer = v.one_answer;
      running_is = v.running_is;
      since_is = v.since_is;
      shown = Shown-none e.epoch e.pending;
    }

    -- An older epoch says nothing of the latest submission.
    pub older-tasks :
        (current : ℕ) (after : Option Job) (ts : List (ℕ × Job))
        → All (TaskKnown execute browse_entry current latest) ts
        → All (TaskKnown execute browse_entry (current + 1) after) ts
    older-tasks current after ts =
        All-map ts (λ t k. (omega (arith, k.0), λ e. absurd (omega (arith, k.0, e))))

    pub older-outcomes :
        (current : ℕ) (after : Option Job) (sent : List (ℕ × QueryOutcome R))
        → All (OutcomeKnown execute browse_entry current latest) sent
        → All (OutcomeKnown execute browse_entry (current + 1) after) sent
    older-outcomes current after sent =
        All-map sent (λ t k. (omega (arith, k.0), λ e. absurd (omega (arith, k.0, e))))

    pub none_of_next :
        (e : QueryEngine R)
        → Held e
        → having (e.epoch + 1) tasks + having (e.epoch + 1) e.outcomes ≡ 0
    none_of_next e v = omega (
      arith,
      having-next e.epoch tasks (All-map tasks (λ t k. k.0) v.tasks_known),
      having-next e.epoch e.outcomes (All-map e.outcomes (λ t k. k.0) v.outcomes_known),
    )
