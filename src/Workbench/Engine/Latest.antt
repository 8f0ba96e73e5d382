-- ===== src/Workbench/Engine/Latest.antt =====
-- However submissions, cancellations, ticks and the tasks' replies interleave, the outcome that the
-- engine shows is the one of the query that was submitted last.
use tradar.Base.{
  ℕ, ◌+◌, ◌<◌, Bool, true, false, List, [], ◌∷◌, ◌++◌, Option, none, some, ◌≡◌, refl, ap, ◌∙◌,
  arith, ◌==◌, ==_iff, if◌then◌else◌, All, All-append, Text,
}
use tradar.Query.Schema.{SchemaInfo}
use tradar.Workbench.Engine.{
  QueryOutcome, Answer, Job, outcome_of, new, submit_job, abandon, cancel, take_outcome,
}
use tradar.Workbench.Engine.World.{
  World, having, Step, submits, cancels, takes, ticks, sends, vanishes, pings, Reach, here, more,
  TaskKnown, IsLatest, Shown, IsSound,
}
use tradar.Workbench.Engine.Counts.{having-append, having-without, All-without}
use tradar.Workbench.Engine.Kept.{
  touched, tick-Held, take_outcome-Held, older-tasks, older-outcomes, none_of_next,
}

-- The engine of a connection that has just been made.
abbrev pub start : {R : Type 0} → ℕ → World R
start now = record { engine = new now; tasks = []; latest = none }

module _ {R : Type 0} (execute : ℕ → ℕ → Text → Answer R)
    (browse_entry : ℕ → SchemaInfo → Answer R) where
  module _ (w : World R) (v : IsSound execute browse_entry w) where
    submits-IsSound :
        (now : ℕ) (job : Job)
        → IsSound execute browse_entry (record {
          engine = (submit_job now job w.engine).0;
          tasks = (submit_job now job w.engine).1 ∷ w.tasks;
          latest = some job;
        })
    unfolding submit_job
    submits-IsSound now job =
        let e = w.engine in
        record {
          tasks_known = (
            (omega arith, λ h. refl),
            older-tasks execute browse_entry w.tasks w.latest e.epoch (some job) w.tasks
                v.tasks_known,
          );
          outcomes_known =
              older-outcomes execute browse_entry w.tasks w.latest e.epoch (some job) e.outcomes
                v.outcomes_known;
          one_answer = ground (
            arith,
            none_of_next execute browse_entry w.tasks w.latest e v,
            ==_iff (e.epoch + 1) (e.epoch + 1),
          );
          running_is = refl;
          since_is = refl;
          shown = tt;
        }

    abandon-IsSound :
        (running : Option ℕ)
        → IsSound execute browse_entry (record w {
          engine = (abandon running w.engine).0;
          latest = if (abandon running w.engine).1 then none else w.latest;
        })
    abandon-IsSound none = v
    abandon-IsSound (some handle) =
        let e = w.engine in
        record {
          tasks_known =
              older-tasks execute browse_entry w.tasks w.latest e.epoch none w.tasks v.tasks_known;
          outcomes_known =
              older-outcomes execute browse_entry w.tasks w.latest e.epoch none e.outcomes
                v.outcomes_known;
          one_answer = none_of_next execute browse_entry w.tasks w.latest e v;
          running_is = refl;
          since_is = refl;
          shown = tt;
        }

    cancels-IsSound : IsSound execute browse_entry (record w {
      engine = (cancel w.engine).0;
      latest = if (cancel w.engine).1 then none else w.latest;
    })
    unfolding cancel
    cancels-IsSound = abandon-IsSound w.engine.running

    module _ (before after : List (ℕ × Job)) (epoch : ℕ) (job : Job)
        (at : w.tasks ≡ before ++ (epoch, job) ∷ after) where
      -- What is known of the task, and of the others.
      apart :
          TaskKnown execute browse_entry w.engine.epoch w.latest (epoch, job)
          × All (TaskKnown execute browse_entry w.engine.epoch w.latest) (before ++ after)
      apart =
          All-without (TaskKnown execute browse_entry w.engine.epoch w.latest) before after
            (epoch, job) (rw at at v.tasks_known)

      others :
          having w.engine.epoch w.tasks
          ≡ (if epoch == w.engine.epoch then 1 else 0) + having w.engine.epoch (before ++ after)
      others =
          ap (having w.engine.epoch) at ∙ having-without w.engine.epoch before after (epoch, job)

      sends-IsSound : IsSound execute browse_entry (record w {
        tasks = before ++ after;
        engine = record w.engine {
          outcomes = w.engine.outcomes ++ (epoch, outcome_of execute browse_entry epoch job) ∷ [];
        };
      })
      sends-IsSound = record {
        tasks_known = apart.1;
        outcomes_known = All-append _ w.engine.outcomes _ v.outcomes_known (
          (apart.0.0, λ e. (job, apart.0.1 e, ap (λ n. outcome_of execute browse_entry n job) e)),
          tt,
        );
        one_answer = omega (
          arith,
          others,
          v.one_answer,
          having-append w.engine.epoch w.engine.outcomes
              ((epoch, outcome_of execute browse_entry epoch job) ∷ []),
        );
        running_is = v.running_is;
        since_is = v.since_is;
        shown = v.shown;
      }

      vanishes-IsSound :
          epoch < w.engine.epoch
          → IsSound execute browse_entry (record w { tasks = before ++ after })
      vanishes-IsSound old = record {
        tasks_known = apart.1;
        outcomes_known = v.outcomes_known;
        one_answer = ground (arith, others, v.one_answer, ==_iff epoch w.engine.epoch, old);
        running_is = v.running_is;
        since_is = v.since_is;
        shown = v.shown;
      }

  Step-IsSound :
      {w t : World R}
      → Step execute browse_entry w t
      → IsSound execute browse_entry w
      → IsSound execute browse_entry t
  Step-IsSound (submits w now job) v = submits-IsSound w v now job
  Step-IsSound (cancels w) v = cancels-IsSound w v
  Step-IsSound (takes w) v = take_outcome-Held execute browse_entry w.tasks w.latest w.engine v
  Step-IsSound (ticks w now) v = tick-Held execute browse_entry w.tasks w.latest now w.engine v
  Step-IsSound (sends w before after epoch job at) v = sends-IsSound w v before after epoch job at
  Step-IsSound (vanishes w before after epoch job at old) v =
      vanishes-IsSound w v before after epoch job at old
  Step-IsSound (pings w alive) v =
      touched execute browse_entry w.tasks w.latest w.engine w.engine.last_reported_spinner_frame
        w.engine.alive w.engine.ping_in_flight w.engine.last_ping (w.engine.pings ++ alive ∷ []) v

  start-IsSound : (now : ℕ) → IsSound execute browse_entry (start now)
  unfolding new
  start-IsSound now = record {
    tasks_known = tt;
    outcomes_known = tt;
    one_answer = refl;
    running_is = refl;
    since_is = refl;
    shown = tt;
  }

  Reach-IsSound :
      {w t : World R}
      → Reach execute browse_entry w t
      → IsSound execute browse_entry w
      → IsSound execute browse_entry t
  Reach-IsSound here v = v
  Reach-IsSound (more r s) v = Step-IsSound s (Reach-IsSound r v)

  shown_is :
      (current : ℕ) (latest : Option Job) (pending : Bool) (o : Option (QueryOutcome R))
      → Shown execute browse_entry current latest pending o
      → (got : QueryOutcome R) → pending ≡ false
      → o ≡ some got
      → IsLatest execute browse_entry current latest got
  shown_is current latest true o s got h k = absurd (ground (arith, h))
  shown_is current latest false none s got h k = absurd (ground (arith, k))
  shown_is current latest false (some o) (job, l, e) got h k = (job, l, ground (arith, k, e))

  -- Whatever has interleaved since the start: an outcome that is taken while no query runs is the one
  -- of the query that was submitted last, which was not cancelled; and while one runs, exactly one
  -- answer to it is still to come, from its task or in the channel, and none when none runs.
  pub take_outcome-latest :
      (now : ℕ) {w : World R}
      → Reach execute browse_entry (start now) w
      → ((o : QueryOutcome R)
          → w.engine.pending ≡ false
          → (take_outcome w.engine).1 ≡ some o
          → (job : Job) × (w.latest ≡ some job)
            × (o ≡ outcome_of execute browse_entry w.engine.epoch job))
        × (having w.engine.epoch w.tasks + having w.engine.epoch w.engine.outcomes
            ≡ (if w.engine.pending then 1 else 0))
  unfolding take_outcome
  take_outcome-latest now {w} r =
      let v = Reach-IsSound r (start-IsSound now) in
      (
        λ o h k.
            shown_is w.engine.epoch w.latest w.engine.pending w.engine.last_outcome v.shown o h k,
        v.one_answer,
      )
