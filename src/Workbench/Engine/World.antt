-- ===== src/Workbench/Engine/World.antt =====
-- An engine with the tasks that it has spawned, what can happen to them, and what holds of them.
use tradar.Base.{
  ℕ, ◌+◌, ◌≤◌, ◌<◌, Bool, true, false, List, [], ◌∷◌, ◌++◌, Option, none, some, ◌≡◌, ◌==◌,
  if◌then◌else◌, All, Text,
}
use tradar.Query.Schema.{SchemaInfo}
use tradar.Workbench.Engine.{
  QueryOutcome, Answer, Job, QueryEngine, outcome_of, submit_job, cancel, take_outcome, tick,
}

-- An engine, the tasks that run, and what was submitted last, unless it was cancelled.
pub record World (R : Type 0) : Type 0 where
  pub engine : QueryEngine R
  pub tasks : List (ℕ × Job)
  pub latest : Option Job

-- How many have an epoch.
abbrev pub having : {A : Type 0} → ℕ → List (ℕ × A) → ℕ
having epoch [] = 0
having epoch (t ∷ ts) = (if t.0 == epoch then 1 else 0) + having epoch ts

abbrev pub is_some : {A : Type 0} → Option A → Bool
is_some none = false
is_some (some a) = true

module _ {R : Type 0} (execute : ℕ → ℕ → Text → Answer R)
    (browse_entry : ℕ → SchemaInfo → Answer R) where
  abbrev outcome : ℕ → Job → QueryOutcome R
  outcome = outcome_of execute browse_entry

  -- What can happen. A task that is aborted may have sent its outcome or may still send it; one that
  -- is not the current one may also vanish.
  pub data Step : World R → World R → Type 0 where
    submits :
        (w : World R) (now : ℕ) (job : Job)
        → Step w (record {
          engine = (submit_job now job w.engine).0;
          tasks = (submit_job now job w.engine).1 ∷ w.tasks;
          latest = some job;
        })
    cancels :
        (w : World R)
        → Step w (record w {
          engine = (cancel w.engine).0;
          latest = if (cancel w.engine).1 then none else w.latest;
        })
    takes : (w : World R) → Step w (record w { engine = (take_outcome w.engine).0 })
    ticks : (w : World R) (now : ℕ) → Step w (record w { engine = (tick now w.engine).0 })
    sends :
        (w : World R) (before after : List (ℕ × Job)) (epoch : ℕ) (job : Job)
        → (w.tasks ≡ before ++ (epoch, job) ∷ after)
        → Step w (record w {
          tasks = before ++ after;
          engine = record w.engine {
            outcomes = w.engine.outcomes ++ (epoch, outcome epoch job) ∷ [];
          };
        })
    vanishes :
        (w : World R) (before after : List (ℕ × Job)) (epoch : ℕ) (job : Job)
        → (w.tasks ≡ before ++ (epoch, job) ∷ after)
        → epoch < w.engine.epoch
        → Step w (record w { tasks = before ++ after })
    pings :
        (w : World R) (alive : Bool)
        → Step w (record w { engine = record w.engine { pings = w.engine.pings ++ alive ∷ [] } })

  pub data Reach (w : World R) : World R → Type 0 where
    here : Reach w w
    more : {t u : World R} → Reach w t → Step t u → Reach w u

  -- A task, and an outcome, of the current epoch are those of the latest submission.
  abbrev pub TaskKnown : ℕ → Option Job → ℕ × Job → Type 0
  TaskKnown current latest (epoch, job) = (epoch ≤ current) × (epoch ≡ current → latest ≡ some job)

  abbrev pub IsLatest : ℕ → Option Job → QueryOutcome R → Type 0
  IsLatest current latest o = (job : Job) × (latest ≡ some job) × (o ≡ outcome current job)

  abbrev pub OutcomeKnown : ℕ → Option Job → ℕ × QueryOutcome R → Type 0
  OutcomeKnown current latest (epoch, o) =
      (epoch ≤ current) × (epoch ≡ current → IsLatest current latest o)

  -- The outcome that is shown when no query runs.
  abbrev pub Shown : ℕ → Option Job → Bool → Option (QueryOutcome R) → Type 0
  Shown current latest true o = Unit
  Shown current latest false none = Unit
  Shown current latest false (some o) = IsLatest current latest o

  pub record Holds (tasks : List (ℕ × Job)) (latest : Option Job) (e : QueryEngine R)
      (sent : List (ℕ × QueryOutcome R)) : Type 0 where
    pub tasks_known : All (TaskKnown e.epoch latest) tasks
    pub outcomes_known : All (OutcomeKnown e.epoch latest) sent
    pub one_answer : having e.epoch tasks + having e.epoch sent ≡ (if e.pending then 1 else 0)
    pub running_is : is_some e.running ≡ e.pending
    pub since_is : is_some e.running_since ≡ e.pending
    pub shown : Shown e.epoch latest e.pending e.last_outcome

  abbrev pub IsSound : World R → Type 0
  IsSound w = Holds w.tasks w.latest w.engine w.engine.outcomes
