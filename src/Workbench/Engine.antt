-- ===== src/Workbench/Engine.antt =====
-- crates/tradar-query-workbench/src/query_engine.rs: the queries that run in the background and the
-- outcomes that come back. The driver is a parameter: what it answers to the nth statement of the
-- task with an epoch. Times are in milliseconds. A task is named by its epoch; a channel is the list
-- of what has been sent and not received.
pub mod World
pub mod Counts
pub mod Kept
pub mod Latest
pub mod Answered
use tradar.Base.{
  ℕ, zero, suc, ◌+◌, ◌-◌, ◌/◌, Bool, true, false, not, ◌&&◌, ◌||◌, List, [], ◌∷◌, ◌++◌, Option,
  none, some, ◌==◌, leb, if◌then◌else◌, length, Text, text, decimal,
}
use tradar.Query.Schema.{SchemaInfo}

pub data QueryOutcome (R : Type 0) : Type 0 where
  completed : R → QueryOutcome R
  failed : Text → QueryOutcome R

-- What a driver answers: a result, or the text of an error.
pub data Answer (R : Type 0) : Type 0 where
  ok : R → Answer R
  err : Text → Answer R

-- What a spawned task does.
pub data Job : Type 0 where
  run_query : Text → Job
  browse : SchemaInfo → Job
  run_all : List Text → Job

-- What `tick` and the calls of the screen read and write of a `QueryEngine`.
pub record QueryEngine (R : Type 0) : Type 0 where
  pub history : List Text
  pub epoch : ℕ
  pub pending : Bool
  pub running : Option ℕ
  pub running_since : Option ℕ
  pub last_reported_spinner_frame : Option ℕ
  pub last_outcome : Option (QueryOutcome R)
  pub outcomes : List (ℕ × QueryOutcome R)
  pub alive : Bool
  pub last_ping : ℕ
  pub ping_in_flight : Bool
  pub pings : List Bool

abbrev max_drain_per_tick : ℕ
max_drain_per_tick = 64

abbrev ping_interval : ℕ
ping_interval = 15000

abbrev spinner_frame_ms : ℕ
spinner_frame_ms = 80

module _ {R : Type 0} (execute : ℕ → ℕ → Text → Answer R)
    (browse_entry : ℕ → SchemaInfo → Answer R) where
  abbrev of_answer : Answer R → QueryOutcome R
  of_answer (ok r) = completed r
  of_answer (err e) = failed e

  abbrev of_last : Option R → QueryOutcome R
  of_last none = failed (text "nothing to run")
  of_last (some r) = completed r

  -- The loop of `submit_all`, from the statement at `index` on.
  unfoldable pub run_statements : ℕ → ℕ → ℕ → Option R → List Text → QueryOutcome R
  run_statements epoch total index last [] = of_last last
  run_statements epoch total index last (s ∷ statements) = elim (execute epoch index s) [
    | ok r ↦ run_statements epoch total (index + 1) (some r) statements
    | err e ↦ failed (
        text "statement "
        ++ (decimal (index + 1) ++ (text " of " ++ (decimal total ++ (text " failed: " ++ e)))))
  ]

  -- The outcome that a task sends.
  unfoldable pub outcome_of : ℕ → Job → QueryOutcome R
  unfolding run_statements
  outcome_of epoch (run_query q) = of_answer (execute epoch 0 q)
  outcome_of epoch (browse entry) = of_answer (browse_entry epoch entry)
  outcome_of epoch (run_all statements) = run_statements epoch (length statements) 0 none statements

-- The lines of the history that a job leaves.
abbrev lines_of : Job → List Text
lines_of (run_query q) = q ∷ []
lines_of (browse entry) = []
lines_of (run_all statements) = statements

abbrev same : Bool → Bool → Bool
same true b = b
same false b = not b

abbrev pub is_frame : ℕ → Option ℕ → Bool
is_frame frame none = false
is_frame frame (some f) = f == frame

-- `QueryEngine::new`
unfoldable pub new : {R : Type 0} → ℕ → QueryEngine R
new now = record {
  history = [];
  epoch = 0;
  pending = false;
  running = none;
  running_since = none;
  last_reported_spinner_frame = none;
  last_outcome = none;
  outcomes = [];
  alive = true;
  last_ping = now;
  ping_in_flight = false;
  pings = [];
}

module _ {R : Type 0} where
  -- What the three `submit_*` share: the new state; the task runs under the new epoch.
  unfoldable pub submit : ℕ → List Text → QueryEngine R → QueryEngine R
  submit now lines e = record e {
    epoch = e.epoch + 1;
    pending = true;
    running_since = some now;
    last_reported_spinner_frame = none;
    history = e.history ++ lines;
    running = some (e.epoch + 1);
  }

  -- `submit_query`, `submit_browse` and `submit_all`: the state, and the task that is spawned.
  unfoldable pub submit_job : ℕ → Job → QueryEngine R → QueryEngine R × (ℕ × Job)
  unfolding submit
  submit_job now job e = (submit now (lines_of job) e, (e.epoch + 1, job))

  -- `self.running.take()`, and the rest of `cancel`.
  abbrev pub abandon : Option ℕ → QueryEngine R → QueryEngine R × Bool
  abandon none e = (e, false)
  abandon (some handle) e = (
    record e {
      running = none;
      epoch = e.epoch + 1;
      pending = false;
      running_since = none;
      last_reported_spinner_frame = none;
      last_outcome = none;
    },
    true,
  )

  -- `cancel`: the state, and whether there was a query to abandon.
  unfoldable pub cancel : QueryEngine R → QueryEngine R × Bool
  cancel e = abandon e.running e

  unfoldable pub take_outcome : QueryEngine R → QueryEngine R × Option (QueryOutcome R)
  take_outcome e = (record e { last_outcome = none }, e.last_outcome)

  -- An outcome of the current epoch.
  abbrev pub accept : QueryOutcome R → QueryEngine R → QueryEngine R
  accept o e = record e {
    pending = false;
    running = none;
    running_since = none;
    last_reported_spinner_frame = none;
    last_outcome = some o;
  }

  -- The first loop of `tick`, over at most so many outcomes: the state, and whether it has changed.
  unfoldable pub drain : ℕ → List (ℕ × QueryOutcome R) → QueryEngine R → QueryEngine R
  drain zero sent e = record e { outcomes = sent }
  drain (suc n) [] e = record e { outcomes = [] }
  drain (suc n) ((epoch, o) ∷ sent) e =
      let accepted = drain n sent (accept o e) in
      let ignored = drain n sent e in if epoch == e.epoch then accepted else ignored

  -- Whether that loop accepts an outcome.
  unfoldable pub accepts : ℕ → List (ℕ × QueryOutcome R) → ℕ → Bool
  accepts zero sent current = false
  accepts (suc n) [] current = false
  accepts (suc n) ((epoch, o) ∷ sent) current = epoch == current || accepts n sent current

  -- The reply to a ping, if there is one: the state, and whether the connection's has changed.
  abbrev pub hear : List Bool → QueryEngine R → QueryEngine R × Bool
  hear [] e = (e, false)
  hear (alive ∷ pings) e =
      (record e { pings = pings; ping_in_flight = false; alive = alive }, not (same alive e.alive))

  unfoldable pub hear_ping : QueryEngine R → QueryEngine R × Bool
  hear_ping e = hear e.pings e

  unfoldable pub fire_ping : ℕ → QueryEngine R → QueryEngine R
  fire_ping now e = record e { ping_in_flight = true; last_ping = now }

  unfoldable pub ping_if_due : ℕ → QueryEngine R → QueryEngine R
  unfolding fire_ping
  ping_if_due now e =
      if not e.ping_in_flight && leb ping_interval (now - e.last_ping) then fire_ping now e else e

  abbrev pub spin_since : ℕ → Option ℕ → QueryEngine R → QueryEngine R × Bool
  spin_since now none e = (e, false)
  spin_since now (some since) e =
      let frame = (now - since) / spinner_frame_ms in
      if e.pending && not (is_frame frame e.last_reported_spinner_frame)
      then (record e { last_reported_spinner_frame = some frame }, true)
      else (e, false)

  unfoldable pub spin : ℕ → QueryEngine R → QueryEngine R × Bool
  spin now e = spin_since now e.running_since e

  unfoldable pub tick : ℕ → QueryEngine R → QueryEngine R × Bool
  unfolding drain accepts hear_ping ping_if_due spin
  tick now e =
      let drained = drain max_drain_per_tick e.outcomes e in
      let heard = hear_ping drained in
      let spun = spin now (ping_if_due now heard.0) in
      (spun.0, accepts max_drain_per_tick e.outcomes e.epoch || heard.1 || spun.1)
