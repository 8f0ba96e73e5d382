-- ===== src/Workbench/Tests.antt =====
-- Runs of the definitions of crates/tradar-query-workbench, and the theorems at inputs that exercise
-- them.
use tradar.Base.{
  ◌+◌, if◌then◌else◌, ℕ, Bool, true, false, not, ◌&&◌, ◌||◌, List, [], ◌∷◌, map, Option, none, some,
  ◌≡◌, ◌≢◌, refl, arith, All, Text, text, lower, position, get_elem?, eq, trim,
}
use tradar.Query.Schema.{table}
use tradar.Workbench.Export.{to_csv, Exported, ok}
use tradar.Workbench.Export.Csv.{read_exported, read-to_csv}
use tradar.Workbench.Engine.{
  QueryOutcome, Answer, Job, run_query, run_all, outcome_of, completed, failed, submit_job,
  take_outcome, tick, new, run_statements,
}
use tradar.Workbench.Engine.{ok as answered, err as refused}
use tradar.Workbench.Engine.World.{World, submits, sends, ticks, Reach, here, more, having}
use tradar.Workbench.Engine.Latest.{start, take_outcome-latest}
use tradar.Workbench.Engine.Answered.{tick-Answered}
use tradar.Query.Schema.{SchemaInfo}
use tradar.Workbench.Filter.{parse, render}
use tradar.Workbench.Filter.Sound.{WellFormed, parse-WellFormed}

abbrev columns : List Text
columns = text "id" ∷ text "note" ∷ []

abbrev rows : List (List Text)
rows = (text "1" ∷ text "a, \"b\"\nc" ∷ []) ∷ (text "" ∷ text "plain" ∷ []) ∷ []

csv_of_rows :
    to_csv {J = Unit} (table columns rows false)
    ≡ ok (text "id,note\n1,\"a, \"\"b\"\"\nc\"\n,plain\n")
unfolding to_csv tradar.Workbench.Export.csv_line tradar.Workbench.Export.csv_lines
    tradar.Workbench.Export.csv_field tradar.Base.join tradar.Base.replace
csv_of_rows = refl

read-to_csv_example : read_exported (to_csv {J = Unit} (table columns rows false)) ≡ columns ∷ rows
read-to_csv_example =
    read-to_csv Unit columns rows false (λ e. ground (arith, e))
      ((λ e. ground (arith, e)), ((λ e. ground (arith, e)), tt))

abbrev filter_text : Text
filter_text = text "Note: big  deal AND 12:30 or id:7"

filter_rendered : render (parse lower filter_text columns) ≡ text "note:big deal AND 12:30 OR id:7"
unfolding render parse tradar.Base.split tradar.Base.is_whitespace eq tradar.Base.to_ascii_lowercase
    trim
filter_rendered = refl

parse-WellFormed_example : WellFormed lower columns (parse lower filter_text columns)
parse-WellFormed_example = parse-WellFormed lower columns filter_text

-- A driver that answers with the epoch, and refuses an empty statement.
abbrev execute : ℕ → ℕ → Text → Answer ℕ
execute epoch index [] = refused (text "empty")
execute epoch index (c ∷ cs) = answered epoch

abbrev browse_entry : ℕ → SchemaInfo → Answer ℕ
browse_entry epoch entry = answered epoch

-- A query is submitted, another one while it runs, and the first one answers.
abbrev first : World ℕ
first = record {
  engine = (submit_job 5 (run_query (text "a")) (new {R = ℕ} 0)).0;
  tasks = (submit_job 5 (run_query (text "a")) (new {R = ℕ} 0)).1 ∷ [];
  latest = some (run_query (text "a"));
}

abbrev sent : World ℕ
sent = record first {
  tasks = [];
  engine = record first.engine {
    outcomes = (1, outcome_of execute browse_entry 1 (run_query (text "a"))) ∷ [];
  };
}

abbrev shown : World ℕ
shown = record sent { engine = (tick 9 sent.engine).0 }

first-Reach : Reach execute browse_entry (start 0) first
first-Reach = more here (submits (start 0) 5 (run_query (text "a")))

sent-Reach : Reach execute browse_entry (start 0) sent
unfolding submit_job new
sent-Reach = more first-Reach (sends first [] [] 1 (run_query (text "a")) refl)

shown-Reach : Reach execute browse_entry (start 0) shown
shown-Reach = more sent-Reach (ticks sent 9)

take_outcome-latest_example :
    ((o : QueryOutcome ℕ)
      → shown.engine.pending ≡ false
      → (take_outcome shown.engine).1 ≡ some o
      → (job : Job) × (shown.latest ≡ some job)
        × (o ≡ outcome_of execute browse_entry shown.engine.epoch job))
    × (having shown.engine.epoch shown.tasks + having shown.engine.epoch shown.engine.outcomes
        ≡ (if shown.engine.pending then 1 else 0))
take_outcome-latest_example = take_outcome-latest execute browse_entry 0 shown-Reach

shown_outcome :
    (shown.engine.pending ≡ false) × ((take_outcome shown.engine).1 ≡ some (completed 1))
unfolding submit_job new tick take_outcome outcome_of
shown_outcome = (refl, refl)

script_stops :
    outcome_of execute browse_entry 1 (run_all (text "a" ∷ [] ∷ text "b" ∷ []))
    ≡ failed (text "statement 2 of 3 failed: empty")
unfolding outcome_of run_statements tradar.Base.decimal
script_stops = refl

one_sent : having sent.engine.epoch sent.engine.outcomes ≡ 1
unfolding submit_job new
one_sent = refl

tick-Answered_example :
    (o : QueryOutcome ℕ) × ((tick 9 sent.engine).0.pending ≡ false)
    × ((tick 9 sent.engine).0.last_outcome ≡ some o)
tick-Answered_example = tick-Answered 9 sent.engine one_sent (omega arith)
