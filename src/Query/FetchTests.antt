-- ===== src/Query/FetchTests.antt =====
-- Runs of the definitions of Query/Fetch, and its theorem at a stream that is cut.
use tradar.Base.{true, false, List, [], ◌∷◌, some, none, ◌≡◌, refl, Text, text}
use tradar.Query.Fetch.{with_max_rows, new_budget, read_rows, read_table}
use tradar.Query.Schema.{table}
use tradar.Query.Fetch.Budget.{Budgeted, read_rows-Budgeted}

abbrev stream : List (List Text)
stream = (text "1" ∷ []) ∷ (text "2" ∷ []) ∷ (text "3" ∷ []) ∷ []

clamped : with_max_rows 0 ≡ 1
unfolding with_max_rows
clamped = refl

two_of_three :
    read_table {J = Unit} (some 2) (text "id" ∷ []) stream
    ≡ table (text "id" ∷ []) ((text "1" ∷ []) ∷ (text "2" ∷ []) ∷ []) true
unfolding read_table
two_of_three = refl

whole_stream :
    read_table {J = Unit} none (text "id" ∷ []) stream ≡ table (text "id" ∷ []) stream false
unfolding read_table
whole_stream = refl

read_rows-Budgeted_example :
    let b = new_budget (some 2) in Budgeted b stream (read_rows b stream).0 (read_rows b stream).1
read_rows-Budgeted_example = read_rows-Budgeted (new_budget (some 2)) stream
