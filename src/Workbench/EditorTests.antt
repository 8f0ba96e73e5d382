-- ===== src/Workbench/EditorTests.antt =====
-- Runs of the editor (Workbench/Editor), and its theorems at concrete inputs.
use tradar.Base.{
  true, some, length, ℕ, arith, Bool, false, List, [], ◌∷◌, ◌≡◌, refl, Text, text, join, len,
  strip_prefix, find, trim,
}
use tradar.Workbench.Editor.{
  QueryEditor, EditorMode, set_vim_enabled, Command, new, sql, set_text, buffer_text, set_cursor,
  undo_edit, redo_edit, foldable_ranges, vim_move, snapshot, checkpoint,
}
use tradar.Core.VimList.{VimMove}
use tradar.Workbench.Editor.Motions.{cursor}
use tradar.Workbench.Editor.Screen.{drawn, is_hidden}
use tradar.Workbench.Editor.Edits.{insert_at_cursor}
use tradar.Workbench.Editor.Find.Substitute.{substitute}
use tradar.Workbench.Editor.Find.{find_pattern, text_before_cursor}
use tradar.Workbench.Editor.Find.Everywhere.{Searched, find_pattern-Searched}
use tradar.Workbench.Editor.WellFormed.{WellFormed}
use tradar.Workbench.Editor.WellFormed.Handled.{forward_key-Sound}
use tradar.Workbench.Editor.WellFormed.Selecting.{Selecting}
use tradar.Workbench.Editor.WellFormed.Called.{Sound}
use tradar.Workbench.Editor.WellFormed.Reached.{
  Reached, at_start, text_set, key, shown, inserted, Reached-Sound,
}
use tradar.Workbench.Editor.WellFormed.History.{undo_edit-checkpoint, redo_edit-undo_edit}
use tradar.Workbench.Editor.Keys.{
  command, handle_normal_key, handle_insert_key, InsertKey, char, forward_key,
}

abbrev ascii : ℕ → Bool
ascii c = false

abbrev same_case : ℕ → ℕ
same_case c = c

abbrev keys : List Command → QueryEditor → QueryEditor
keys [] e = e
keys (c ∷ cs) e = keys cs (handle_normal_key ascii same_case (command c) e)

abbrev typed : Text → QueryEditor → QueryEditor
typed [] e = e
typed (c ∷ cs) e = typed cs (handle_insert_key ascii same_case (char c false) e)

abbrev words : QueryEditor
words = set_text (text "ab cd") new

word_deleted :
    buffer_text (keys (Command.operator_delete ∷ Command.word_forward ∷ []) words) ≡ text "cd"
unfolding buffer_text join handle_normal_key set_text new
word_deleted = refl

-- `dw` on the last word of a buffer leaves its last character.
last_word_remains :
    buffer_text (keys (Command.operator_delete ∷ Command.word_forward ∷ []) (set_cursor 0 3 words))
    ≡ text "ab d"
unfolding buffer_text join handle_normal_key set_cursor set_text new
last_word_remains = refl

brackets_close :
    buffer_text (typed (text "(a)") (keys (Command.enter_insert ∷ []) new)) ≡ text "(a)"
unfolding buffer_text join handle_insert_key handle_normal_key new
brackets_close = refl

edit_undone :
    buffer_text (keys (Command.delete_char ∷ Command.delete_char ∷ Command.undo ∷ []) words)
    ≡ text "b cd"
unfolding buffer_text join handle_normal_key set_text new
edit_undone = refl

abbrev two_lines : QueryEditor
two_lines = record (set_text (text "SELECT 1\nFROM t") new) { dialect = sql }

-- A fold that ends the buffer does not keep the cursor out.
hidden_row_reached :
    cursor (keys (Command.toggle_fold ∷ vim_move VimMove.down ∷ []) two_lines) ≡ (1, 0)
unfolding handle_normal_key set_text new join trim strip_prefix len
hidden_row_reached = refl

words-WellFormed : WellFormed words
unfolding set_text new
words-WellFormed = record {
  rowed = record { row_in = omega arith; undo_in = tt; redo_in = tt; register_in = tt };
  col_in = omega arith;
}

words-Selecting : Selecting words
unfolding set_text new
words-Selecting v = tt

-- `v` on a text that was loaded
abbrev selecting : QueryEditor
selecting = forward_key ascii same_case (command Command.enter_visual) InsertKey.other words

abbrev selecting_reached : Reached ascii same_case selecting
selecting_reached =
    key (command Command.enter_visual) InsertKey.other words (text_set (text "ab cd") new at_start)

-- A page of eleven rows, on which `Ctrl-d` is pressed, and a name is put in.
abbrev paged : QueryEditor
paged = insert_at_cursor ascii (text "t\nu") (
    forward_key ascii same_case (command (vim_move VimMove.half_page_down)) InsertKey.other
      (drawn ascii 12 selecting))

Reached-Sound_example : Sound paged
Reached-Sound_example = Reached-Sound ascii same_case paged (
    inserted (text "t\nu") _ (
      key (command (vim_move VimMove.half_page_down)) InsertKey.other (drawn ascii 12 selecting)
        (shown 12 selecting selecting_reached)))

abbrev repeated : QueryEditor
repeated = set_text (text "aaa b\nc\naab") new

first_ones_substituted :
    let r = substitute ascii (text "aa") (text "x") false true repeated in
    (r.0 ≡ 2) × (buffer_text r.1 ≡ text "xa b\nc\nxb") × (cursor r.1 ≡ (2, 0))
unfolding substitute buffer_text join set_text new find strip_prefix
first_ones_substituted = (refl, refl, refl)

all_substituted :
    let r = substitute ascii (text "a") (text "ba") true false repeated in
    (r.0 ≡ 3) × (buffer_text r.1 ≡ text "bababa b\nc\naab")
unfolding substitute buffer_text join set_text new find strip_prefix
all_substituted = (refl, refl)

substitute_undone :
    buffer_text (undo_edit (substitute ascii (text "a") (text "ba") true true repeated).1)
    ≡ buffer_text repeated
unfolding substitute buffer_text join set_text new undo_edit
substitute_undone = refl

abbrev cut_word : QueryEditor
cut_word = keys (Command.delete_char ∷ []) words

undo_edit-checkpoint_example : snapshot (undo_edit cut_word) ≡ snapshot words
unfolding set_text new handle_normal_key checkpoint
undo_edit-checkpoint_example = undo_edit-checkpoint ascii words cut_word words-WellFormed refl refl

cut_word-WellFormed : WellFormed cut_word
unfolding forward_key set_text new
cut_word-WellFormed =
    (forward_key-Sound ascii same_case (command Command.delete_char) InsertKey.other words
      (words-WellFormed, words-Selecting)).0

redo_edit-undo_edit_example : snapshot (redo_edit (undo_edit cut_word)) ≡ snapshot cut_word
unfolding set_text new handle_normal_key
redo_edit-undo_edit_example = redo_edit-undo_edit cut_word cut_word-WellFormed (λ e. cc)

abbrev two_words : List Text
two_words = text "ab" ∷ text "cd" ∷ []

abbrev below : QueryEditor
below = handle_insert_key ascii same_case InsertKey.escape (keys (Command.open_below ∷ []) words)

-- Undoing past the mode while something is selected can leave the other end of the selection out of the
-- buffer.
selection_left_behind :
    let e = undo_edit (keys (Command.enter_visual ∷ []) below) in
    (e.visual_anchor ≡ some (1, 0)) × (length e.lines ≡ 1)
unfolding undo_edit handle_normal_key handle_insert_key set_text new
selection_left_behind = (refl, refl)

-- A text that is loaded with vim mode off is in Normal mode.
pinned_mode_left : (set_text (text "ab") (set_vim_enabled false new)).mode ≡ EditorMode.normal
unfolding set_text set_vim_enabled new
pinned_mode_left = refl

-- `/CD`
pattern_found : cursor (find_pattern (text "CD") false words).1 ≡ (0, 3)
unfolding find_pattern set_text new
pattern_found = refl

find_pattern-Searched_example : Searched (text "CD") words (find_pattern (text "CD") true words)
find_pattern-Searched_example =
    find_pattern-Searched (text "CD") true words words-WellFormed (omega arith)

prefix_of_cursor : text_before_cursor (set_cursor 1 4 two_lines) ≡ text "SELECT 1\nFROM"
unfolding text_before_cursor set_cursor set_text new join
prefix_of_cursor = refl

-- A fold hides the second of five lines; the cursor is on the last one, the fourth that is visible.
abbrev folded_page : QueryEditor
folded_page = record (set_text (text "SELECT 1\nFROM t;\n\n\nSELECT 2") new) {
  dialect = sql;
  folded = 0 ∷ [];
  cursor_row = 4;
}

page_scrolled : (drawn ascii 3 folded_page).scroll ≡ 3
unfolding drawn is_hidden foldable_ranges buffer_text set_text new join trim strip_prefix len find
    tradar.Base.is_whitespace
page_scrolled = refl
