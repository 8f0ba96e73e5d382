-- ===== src/Core/VimList.antt =====
-- crates/tradar-core/src/vim_list.rs: moving through a list with the keys of vim. A key is one of the
-- arrows, a character or another; the modifiers count by whether Control is held.
pub mod Keys
use tradar.Base.{
  ℕ, zero, suc, ◌+◌, ◌-◌, ◌/◌, min, max, Bool, true, false, ◌&&◌, ◌||◌, Option, none, some, ◌==◌,
  if◌then◌else◌,
}

pub data VimMove : Type 0 where
  down up top bottom half_page_down half_page_up : VimMove

pub data KeyCode : Type 0 where
  down_key up_key : KeyCode
  char : ℕ → KeyCode
  other_key : KeyCode

-- The `match` on a character, with the flag as it was: the move, and the new flag.
unfoldable pub recognize_char : ℕ → Bool → Bool → Option VimMove × Bool
recognize_char c control had_pending_g =
    if c == b'j'
    then (some down, false)
    else if c == b'k'
    then (some up, false)
    else if c == b'g'
    then (if had_pending_g then (some top, false) else (none, true))
    else if c == b'G'
    then (some bottom, false)
    else if c == b'd' && control
    then (some half_page_down, false)
    else if c == b'u' && control
    then (some half_page_up, false)
    else (none, false)

unfoldable pub recognize : KeyCode → Bool → Bool → Option VimMove × Bool
unfolding recognize_char
recognize down_key control pending_g = (some down, false)
recognize up_key control pending_g = (some up, false)
recognize (char c) control pending_g = recognize_char c control pending_g
recognize other_key control pending_g = (none, false)

unfoldable pub move_down_by : ℕ → ℕ → ℕ → ℕ
move_down_by selected zero delta = selected
move_down_by selected (suc len) delta = min (selected + delta) len

unfoldable pub move_up_by : ℕ → ℕ → ℕ
move_up_by selected delta = selected - delta

unfoldable pub half_page : ℕ → ℕ
half_page visible_height = max (visible_height / 2) 1

unfoldable pub apply : VimMove → ℕ → ℕ → ℕ → ℕ
unfolding move_down_by move_up_by half_page
apply down selected len visible_height = move_down_by selected len 1
apply up selected len visible_height = move_up_by selected 1
apply top selected len visible_height = 0
apply bottom selected len visible_height = len - 1
apply half_page_down selected len visible_height =
    move_down_by selected len (half_page visible_height)
apply half_page_up selected len visible_height = move_up_by selected (half_page visible_height)
