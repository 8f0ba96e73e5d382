-- ===== src/Core/VimList/Keys.antt =====
-- A selection stays in its list, and `gg` goes to the top only when nothing comes between.
use tradar.Base.{
  ℕ, zero, suc, ◌≤◌, ◌<◌, Bool, true, false, not, ◌&&◌, some, ◌≡◌, ◌≢◌, ◌⊎◌, ◌↔◌, refl, inl, inr,
  arith, ◌==◌, ==_iff,
}
use tradar.Core.VimList.{
  VimMove, down, up, top, bottom, half_page_down, half_page_up, KeyCode, down_key, up_key, char,
  other_key, recognize, recognize_char, apply, half_page,
}

-- In the list, or 0 when there is none.
abbrev pub InRange : ℕ → ℕ → Type 0
InRange selected zero = selected ≡ 0
InRange selected (suc len) = selected ≤ len

half_page-pos : (visible_height : ℕ) → 1 ≤ half_page visible_height
unfolding half_page
half_page-pos visible_height = omega arith

-- A selection that is in its list, or 0 in an empty one, is so after every move; and a move down, to
-- the top or to the bottom of a list that is not empty brings any selection into it.
pub apply-InRange :
    (mv : VimMove) (selected len visible_height : ℕ)
    → InRange selected len ⊎ ((0 < len) × ((mv ≢ up) × (mv ≢ half_page_up)))
    → InRange (apply mv selected len visible_height) len
unfolding apply
apply-InRange down selected zero h (inl r) = r
apply-InRange down selected zero h (inr r) = absurd (omega (arith, r.0))
apply-InRange down selected (suc len) h r = omega arith
apply-InRange up selected zero h (inl r) = omega (arith, r)
apply-InRange up selected zero h (inr r) = absurd (omega (arith, r.0))
apply-InRange up selected (suc len) h (inl r) = omega (arith, r)
apply-InRange up selected (suc len) h (inr r) = absurd (r.1.0 refl)
apply-InRange top selected zero h r = refl
apply-InRange top selected (suc len) h r = omega arith
apply-InRange bottom selected zero h r = omega arith
apply-InRange bottom selected (suc len) h r = omega arith
apply-InRange half_page_down selected zero h (inl r) = r
apply-InRange half_page_down selected zero h (inr r) = absurd (omega (arith, r.0))
apply-InRange half_page_down selected (suc len) h r = omega arith
apply-InRange half_page_up selected zero h (inl r) = omega (arith, r)
apply-InRange half_page_up selected zero h (inr r) = absurd (omega (arith, r.0))
apply-InRange half_page_up selected (suc len) h (inl r) = omega (arith, r)
apply-InRange half_page_up selected (suc len) h (inr r) = absurd (r.1.1 refl)

-- Is it the key `g`?
abbrev pub is_g : KeyCode → Bool
is_g (char c) = c == b'g'
is_g _ = false

char-top :
    (c : ℕ) (control pending_g : Bool)
    → ((recognize_char c control pending_g).0 ≡ some top) ↔ ((c == b'g' && pending_g) ≡ true)
unfolding recognize_char
char-top c control pending_g = ground (arith, ==_iff c b'g')

char-waits :
    (c : ℕ) (control pending_g : Bool)
    → (recognize_char c control pending_g).1 ≡ (c == b'g' && not pending_g)
unfolding recognize_char
char-waits c control pending_g = ground (arith, ==_iff c b'g')

recognize-top :
    (k : KeyCode) (control pending_g : Bool)
    → ((recognize k control pending_g).0 ≡ some top) ↔ ((is_g k && pending_g) ≡ true)
unfolding recognize
recognize-top down_key control pending_g = ground arith
recognize-top up_key control pending_g = ground arith
recognize-top (char c) control pending_g = char-top c control pending_g
recognize-top other_key control pending_g = ground arith

recognize-waits :
    (k : KeyCode) (control pending_g : Bool)
    → (recognize k control pending_g).1 ≡ (is_g k && not pending_g)
unfolding recognize
recognize-waits down_key control pending_g = refl
recognize-waits up_key control pending_g = refl
recognize-waits (char c) control pending_g = char-waits c control pending_g
recognize-waits other_key control pending_g = refl

-- With no `g` waiting, two keys go to the top exactly if both are `g`; any other key in between
-- cancels the first one, and a third `g` in a row starts anew.
pub recognize_twice :
    (k1 k2 k3 : KeyCode) (control1 control2 control3 : Bool)
    → let after1 = (recognize k1 control1 false).1 in
      let after2 = (recognize k2 control2 after1).1 in
      (((recognize k2 control2 after1).0 ≡ some top) ↔ ((is_g k1 && is_g k2) ≡ true))
      × (((recognize k3 control3 after2).0 ≡ some top)
          ↔ ((not (is_g k1) && (is_g k2 && is_g k3)) ≡ true))
recognize_twice k1 k2 k3 control1 control2 control3 =
    let after1 = (recognize k1 control1 false).1 in
    let after2 = (recognize k2 control2 after1).1 in
    (
      ground (arith, recognize-top k2 control2 after1, recognize-waits k1 control1 false),
      ground (
        arith,
        recognize-top k3 control3 after2,
        recognize-waits k2 control2 after1,
        recognize-waits k1 control1 false,
      ),
    )
