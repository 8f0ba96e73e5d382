-- ===== src/Core/Tests.antt =====
-- Runs of the definitions of crates/tradar-core, and the theorems at inputs that exercise them.
use tradar.Base.{◌≡◌, inl, refl, arith}
use tradar.Core.VimList.{apply, half_page_down, up}
use tradar.Core.VimList.Keys.{InRange, apply-InRange}

-- A move up from behind the end of a list stays behind it.
up_from_outside : apply up 10 3 8 ≡ 9
unfolding apply
up_from_outside = refl

apply-InRange_example : InRange (apply half_page_down 1 3 20) 3
apply-InRange_example = apply-InRange half_page_down 1 3 20 (inl (omega arith))
