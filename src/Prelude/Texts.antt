-- ===== src/Prelude/Texts.antt =====
-- Equality of texts as a test.
use Prim.Native.String.{String}
use mathlib.Core.Path.{◌≡◌}
use mathlib.Core.Logic.{◌↔◌}
use mathlib.Core.Bool.{Bool, true}
use Prim.Native.String.{compare}
use text.Mathlib.Text.{◌==◌, is_le}
use text.Mathlib.TextEquality.{eq_iff}
use text.Mathlib.TextPositions.{eq_refl}

unfoldable pub same_text : String → String → Bool
same_text s t = s == t

pub same_text_iff : (s t : String) → (same_text s t ≡ true) ↔ (s ≡ t)
unfolding same_text
same_text_iff s t = eq_iff s t

pub same_text_refl : (s : String) → same_text s s ≡ true
unfolding same_text
same_text_refl s = eq_refl s

-- The order of texts.
unfoldable pub text_leb : String → String → Bool
text_leb s t = is_le (compare s t)
