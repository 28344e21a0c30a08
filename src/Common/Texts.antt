-- ===== src/Common/Texts.antt =====
-- Equality of Go strings, as a Boolean test.
use Prim.Native.String.{String}
use mathlib.Core.Path.{◌≡◌}
use mathlib.Core.Logic.{◌↔◌}
use mathlib.Core.Bool.{Bool, true}
use text.Mathlib.Text.{◌==◌ as text_eq}
use text.Mathlib.TextEquality.{eq_iff}

unfoldable pub same_text : String → String → Bool
same_text s t = text_eq s t

pub same_text_iff : (s t : String) → (same_text s t ≡ true) ↔ (s ≡ t)
unfolding same_text
same_text_iff s t = eq_iff s t
