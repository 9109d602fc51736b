-- ===== src/Common/Texts.antt =====
-- Texts: Go compares strings by `==` and `<`. A pointer to a string and a nil map are options.
use Prim.Native.String.{String, compare}
use mathlib.Core.Bool.{Bool}
use mathlib.Core.List.{List}
use text.Mathlib.Text.{is_lt}
pub use text.Mathlib.Text.{◌==◌}
pub use text.Mathlib.TextEquality.{eq_iff}
pub use text.Mathlib.TextPositions.{eq_refl}
use kube_freeze_operator.Common.Lists.{any}

-- Go's `a < b` on strings.
abbrev pub text_lt : String → String → Bool
text_lt a b = is_lt (compare a b)

-- Go's slices.Contains on strings.
abbrev pub contains : List String → String → Bool
contains xs a = any (λ x. x == a) xs
