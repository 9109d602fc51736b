-- ===== src/Common/TextOrder.antt =====
-- Go's order on strings is a strict total order.
use Prim.Native.Char.{Char, code}
use Prim.Native.String.{String}
use Prim.Native.String.compare
use mathlib.Core.Path.{◌≡◌, refl}
use mathlib.Core.Bool.{true, false, ◌||◌, ◌&&◌}
use native.Mathlib.Omega.{arith}
use text.Mathlib.TextEquality.{Char-path}
use kube_freeze_operator.Common.Tests.{ltb, eqb}
use kube_freeze_operator.Common.Texts.{text_lt}

text_lt-cons :
    (c d : Char) (s t : String)
    → text_lt (String.◌∷◌ c s) (String.◌∷◌ d t)
      ≡ (ltb (code c) (code d) || (eqb (code c) (code d) && text_lt s t))
text_lt-cons c d s t = rw (compare.cons-cons c d s t) (ground arith)

text_lt-nil_cons : (d : Char) (t : String) → text_lt String.[] (String.◌∷◌ d t) ≡ true
text_lt-nil_cons d t = rw (compare.nil-cons d t)

text_lt-cons_nil : (c : Char) (s : String) → text_lt (String.◌∷◌ c s) String.[] ≡ false
text_lt-cons_nil c s = rw (compare.cons-nil c s)

text_lt-nil : (s : String) → text_lt s String.[] ≡ false
text_lt-nil String.[] = refl
text_lt-nil (String.◌∷◌ c s) = text_lt-cons_nil c s

pub text_lt_asymm : (s t : String) → text_lt s t ≡ true → text_lt t s ≡ false
text_lt_asymm String.[] String.[] h = refl
text_lt_asymm String.[] (String.◌∷◌ d t) h = text_lt-cons_nil d t
text_lt_asymm (String.◌∷◌ c s) String.[] h = absurd (cc (text_lt-cons_nil c s))
text_lt_asymm (String.◌∷◌ c s) (String.◌∷◌ d t) h =
    ground (arith, text_lt-cons c d s t, text_lt-cons d c t s, text_lt_asymm s t)

pub text_le_trans :
    (s t u : String) → text_lt t s ≡ false → text_lt u t ≡ false → text_lt u s ≡ false
text_le_trans String.[] t u h k = text_lt-nil u
text_le_trans (String.◌∷◌ c s) String.[] u h k = absurd (cc (text_lt-nil_cons c s))
text_le_trans (String.◌∷◌ c s) (String.◌∷◌ d t) String.[] h k = absurd (cc (text_lt-nil_cons d t))
text_le_trans (String.◌∷◌ c s) (String.◌∷◌ d t) (String.◌∷◌ e u) h k =
    ground
      (arith, text_lt-cons d c t s, text_lt-cons e d u t, text_lt-cons e c u s, text_le_trans s t u)

-- Two strings of which neither is less are equal.
pub text_lt_antisymm : (s t : String) → text_lt s t ≡ false → text_lt t s ≡ false → s ≡ t
text_lt_antisymm String.[] String.[] h k = refl
text_lt_antisymm String.[] (String.◌∷◌ d t) h k = absurd (cc (text_lt-nil_cons d t))
text_lt_antisymm (String.◌∷◌ c s) String.[] h k = absurd (cc (text_lt-nil_cons c s))
text_lt_antisymm (String.◌∷◌ c s) (String.◌∷◌ d t) h k =
    let codes : code c ≡ code d = ground (arith, text_lt-cons c d s t, text_lt-cons d c t s) in
    let there : text_lt s t ≡ false = ground (arith, text_lt-cons c d s t, codes) in
    let back : text_lt t s ≡ false = ground (arith, text_lt-cons d c t s, codes) in
    rw (Char-path c d codes, text_lt_antisymm s t there back)
