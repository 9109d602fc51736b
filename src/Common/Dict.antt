-- ===== src/Common/Dict.antt =====
-- Go's map[string]string: a list of keys and values, read from the front. A missing key reads "".
use kube_freeze_operator.Common.Tests.{if◌then◌else◌}
use Prim.Native.String.{String}
use mathlib.Core.Path.{◌≡◌, refl}
use mathlib.Core.List.{List, [], ◌∷◌}
use native.Mathlib.Omega.{arith}
use kube_freeze_operator.Common.Texts.{◌==◌, eq_iff}

abbrev pub Dict : Type 0
Dict = List (String × String)

abbrev pub get : String → Dict → String
get k [] = ""
get k ((j, v) ∷ m) = if j == k then v else get k m

abbrev pub put : String → String → Dict → Dict
put k v [] = (k, v) ∷ []
put k v ((j, w) ∷ m) = if j == k then (k, v) ∷ m else (j, w) ∷ put k v m

abbrev pub delete : String → Dict → Dict
delete k [] = []
delete k ((j, w) ∷ m) = let rest = delete k m in if j == k then rest else (j, w) ∷ rest

pub get-put : (k j v : String) (m : Dict) → get j (put k v m) ≡ (if k == j then v else get j m)
get-put k j v [] = refl
get-put k j v ((i, w) ∷ m) = ground (arith, eq_iff k j, eq_iff i k, eq_iff i j, get-put k j v m)

pub get-delete : (k j : String) (m : Dict) → get j (delete k m) ≡ (if k == j then "" else get j m)
get-delete k j [] = ground arith
get-delete k j ((i, w) ∷ m) = ground (arith, eq_iff k j, eq_iff i k, eq_iff i j, get-delete k j m)
