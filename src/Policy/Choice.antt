-- ===== src/Policy/Choice.antt =====
-- internal/policy/evaluator.go: which of several denials is reported.
pub mod Order
use kube_freeze_operator.Common.{
  ℕ, Bool, true, false, not, Option, none, some, List, [], ◌∷◌, ltb, eqb, if◌then◌else◌,
}
use kube_freeze_operator.Common.Texts.{text_lt}
use kube_freeze_operator.Policy.Candidates.{DenyCandidate}

-- The comparison that sort.SliceStable is given: the times where both are there and differ, a missing
-- time last, and else the names.
abbrev pub time_less : Option ℕ → Option ℕ → Bool → Bool
time_less (some s) (some t) by_name = if not (eqb s t) then ltb s t else by_name
time_less (some s) none by_name = true
time_less none (some t) by_name = false
time_less none none by_name = by_name

unfoldable pub deny_less : DenyCandidate → DenyCandidate → Bool
deny_less a b =
    time_less a.next_allowed b.next_allowed (text_lt a.deterministic_id b.deterministic_id)

-- A stable sort by insertion: an entry goes before those that are not less than it.
unfoldable pub insert : DenyCandidate → List DenyCandidate → List DenyCandidate
insert x [] = x ∷ []
insert x (y ∷ ys) = let rest = insert x ys in if deny_less y x then y ∷ rest else x ∷ y ∷ ys

unfoldable pub sort_stable : List DenyCandidate → List DenyCandidate
sort_stable [] = []
sort_stable (x ∷ xs) = insert x (sort_stable xs)

abbrev pub first : List DenyCandidate → Option DenyCandidate
first [] = none
first (x ∷ xs) = some x

-- `matchedDenies[0]` of the sorted slice; `none` is the panic on an empty one.
unfoldable pub select_deny_candidate : List DenyCandidate → Option DenyCandidate
select_deny_candidate denies = first (sort_stable denies)
