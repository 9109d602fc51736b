-- ===== src/Policy/Selectors.antt =====
-- internal/policy/selectors.go and the tests of evaluator.go on a request: selectors, kinds, actions
-- and the constraints of an exception.
use kube_freeze_operator.Common.{
  String, Bool, true, false, ◌&&◌, not, Option, none, some, List, [], ◌∷◌, any, if◌then◌else◌,
}
use kube_freeze_operator.Common.Texts.{◌==◌, contains}
use kube_freeze_operator.Common.Dict.{Dict, get}
use kube_freeze_operator.Api.Kinds.{Action, TargetKind, action_eq, kind_eq}
use kube_freeze_operator.Api.Specs.{LabelSelector, TargetSpec, ConstraintsSpec}
use kube_freeze_operator.External.{Library}

-- labels.Set of a nil map reads as an empty map.
abbrev pub label_set : Option Dict → Dict
label_set none = []
label_set (some m) = m

-- matchLabelSelector: `none` is the error of a selector that does not parse.
unfoldable pub match_label_selector : Library → Option LabelSelector → Option Dict → Option Bool
match_label_selector lib none labels = some true
match_label_selector lib (some sel) labels = elim (lib.as_selector sel) [
  | none ↦ none
  | some matches ↦ some (matches (label_set labels))
]

-- `err != nil || !ok` is a failure.
abbrev pub passes : Option Bool → Bool
passes none = false
passes (some b) = b

unfoldable pub target_matches :
    Library → Option TargetSpec → Option Dict → Option Dict → TargetKind → Bool
target_matches lib none ns_labels object_labels kind = false
target_matches lib (some t) ns_labels object_labels kind =
    if not (any (λ k. kind_eq k kind) t.kinds)
    then false
    else if not (passes (match_label_selector lib t.namespace_selector ns_labels))
    then false
    else if not (passes (match_label_selector lib t.object_selector object_labels))
    then false
    else true

unfoldable pub action_in : Action → List Action → Bool
action_in a list = any (λ b. action_eq b a) list

unfoldable pub first_non_empty : String → String → String
first_non_empty v fallback = if not (v == "") then v else fallback

-- The loop over the required labels; `objLabels[k]` of a missing key is "".
unfoldable pub has_labels : Dict → Option Dict → Bool
has_labels [] labels = true
has_labels ((k, v) ∷ required) none = false
has_labels ((k, v) ∷ required) (some labels) =
    let rest = has_labels required (some labels) in if not (get k labels == v) then false else rest

unfoldable pub is_empty {ℓ} : {A : Type ℓ} → List A → Bool
is_empty [] = true
is_empty (x ∷ xs) = false

unfoldable pub constraints_pass : Option ConstraintsSpec → Option Dict → String → List String → Bool
unfolding has_labels is_empty
constraints_pass none labels username groups = true
constraints_pass (some c) labels username groups =
    if not (has_labels c.require_labels labels)
    then false
    else if not (is_empty c.allowed_users) && not (contains c.allowed_users username)
    then false
    else if not (is_empty c.allowed_groups)
    then any (λ want. contains groups want) c.allowed_groups
    else true
