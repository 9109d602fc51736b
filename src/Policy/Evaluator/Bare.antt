-- ===== src/Policy/Evaluator/Bare.antt =====
-- internal/policy/evaluator.go on a request without its object and its user, as the CI helper asks.
use kube_freeze_operator.Common.{
  ℕ, ◌≡◌, refl, false, Option, none, some, List, [], ◌∷◌, All, filter_map, ap, Bool-cases,
  Option-cases, inl, inr,
}
use kube_freeze_operator.Common.Dict.{Dict}
use kube_freeze_operator.Common.Texts.{◌==◌}
use kube_freeze_operator.Common.Results.{Result, ok, or_fail, ◌>>=◌}
use kube_freeze_operator.Api.Kinds.{TargetKind}
use kube_freeze_operator.Api.Specs.{TargetSpec}
use kube_freeze_operator.Api.Objects.{ChangeFreeze, MaintenanceWindow, FreezeException, Namespace}
use kube_freeze_operator.External.{Library, Reader, is_zero_time}
use kube_freeze_operator.Policy.Types.{
  Input, Decision, PolicyRef, EvalError, list_change_freezes_failed, list_windows_failed,
}
use kube_freeze_operator.Policy.Selectors.{target_matches, match_label_selector, constraints_pass}
use kube_freeze_operator.Policy.Candidates.{freeze_candidate, window_candidate}
use kube_freeze_operator.Policy.Choice.{select_deny_candidate}
use kube_freeze_operator.Policy.Evaluator.{
  get_namespace_labels, collect_change_freezes, collect_maintenance_windows,
  collect_deny_candidates, exception_applies, first_exception, check_exception_override,
  initial_decision, decide, evaluate,
}

-- The request without its object's labels, its user and its groups, and without the namespace's labels.
abbrev pub anonymous : Input → Input
anonymous i = record i { namespace_tags = none; object_labels = none; username = ""; groups = [] }

-- A policy that selects no objects, and an exception that also has no constraints.
abbrev pub SelectsNoObjects : TargetSpec → Type 0
SelectsNoObjects t = t.object_selector ≡ none

abbrev pub FreezeIsPlain : ChangeFreeze → Type 0
FreezeIsPlain cf = SelectsNoObjects cf.spec.target

abbrev pub WindowIsPlain : MaintenanceWindow → Type 0
WindowIsPlain mw = SelectsNoObjects mw.spec.target

abbrev pub ExceptionIsPlain : FreezeException → Type 0
ExceptionIsPlain ex = SelectsNoObjects ex.spec.target × (ex.spec.constraints ≡ none)

target_matches-plain :
    (lib : Library) (t : TargetSpec) (ns_labels labels : Option Dict) (kind : TargetKind)
    → SelectsNoObjects t
    → target_matches lib (some t) ns_labels labels kind
      ≡ target_matches lib (some t) ns_labels none kind
unfolding target_matches match_label_selector
target_matches-plain lib t ns_labels labels kind h = rw h

freeze_candidate-plain :
    (lib : Library) (i : Input) (ns_labels : Option Dict) (cf : ChangeFreeze)
    → FreezeIsPlain cf
    → freeze_candidate lib i ns_labels cf ≡ freeze_candidate lib (anonymous i) ns_labels cf
unfolding freeze_candidate
freeze_candidate-plain lib i ns_labels cf h =
    rw (target_matches-plain lib cf.spec.target ns_labels i.object_labels i.kind h)

window_candidate-plain :
    (lib : Library) (i : Input) (ns_labels : Option Dict) (mw : MaintenanceWindow)
    → WindowIsPlain mw
    → window_candidate lib i ns_labels mw ≡ window_candidate lib (anonymous i) ns_labels mw
unfolding window_candidate
window_candidate-plain lib i ns_labels mw h =
    rw (target_matches-plain lib mw.spec.target ns_labels i.object_labels i.kind h)

exception_applies-plain :
    (lib : Library) (i : Input) (ns_labels : Option Dict) (ex : FreezeException)
    → ExceptionIsPlain ex
    → exception_applies lib i ns_labels ex ≡ exception_applies lib (anonymous i) ns_labels ex
unfolding exception_applies constraints_pass
exception_applies-plain lib i ns_labels ex h =
    rw (target_matches-plain lib ex.spec.target ns_labels i.object_labels i.kind h.0, h.1)

filter_map-plain :
    {A B : Type 0} (f g : A → Option B) (P : A → Type 0) (xs : List A)
    → ((x : A) → P x → f x ≡ g x)
    → All P xs
    → filter_map f xs ≡ filter_map g xs
filter_map-plain f g P [] same h = refl
filter_map-plain f g P (x ∷ xs) same h = rw (same x h.0, filter_map-plain f g P xs same h.1)

first_exception-plain :
    (lib : Library) (i : Input) (ns_labels : Option Dict) (exs : List FreezeException)
    → All ExceptionIsPlain exs
    → first_exception lib i ns_labels exs ≡ first_exception lib (anonymous i) ns_labels exs
unfolding first_exception
first_exception-plain lib i ns_labels [] h = refl
first_exception-plain lib i ns_labels (ex ∷ exs) h =
    rw (
      exception_applies-plain lib i ns_labels ex h.0,
      first_exception-plain lib i ns_labels exs h.1,
    )

-- Every listed policy and exception is plain.
abbrev pub AllPlain : {A : Type 0} → (A → Type 0) → Option (List A) → Type 0
AllPlain P none = Unit
AllPlain P (some xs) = All P xs

pub record PoliciesArePlain (r : Reader) : Type 0 where
  pub freezes : AllPlain FreezeIsPlain r.list_change_freezes
  pub windows : AllPlain WindowIsPlain r.list_maintenance_windows
  pub exceptions : AllPlain ExceptionIsPlain r.list_freeze_exceptions

collect-plain :
    {A B : Type 0} (f g : A → Option B) (P : A → Type 0) (o : Option (List A)) (e : EvalError)
    → ((x : A) → P x → f x ≡ g x)
    → AllPlain P o
    → (or_fail o e >>= λ xs. ok (filter_map f xs)) ≡ (or_fail o e >>= λ xs. ok (filter_map g xs))
collect-plain f g P none e same h = refl
collect-plain f g P (some xs) e same h = ap ok (filter_map-plain f g P xs same h)

override-plain :
    (lib : Library) (i : Input) (ns_labels : Option Dict) (o : Option (List FreezeException))
    → AllPlain ExceptionIsPlain o
    → (elim o as (λ _. Option PolicyRef) [
      | none ↦ none
      | some items ↦ first_exception lib i ns_labels items
    ])
      ≡ (elim o as (λ _. Option PolicyRef) [
        | none ↦ none
        | some items ↦ first_exception lib (anonymous i) ns_labels items
      ])
override-plain lib i ns_labels none h = refl
override-plain lib i ns_labels (some exs) h = first_exception-plain lib i ns_labels exs h

-- Evaluate from the point where the time is set.
abbrev timed_evaluation : Library → Reader → Input → Result EvalError Decision
timed_evaluation lib r i = do
  ns_labels ← get_namespace_labels r i
  denies ← collect_deny_candidates lib r i ns_labels
  ok (
      decide (initial_decision i) (select_deny_candidate denies)
        (check_exception_override lib r i ns_labels))

module _ (lib : Library) (r : Reader) (plain : PoliciesArePlain r) (i : Input) where
  collect_deny_candidates-plain :
      (ns_labels : Option Dict)
      → collect_deny_candidates lib r i ns_labels
        ≡ collect_deny_candidates lib r (anonymous i) ns_labels
  unfolding collect_deny_candidates collect_change_freezes collect_maintenance_windows
  collect_deny_candidates-plain ns_labels = rw (
    collect-plain (freeze_candidate lib i ns_labels) (freeze_candidate lib (anonymous i) ns_labels)
        FreezeIsPlain r.list_change_freezes list_change_freezes_failed
        (freeze_candidate-plain lib i ns_labels) plain.freezes,
    collect-plain (window_candidate lib i ns_labels) (window_candidate lib (anonymous i) ns_labels)
        WindowIsPlain r.list_maintenance_windows list_windows_failed
        (window_candidate-plain lib i ns_labels) plain.windows,
  )

  check_exception_override-plain :
      (ns_labels : Option Dict)
      → check_exception_override lib r i ns_labels
        ≡ check_exception_override lib r (anonymous i) ns_labels
  unfolding check_exception_override
  check_exception_override-plain ns_labels =
      override-plain lib i ns_labels r.list_freeze_exceptions plain.exceptions

  namespace-anonymous :
      (ns : Namespace)
      → (i.namespace == "") ≡ false
      → r.get_namespace i.namespace ≡ some ns
      → i.namespace_tags ≡ ns.labels
      → (get_namespace_labels r i ≡ ok ns.labels)
        × (get_namespace_labels r (anonymous i) ≡ ok ns.labels)
  unfolding get_namespace_labels
  namespace-anonymous ns n g t = elim (Option-cases ns.labels) [
    | inl e ↦ (rw (get_namespace_labels, t, e, n, g, e), rw (get_namespace_labels, n, g))
    | inr (m, e) ↦ (rw (get_namespace_labels, t, e), rw (get_namespace_labels, n, g))
  ]

  timed_evaluation-anonymous :
      (ns : Namespace)
      → (i.namespace == "") ≡ false
      → r.get_namespace i.namespace ≡ some ns
      → i.namespace_tags ≡ ns.labels
      → timed_evaluation lib r i ≡ timed_evaluation lib r (anonymous i)
  timed_evaluation-anonymous ns n g t =
      let (p, q) = namespace-anonymous ns n g t in
      rw (p, q, collect_deny_candidates-plain ns.labels, check_exception_override-plain ns.labels)

-- If no policy and no exception selects by the labels of the object and no exception has constraints,
-- the evaluation of a request with its namespace's labels does not depend on its object and its user.
pub evaluate-anonymous :
    (lib : Library) (r : Reader) (clock : ℕ) (i : Input) (ns : Namespace)
    → PoliciesArePlain r
    → (i.namespace == "") ≡ false
    → r.get_namespace i.namespace ≡ some ns
    → i.namespace_tags ≡ ns.labels
    → evaluate lib (some r) clock i ≡ evaluate lib (some r) clock (anonymous i)
unfolding evaluate
evaluate-anonymous lib r clock i ns plain n g t = elim (Bool-cases (is_zero_time i.now)) [
  | inl e ↦ rw e (timed_evaluation-anonymous lib r plain (record i { now = clock }) ns n g t)
  | inr e ↦ rw e (timed_evaluation-anonymous lib r plain i ns n g t)
]
