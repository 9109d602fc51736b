-- ===== src/Policy/Evaluator/Laws.antt =====
-- Evaluate against the policies and exceptions of the cluster.
use kube_freeze_operator.Common.{
  ℕ, ◌≤◌, ◌<◌, ◌≡◌, ◌↔◌, ◌⊎◌, refl, true, false, not, ◌||◌, Option, none, some, List, [], ◌∷◌, ◌++◌,
  any, Some, is_some, is_nil, filter_map, arith, any_iff_of, or_iff, and_not_iff, filter_map-is_nil,
  append-is_nil,
}
use kube_freeze_operator.Common.Dict.{Dict}
use kube_freeze_operator.Common.Results.{ok}
use kube_freeze_operator.Api.Objects.{ChangeFreeze, MaintenanceWindow, FreezeException}
use kube_freeze_operator.External.{Library, Reader}
use kube_freeze_operator.Policy.Types.{Input, Decision, PolicyRef}
use kube_freeze_operator.Policy.Selectors.{target_matches, action_in, constraints_pass}
use kube_freeze_operator.Policy.Candidates.{DenyCandidate, freeze_candidate, window_candidate}
use kube_freeze_operator.Policy.Candidates.Laws.{
  FreezeBlocks, WindowBlocks, freeze_candidate_iff, window_candidate_iff,
}
use kube_freeze_operator.Policy.Choice.{select_deny_candidate}
use kube_freeze_operator.Policy.Choice.Order.{select_deny_candidate-is_some}
use kube_freeze_operator.Policy.Evaluator.{
  get_namespace_labels, collect_change_freezes, collect_maintenance_windows,
  collect_deny_candidates, exception_applies, first_exception, check_exception_override,
  initial_decision, decide, with_now, evaluate,
}

-- An exception covers the request: its target and its actions do, in [activeFrom, activeTo), and its
-- constraints hold.
abbrev pub ExceptionCovers : Library → Input → Option Dict → FreezeException → Type 0
ExceptionCovers lib i ns_labels ex =
    (target_matches lib (some ex.spec.target) ns_labels i.object_labels i.kind ≡ true)
    × (action_in i.action ex.spec.allow ≡ true)
    × (ex.spec.active_from ≤ i.now)
    × (i.now < ex.spec.active_to)
    × (constraints_pass ex.spec.constraints i.object_labels i.username i.groups ≡ true)

exception_applies_iff :
    (lib : Library) (i : Input) (ns_labels : Option Dict) (ex : FreezeException)
    → (exception_applies lib i ns_labels ex ≡ true) ↔ ExceptionCovers lib i ns_labels ex
unfolding exception_applies
exception_applies_iff lib i ns_labels ex = ground arith

first_exception-is_some :
    (lib : Library) (i : Input) (ns_labels : Option Dict) (exs : List FreezeException)
    → is_some (first_exception lib i ns_labels exs) ≡ any (exception_applies lib i ns_labels) exs
unfolding first_exception
first_exception-is_some lib i ns_labels [] = refl
first_exception-is_some lib i ns_labels (ex ∷ exs) =
    ground (arith, first_exception-is_some lib i ns_labels exs)

-- All denials of the cluster, in the order in which they are collected.
abbrev pub denials :
    Library → Input → Option Dict → List ChangeFreeze → List MaintenanceWindow → List DenyCandidate
denials lib i ns_labels cfs mws =
    filter_map (freeze_candidate lib i ns_labels) cfs
    ++ filter_map (window_candidate lib i ns_labels) mws

-- Some policy denies the request.
abbrev pub IsBlocked :
    Library → Input → Option Dict → List ChangeFreeze → List MaintenanceWindow → Type 0
IsBlocked lib i ns_labels cfs mws =
    Some (FreezeBlocks lib i ns_labels) cfs ⊎ Some (WindowBlocks lib i ns_labels) mws

denials-is_nil :
    (lib : Library) (i : Input) (ns_labels : Option Dict) (cfs : List ChangeFreeze)
    (mws : List MaintenanceWindow)
    → not (is_nil (denials lib i ns_labels cfs mws)) ≡ (
        any (λ cf. is_some (freeze_candidate lib i ns_labels cf)) cfs
        || any (λ mw. is_some (window_candidate lib i ns_labels mw)) mws)
denials-is_nil lib i ns_labels cfs mws = ground (
  arith,
  append-is_nil (filter_map (freeze_candidate lib i ns_labels) cfs)
      (filter_map (window_candidate lib i ns_labels) mws),
  filter_map-is_nil (freeze_candidate lib i ns_labels) cfs,
  filter_map-is_nil (window_candidate lib i ns_labels) mws,
)

pub denials_iff :
    (lib : Library) (i : Input) (ns_labels : Option Dict) (cfs : List ChangeFreeze)
    (mws : List MaintenanceWindow)
    → (is_some (select_deny_candidate (denials lib i ns_labels cfs mws)) ≡ true)
      ↔ IsBlocked lib i ns_labels cfs mws
denials_iff lib i ns_labels cfs mws =
    rw (select_deny_candidate-is_some (denials lib i ns_labels cfs mws)) (
      rw (denials-is_nil lib i ns_labels cfs mws) (
        or_iff _ _ _ _ (any_iff_of _ _ (freeze_candidate_iff lib i ns_labels) cfs)
          (any_iff_of _ _ (window_candidate_iff lib i ns_labels) mws)))

decide-denies :
    (d : Decision) (chosen : Option DenyCandidate) (override : Option PolicyRef)
    → d.allowed ≡ true
    → ((decide d chosen override).allowed ≡ false)
      ↔ ((is_some chosen ≡ true) × (is_some override ≡ false))
unfolding decide
decide-denies d none override h = ground arith
decide-denies d (some c) none h = ground arith
decide-denies d (some c) (some o) h = ground arith

exceptions_iff :
    (lib : Library) (i : Input) (ns_labels : Option Dict) (exs : List FreezeException)
    → (is_some (first_exception lib i ns_labels exs) ≡ true)
      ↔ Some (ExceptionCovers lib i ns_labels) exs
exceptions_iff lib i ns_labels exs =
    rw (first_exception-is_some lib i ns_labels exs)
      (any_iff_of _ _ (exception_applies_iff lib i ns_labels) exs)

-- What the API server answered, and that the namespace's labels were found.
pub record Answers (lib : Library) (r : Reader) (i : Input) : Type 0 where
  pub ns_labels : Option Dict
  pub cfs : List ChangeFreeze
  pub mws : List MaintenanceWindow
  pub exs : List FreezeException
  pub labelled : get_namespace_labels r i ≡ ok ns_labels
  pub freezes_listed : r.list_change_freezes ≡ some cfs
  pub windows_listed : r.list_maintenance_windows ≡ some mws
  pub exceptions_listed : r.list_freeze_exceptions ≡ some exs

module _ (lib : Library) (r : Reader) (clock : ℕ) (i : Input)
    (a : Answers lib r (with_now clock i)) where
  pub evaluate-eq_decide :
      evaluate lib (some r) clock i
      ≡ ok (
          decide
            (initial_decision (with_now clock i))
            (select_deny_candidate (denials lib (with_now clock i) a.ns_labels a.cfs a.mws))
            (first_exception lib (with_now clock i) a.ns_labels a.exs))
  unfolding evaluate collect_deny_candidates collect_change_freezes collect_maintenance_windows
      check_exception_override
  evaluate-eq_decide = rw (a.labelled, a.freezes_listed, a.windows_listed, a.exceptions_listed)

  -- With every list at hand, Evaluate answers, and it denies exactly when some policy blocks the request
  -- and no exception covers it.
  pub evaluate_denies_iff :
      (d : Decision) × (evaluate lib (some r) clock i ≡ ok d)
      × ((d.allowed ≡ false) ↔ (
          IsBlocked lib (with_now clock i) a.ns_labels a.cfs a.mws
          × ¬ Some (ExceptionCovers lib (with_now clock i) a.ns_labels) a.exs))
  evaluate_denies_iff = (
    _,
    evaluate-eq_decide,
    and_not_iff _ _ _ _ _ (decide-denies (initial_decision (with_now clock i)) _ _ refl)
        (denials_iff lib (with_now clock i) a.ns_labels a.cfs a.mws)
        (exceptions_iff lib (with_now clock i) a.ns_labels a.exs),
  )
