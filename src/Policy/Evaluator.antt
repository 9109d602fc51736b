-- ===== src/Policy/Evaluator.antt =====
-- internal/policy/evaluator.go: which policies deny a request, which denial is reported, and whether
-- an exception overrides it.
pub mod Laws
pub mod Report
pub mod Bare
pub mod Later
pub mod Unordered
use kube_freeze_operator.Common.{
  ℕ, Bool, true, false, ◌||◌, not, Option, none, some, List, [], ◌∷◌, ◌++◌, ltb, filter_map,
  if◌then◌else◌,
}
use kube_freeze_operator.Common.Texts.{◌==◌}
use kube_freeze_operator.Common.Dict.{Dict}
use kube_freeze_operator.Common.Results.{Result, ok, err, or_fail, ◌>>=◌}
use kube_freeze_operator.Api.Kinds.{freeze_exception}
use kube_freeze_operator.Api.Objects.{FreezeException}
use kube_freeze_operator.External.{Library, Reader, is_zero_time}
use kube_freeze_operator.Policy.Types.{
  PolicyRef, Input, Decision, EvalError, client_required, namespace_required, get_namespace_failed,
  list_change_freezes_failed, list_windows_failed,
}
use kube_freeze_operator.Policy.Selectors.{target_matches, action_in, constraints_pass}
use kube_freeze_operator.Policy.Candidates.{DenyCandidate, freeze_candidate, window_candidate}
use kube_freeze_operator.Policy.Choice.{select_deny_candidate}

-- getNamespaceLabels.
unfoldable pub get_namespace_labels : Reader → Input → Result EvalError (Option Dict)
get_namespace_labels reader i = elim i.namespace_tags [
  | some tags ↦ ok (some tags)
  | none ↦
      if i.namespace == ""
      then err namespace_required
      else elim (reader.get_namespace i.namespace) [
        | none ↦ err (get_namespace_failed i.namespace)
        | some ns ↦ ok ns.labels
      ]
]

unfoldable pub collect_change_freezes :
    Library → Reader → Input → Option Dict → Result EvalError (List DenyCandidate)
collect_change_freezes lib reader i ns_labels = do
  items ← or_fail reader.list_change_freezes list_change_freezes_failed
  ok (filter_map (freeze_candidate lib i ns_labels) items)

unfoldable pub collect_maintenance_windows :
    Library → Reader → Input → Option Dict → Result EvalError (List DenyCandidate)
collect_maintenance_windows lib reader i ns_labels = do
  items ← or_fail reader.list_maintenance_windows list_windows_failed
  ok (filter_map (window_candidate lib i ns_labels) items)

unfoldable pub collect_deny_candidates :
    Library → Reader → Input → Option Dict → Result EvalError (List DenyCandidate)
collect_deny_candidates lib reader i ns_labels = do
  cf_denies ← collect_change_freezes lib reader i ns_labels
  mw_denies ← collect_maintenance_windows lib reader i ns_labels
  ok (cf_denies ++ mw_denies)

-- One round of checkExceptionOverride's loop.
unfoldable pub exception_applies : Library → Input → Option Dict → FreezeException → Bool
exception_applies lib i ns_labels ex =
    if not (target_matches lib (some ex.spec.target) ns_labels i.object_labels i.kind)
    then false
    else if not (action_in i.action ex.spec.allow)
    then false
    else if not (ltb i.now ex.spec.active_to) || ltb i.now ex.spec.active_from
    then false
    else if not (constraints_pass ex.spec.constraints i.object_labels i.username i.groups)
    then false
    else true

unfoldable pub first_exception :
    Library → Input → Option Dict → List FreezeException → Option PolicyRef
first_exception lib i ns_labels [] = none
first_exception lib i ns_labels (ex ∷ exs) =
    let rest = first_exception lib i ns_labels exs in
    if exception_applies lib i ns_labels ex
    then some (record { kind = freeze_exception; name = ex.name })
    else rest

-- checkExceptionOverride: a failing list is no override.
unfoldable pub check_exception_override : Library → Reader → Input → Option Dict → Option PolicyRef
check_exception_override lib reader i ns_labels = elim reader.list_freeze_exceptions [
  | none ↦ none
  | some items ↦ first_exception lib i ns_labels items
]

abbrev pub initial_decision : Input → Decision
initial_decision i = record {
  allowed = true;
  matched_policy = none;
  matched_override = none;
  reason = "";
  next_allowed_time = none;
  freeze_end_time = none;
  evaluation_time = i.now;
  evaluated_ns = i.namespace;
  evaluated_kind = i.kind;
  evaluated_action = i.action;
}

abbrev pub overridden : Decision → DenyCandidate → PolicyRef → Decision
overridden d chosen override = record d {
  allowed = true;
  matched_policy = some chosen.ref;
  matched_override = some override;
  reason = "Exception granted";
  next_allowed_time = chosen.next_allowed;
  freeze_end_time = chosen.freeze_end;
}

abbrev pub denied : Decision → DenyCandidate → Decision
denied d chosen = record d {
  allowed = false;
  matched_policy = some chosen.ref;
  reason = chosen.reason;
  next_allowed_time = chosen.next_allowed;
  freeze_end_time = chosen.freeze_end;
}

-- The end of Evaluate, from the denial that was chosen.
unfoldable pub decide : Decision → Option DenyCandidate → Option PolicyRef → Decision
decide d none override = d
decide d (some chosen) none = denied d chosen
decide d (some chosen) (some override) = overridden d chosen override

-- `if in.Now.IsZero() { in.Now = time.Now().UTC() }`.
abbrev pub with_now : ℕ → Input → Input
with_now clock i = if is_zero_time i.now then record i { now = clock } else i

-- Evaluate; `none` is a nil evaluator or client, and `clock` is what time.Now answers.
unfoldable pub evaluate : Library → Option Reader → ℕ → Input → Result EvalError Decision
evaluate lib none clock i = err client_required
evaluate lib (some reader) clock i = do
  let timed = with_now clock i
  ns_labels ← get_namespace_labels reader timed
  denies ← collect_deny_candidates lib reader timed ns_labels
  ok (
      decide (initial_decision timed) (select_deny_candidate denies)
        (check_exception_override lib reader timed ns_labels))
