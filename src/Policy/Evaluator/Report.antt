-- ===== src/Policy/Evaluator/Report.antt =====
-- What a denial reports: the policy, its times and its reason; and how Evaluate fails.
use kube_freeze_operator.Common.{
  ℕ, ◌<◌, ◌≡◌, ◌≢◌, ◌↔◌, ◌⊎◌, inl, inr, refl, String, true, false, Option, none, some, List, Some,
  All, is_some, arith, Option-cases, All_at, All-append, filter_map-All, ◌∙◌, sym,
}
use kube_freeze_operator.Common.Dict.{Dict}
use kube_freeze_operator.Common.Texts.{eq_iff}
use kube_freeze_operator.Common.Results.{ok, is_err, Result-cases}
use kube_freeze_operator.Api.Kinds.{change_freeze, maintenance_window}
use kube_freeze_operator.Api.Objects.{ChangeFreeze, MaintenanceWindow}
use kube_freeze_operator.External.{Library, Reader}
use kube_freeze_operator.Policy.Types.{Input, Decision, PolicyRef}
use kube_freeze_operator.Policy.Selectors.{first_non_empty}
use kube_freeze_operator.Policy.Candidates.{DenyCandidate, freeze_candidate, window_candidate}
use kube_freeze_operator.Policy.Choice.{select_deny_candidate}
use kube_freeze_operator.Policy.Choice.Order.{NotAfter, select_deny_candidate_first}
use kube_freeze_operator.Policy.Evaluator.{
  get_namespace_labels, collect_change_freezes, collect_maintenance_windows,
  collect_deny_candidates, first_exception, check_exception_override, initial_decision, decide,
  with_now, evaluate,
}
use kube_freeze_operator.Policy.Evaluator.Laws.{
  Answers, denials, evaluate-eq_decide, IsBlocked, denials_iff,
}

-- A denial by a ChangeFreeze has the end of the freeze, still to come, as its next allowed time; a
-- denial by a MaintenanceWindow has no freeze end. Each has a reason.
pub record IsWellFormed (now : ℕ) (c : DenyCandidate) : Type 0 where
  pub has_reason : c.reason ≢ ""
  pub freeze_ends :
      (c.ref.kind ≡ change_freeze)
        × ((t : ℕ) × (c.freeze_end ≡ some t) × (c.next_allowed ≡ some t) × (now < t))
      ⊎ (c.ref.kind ≡ maintenance_window) × (c.freeze_end ≡ none)

first_non_empty-ne : (v fallback : String) → fallback ≢ "" → first_non_empty v fallback ≢ ""
unfolding first_non_empty
first_non_empty-ne v fallback h e = ground (arith, eq_iff v "", h)

freeze_text-ne : ◌≢◌ {A = String} "ChangeFreeze is active" ""
freeze_text-ne = ground (arith, eq_iff "ChangeFreeze is active" "")

window_text-ne : ◌≢◌ {A = String} "Outside maintenance window" ""
window_text-ne = ground (arith, eq_iff "Outside maintenance window" "")

freeze_candidate-IsWellFormed :
    (lib : Library) (i : Input) (ns_labels : Option Dict) (cf : ChangeFreeze) (c : DenyCandidate)
    → freeze_candidate lib i ns_labels cf ≡ some c
    → IsWellFormed i.now c
unfolding freeze_candidate
freeze_candidate-IsWellFormed lib i ns_labels cf c h = record {
  has_reason =
      ground
        (arith, first_non_empty-ne cf.spec.message.reason "ChangeFreeze is active" freeze_text-ne);
  freeze_ends = inl (ground arith, (cf.spec.end_time, ground arith, ground arith, ground arith));
}

window_candidate-IsWellFormed :
    (lib : Library) (i : Input) (ns_labels : Option Dict) (mw : MaintenanceWindow)
    (c : DenyCandidate)
    → window_candidate lib i ns_labels mw ≡ some c
    → IsWellFormed i.now c
unfolding window_candidate
window_candidate-IsWellFormed lib i ns_labels mw c h = record {
  has_reason = ground (
    arith,
    first_non_empty-ne mw.spec.message.reason "Outside maintenance window" window_text-ne,
  );
  freeze_ends = inr (ground arith, ground arith);
}

pub denials-IsWellFormed :
    (lib : Library) (i : Input) (ns_labels : Option Dict) (cfs : List ChangeFreeze)
    (mws : List MaintenanceWindow)
    → All (IsWellFormed i.now) (denials lib i ns_labels cfs mws)
denials-IsWellFormed lib i ns_labels cfs mws =
    All-append (IsWellFormed i.now) _ _
      (filter_map-All _ _ (freeze_candidate-IsWellFormed lib i ns_labels) cfs)
      (filter_map-All _ _ (window_candidate-IsWellFormed lib i ns_labels) mws)

decide-report :
    (d : Decision) (chosen : Option DenyCandidate) (override : Option PolicyRef)
    → d.allowed ≡ true
    → d.matched_override ≡ none
    → (decide d chosen override).allowed ≡ false
    → (c : DenyCandidate) × (chosen ≡ some c)
      × (decide d chosen override ≡ record d {
        allowed = false;
        matched_policy = some c.ref;
        matched_override = none;
        reason = c.reason;
        next_allowed_time = c.next_allowed;
        freeze_end_time = c.freeze_end;
      })
unfolding decide
decide-report d none override h o e = absurd (cc)
decide-report d (some c) none h o e = (c, refl, ground arith)
decide-report d (some c) (some x) h o e = absurd (cc)

module _ (lib : Library) (r : Reader) (clock : ℕ) (i : Input) (a : Answers lib r (with_now clock i))
    (d : Decision) (answered : evaluate lib (some r) clock i ≡ ok d)
    (is_denied : d.allowed ≡ false) where
  -- With every list at hand, a denial reports one of the collected denials: every collected one has
  -- a later next allowed time, or none, or the same and a name that is not smaller; and it names no
  -- exception.
  pub evaluate_reports_first :
      (c : DenyCandidate) × Some
        (λ x. x ≡ c)
        (denials lib (with_now clock i) a.ns_labels a.cfs a.mws)
      × All (NotAfter c) (denials lib (with_now clock i) a.ns_labels a.cfs a.mws)
      × (d ≡ record (initial_decision (with_now clock i)) {
        allowed = false;
        matched_policy = some c.ref;
        matched_override = none;
        reason = c.reason;
        next_allowed_time = c.next_allowed;
        freeze_end_time = c.freeze_end;
      })
  evaluate_reports_first =
      let e = evaluate-eq_decide lib r clock i a in
      let same : decide (initial_decision (with_now clock i))
            (select_deny_candidate (denials lib (with_now clock i) a.ns_labels a.cfs a.mws))
            (first_exception lib (with_now clock i) a.ns_labels a.exs)
          ≡ d =
        cc in
      let (c, chosen, report) =
        decide-report (initial_decision (with_now clock i)) _ _ refl refl (rw same is_denied) in
      let (m, f) = select_deny_candidate_first _ c chosen in (c, m, f, sym same ∙ report)

  -- With every list at hand, a denial has a reason, and a freeze end time, if it reports one, still
  -- to come and equal to the next allowed time; it reports one exactly when the policy is a
  -- ChangeFreeze.
  pub evaluate_report-IsWellFormed :
      (d.reason ≢ "")
      × (p : PolicyRef) × (d.matched_policy ≡ some p)
      × ((p.kind ≡ change_freeze)
            × ((t : ℕ) × (d.freeze_end_time ≡ some t)
                × (d.next_allowed_time ≡ some t)
                × ((with_now clock i).now < t))
          ⊎ (p.kind ≡ maintenance_window) × (d.freeze_end_time ≡ none))
  evaluate_report-IsWellFormed =
      let (c, m, f, e) = evaluate_reports_first in
      let w =
        All_at (IsWellFormed (with_now clock i).now) c _
          (denials-IsWellFormed lib (with_now clock i) a.ns_labels a.cfs a.mws) m in
      rw e (w.has_reason, c.ref, refl, w.freeze_ends)

-- With a client, Evaluate fails exactly when the namespace's labels cannot be found, or the
-- ChangeFreezes or the MaintenanceWindows cannot be listed; a failing list of exceptions is no failure.
pub evaluate_fails_iff :
    (lib : Library) (r : Reader) (clock : ℕ) (i : Input)
    → (is_err (evaluate lib (some r) clock i) ≡ true) ↔ (
        (is_err (get_namespace_labels r (with_now clock i)) ≡ true)
        ⊎ (r.list_change_freezes ≡ none)
        ⊎ (r.list_maintenance_windows ≡ none))
unfolding evaluate collect_deny_candidates collect_change_freezes collect_maintenance_windows
evaluate_fails_iff lib r clock i = elim (Result-cases (get_namespace_labels r (with_now clock i))) [
  | inl (e, bad) ↦ rw bad (λ _. inl refl, λ _. refl)
  | inr (labels, good) ↦ rw good (elim (Option-cases r.list_change_freezes) [
    | inl cf ↦ rw cf (λ _. inr (inl refl), λ _. refl)
    | inr (cfs, cf) ↦ rw cf (elim (Option-cases r.list_maintenance_windows) [
      | inl mw ↦ rw mw (λ _. inr (inr refl), λ _. refl)
      | inr (mws, mw) ↦ rw mw (λ h. absurd (cc), λ h. absurd (ground arith))
    ])
  ])
]

decide-denies_unexcused :
    (d : Decision) (chosen : Option DenyCandidate)
    → d.allowed ≡ true
    → ((decide d chosen none).allowed ≡ false) ↔ (is_some chosen ≡ true)
unfolding decide
decide-denies_unexcused d none h = ground arith
decide-denies_unexcused d (some c) h = ground arith

-- If the exceptions cannot be listed, no exception is granted: with the other lists at hand, Evaluate
-- denies exactly the requests that some policy blocks.
pub evaluate_without_exceptions :
    (lib : Library) (r : Reader) (clock : ℕ) (i : Input) (ns_labels : Option Dict)
    (cfs : List ChangeFreeze) (mws : List MaintenanceWindow)
    → get_namespace_labels r (with_now clock i) ≡ ok ns_labels
    → r.list_change_freezes ≡ some cfs
    → r.list_maintenance_windows ≡ some mws
    → r.list_freeze_exceptions ≡ none
    → (d : Decision) × (evaluate lib (some r) clock i ≡ ok d)
      × ((d.allowed ≡ false) ↔ IsBlocked lib (with_now clock i) ns_labels cfs mws)
unfolding evaluate collect_deny_candidates collect_change_freezes collect_maintenance_windows
    check_exception_override
evaluate_without_exceptions lib r clock i ns_labels cfs mws l c m x =
    let timed = with_now clock i in
    let chosen = select_deny_candidate (denials lib timed ns_labels cfs mws) in
    let denies = decide-denies_unexcused (initial_decision timed) chosen refl in
    let blocked = denials_iff lib timed ns_labels cfs mws in
    (
      decide (initial_decision timed) chosen none,
      rw (l, c, m, x),
      (λ h. blocked.0 (denies.0 h), λ h. denies.1 (blocked.1 h)),
    )
