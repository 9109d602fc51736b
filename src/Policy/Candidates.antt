-- ===== src/Policy/Candidates.antt =====
-- internal/policy/evaluator.go: the denials of one ChangeFreeze and of one MaintenanceWindow.
pub mod Laws
use kube_freeze_operator.Common.{
  ℕ, String, Bool, true, false, ◌||◌, not, Option, none, some, List, [], ◌∷◌, ltb, if◌then◌else◌,
}
use kube_freeze_operator.Common.Dict.{Dict}
use kube_freeze_operator.Common.Results.{Result, ok, err}
use kube_freeze_operator.Api.Kinds.{change_freeze, maintenance_window, is_deny_outside}
use kube_freeze_operator.Api.Specs.{PolicyBehaviorSpec, WindowSpec}
use kube_freeze_operator.Api.Objects.{ChangeFreeze, MaintenanceWindow}
use kube_freeze_operator.External.{Library}
use kube_freeze_operator.Policy.Types.{PolicyRef, Input}
use kube_freeze_operator.Policy.Selectors.{target_matches, action_in, first_non_empty}
use kube_freeze_operator.Policy.Window.{EvaluatedWindow, WindowError, eval_cron_window}

pub record DenyCandidate : Type 0 where
  pub ref : PolicyRef
  pub reason : String
  pub next_allowed : Option ℕ
  pub freeze_end : Option ℕ
  pub behavior : PolicyBehaviorSpec
  pub deterministic_id : String

-- The body of the loop in collectChangeFreezes; `none` is `continue`.
unfoldable pub freeze_candidate :
    Library → Input → Option Dict → ChangeFreeze → Option DenyCandidate
freeze_candidate lib i ns_labels cf =
    if not (target_matches lib (some cf.spec.target) ns_labels i.object_labels i.kind)
    then none
    else if not (action_in i.action cf.spec.deny)
    then none
    else if not (ltb i.now cf.spec.end_time) || ltb i.now cf.spec.start_time
    then none
    else some (record {
      ref = record { kind = change_freeze; name = cf.name };
      reason = first_non_empty cf.spec.message.reason "ChangeFreeze is active";
      next_allowed = some cf.spec.end_time;
      freeze_end = some cf.spec.end_time;
      behavior = cf.spec.behavior;
      deterministic_id = cf.name;
    })

-- `NextStart.Before(*bestNext)`, or no best yet.
abbrev pub earlier : Option ℕ → Option ℕ → Option ℕ
earlier none best = best
earlier (some t) none = some t
earlier (some t) (some b) = if ltb t b then some t else some b

-- An evaluation that fails is skipped.
abbrev pub is_open : Result WindowError EvaluatedWindow → Bool
is_open (ok res) = res.active
is_open (err e) = false

abbrev pub keep_earlier : Result WindowError EvaluatedWindow → Option ℕ → Option ℕ
keep_earlier (ok res) best = earlier res.next_start best
keep_earlier (err e) best = best

-- The loop over the windows: is any open (`break`), and the earliest next start met.
unfoldable pub try_windows : Library → ℕ → String → List WindowSpec → Option ℕ → Bool × Option ℕ
try_windows lib now tz [] best = (false, best)
try_windows lib now tz (w ∷ ws) best =
    let res = eval_cron_window lib now tz w.schedule w.duration in
    let rest = try_windows lib now tz ws (keep_earlier res best) in
    if is_open res then (true, best) else rest

-- The body of the loop in collectMaintenanceWindows.
unfoldable pub window_candidate :
    Library → Input → Option Dict → MaintenanceWindow → Option DenyCandidate
window_candidate lib i ns_labels mw =
    if not (target_matches lib (some mw.spec.target) ns_labels i.object_labels i.kind)
    then none
    else if not (action_in i.action mw.spec.deny)
    then none
    else if not (is_deny_outside mw.spec.window_mode)
    then none
    else let tried = try_windows lib i.now mw.spec.timezone mw.spec.windows none in
      if tried.0
      then none
      else some (record {
        ref = record { kind = maintenance_window; name = mw.name };
        reason = first_non_empty mw.spec.message.reason "Outside maintenance window";
        next_allowed = tried.1;
        freeze_end = none;
        behavior = mw.spec.behavior;
        deterministic_id = mw.name;
      })
