-- ===== src/Policy/Candidates/Laws.antt =====
-- When a policy denies a request, in terms of its spec and the time.
use kube_freeze_operator.Common.{
  ℕ, ◌≤◌, ◌<◌, ◌≡◌, ◌↔◌, inl, inr, refl, String, true, Option, none, some, List, [], ◌∷◌, any, Some,
  is_some, arith, Bool-cases, any_iff,
}
use kube_freeze_operator.Common.Dict.{Dict}
use kube_freeze_operator.Api.Kinds.{is_deny_outside}
use kube_freeze_operator.Api.Specs.{WindowSpec}
use kube_freeze_operator.Api.Objects.{ChangeFreeze, MaintenanceWindow}
use kube_freeze_operator.External.{Library}
use kube_freeze_operator.Policy.Types.{Input}
use kube_freeze_operator.Policy.Selectors.{target_matches, action_in}
use kube_freeze_operator.Policy.Window.{eval_cron_window}
use kube_freeze_operator.Policy.Candidates.{
  freeze_candidate, window_candidate, is_open, keep_earlier, try_windows,
}

-- A ChangeFreeze denies the request: its target and its rules cover it, in [startTime, endTime).
abbrev pub FreezeBlocks : Library → Input → Option Dict → ChangeFreeze → Type 0
FreezeBlocks lib i ns_labels cf =
    (target_matches lib (some cf.spec.target) ns_labels i.object_labels i.kind ≡ true)
    × (action_in i.action cf.spec.deny ≡ true)
    × (cf.spec.start_time ≤ i.now)
    × (i.now < cf.spec.end_time)

pub freeze_candidate_iff :
    (lib : Library) (i : Input) (ns_labels : Option Dict) (cf : ChangeFreeze)
    → (is_some (freeze_candidate lib i ns_labels cf) ≡ true) ↔ FreezeBlocks lib i ns_labels cf
unfolding freeze_candidate
freeze_candidate_iff lib i ns_labels cf = ground arith

-- A window of the policy evaluates, and is open now.
abbrev pub HasOpenWindow : Library → ℕ → String → List WindowSpec → Type 0
HasOpenWindow lib now tz =
    Some (λ w. is_open (eval_cron_window lib now tz w.schedule w.duration) ≡ true)

try_windows-any :
    (lib : Library) (now : ℕ) (tz : String) (ws : List WindowSpec) (best : Option ℕ)
    → (try_windows lib now tz ws best).0
      ≡ any (λ w. is_open (eval_cron_window lib now tz w.schedule w.duration)) ws
unfolding try_windows
try_windows-any lib now tz [] best = refl
try_windows-any lib now tz (w ∷ ws) best =
    let res = eval_cron_window lib now tz w.schedule w.duration in
    elim (Bool-cases (is_open res)) [
      | inl e ↦ rw e
      | inr e ↦ rw e (try_windows-any lib now tz ws (keep_earlier res best))
    ]

pub try_windows_iff :
    (lib : Library) (now : ℕ) (tz : String) (ws : List WindowSpec) (best : Option ℕ)
    → ((try_windows lib now tz ws best).0 ≡ true) ↔ HasOpenWindow lib now tz ws
try_windows_iff lib now tz ws best = rw (try_windows-any lib now tz ws best) (any_iff _ ws)

-- A MaintenanceWindow denies the request: its target and its rules cover it, and no window is open.
abbrev pub WindowBlocks : Library → Input → Option Dict → MaintenanceWindow → Type 0
WindowBlocks lib i ns_labels mw =
    (target_matches lib (some mw.spec.target) ns_labels i.object_labels i.kind ≡ true)
    × (action_in i.action mw.spec.deny ≡ true)
    × (is_deny_outside mw.spec.window_mode ≡ true)
    × (¬ HasOpenWindow lib i.now mw.spec.timezone mw.spec.windows)

pub window_candidate_iff :
    (lib : Library) (i : Input) (ns_labels : Option Dict) (mw : MaintenanceWindow)
    → (is_some (window_candidate lib i ns_labels mw) ≡ true) ↔ WindowBlocks lib i ns_labels mw
unfolding window_candidate
window_candidate_iff lib i ns_labels mw =
    let tried = try_windows_iff lib i.now mw.spec.timezone mw.spec.windows none in
    elim (Bool-cases (try_windows lib i.now mw.spec.timezone mw.spec.windows none).0) [
      | inl covers ↦ (λ h. absurd (ground arith), λ h. absurd (h.3 (tried.0 covers)))
      | inr shut ↦ (
        λ h. (ground arith, ground arith, ground arith, λ o. cc (tried.1 o)),
        λ h. ground (arith, h.0, h.1, h.2),
      )
    ]
