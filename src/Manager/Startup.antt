-- ===== src/Manager/Startup.antt =====
-- What is in place when the manager of cmd/main.go starts.
use kube_freeze_operator.Common.{
  ◌≡◌, refl, String, Bool, true, false, not, ◌&&◌, List, [], ◌∷◌, ◌++◌, any, arith, Bool-cases, inl,
  inr, if◌then◌else◌,
}
use kube_freeze_operator.Common.Texts.{◌==◌}
use kube_freeze_operator.Api.Kinds.{PolicyKind, freeze_exception, change_freeze, maintenance_window}
use kube_freeze_operator.Manager.{
  Flags, SetupStep, set_up_controller, set_up_webhook, register_workload_webhook, add_api_server,
  start_manager, setup_steps, take_steps, main_process,
}

abbrev pub is_start : SetupStep → Bool
is_start start_manager = true
is_start _ = false

abbrev pub is_webhook_of : PolicyKind → SetupStep → Bool
is_webhook_of freeze_exception (set_up_webhook freeze_exception) = true
is_webhook_of change_freeze (set_up_webhook change_freeze) = true
is_webhook_of maintenance_window (set_up_webhook maintenance_window) = true
is_webhook_of _ _ = false

abbrev pub is_controller_of : PolicyKind → SetupStep → Bool
is_controller_of freeze_exception (set_up_controller freeze_exception) = true
is_controller_of change_freeze (set_up_controller change_freeze) = true
is_controller_of maintenance_window (set_up_controller maintenance_window) = true
is_controller_of _ _ = false

abbrev pub is_workload_webhook : SetupStep → Bool
is_workload_webhook register_workload_webhook = true
is_workload_webhook _ = false

abbrev pub is_api_server : Bool → SetupStep → Bool
is_api_server checked (add_api_server addr token) = if checked then token else not token
is_api_server _ _ = false

-- A start at the end is taken only after everything before it.
take_steps-start :
    (succeeds : SetupStep → Bool) (steps : List SetupStep)
    → any is_start steps ≡ false
    → any is_start (take_steps succeeds (steps ++ start_manager ∷ [])).0 ≡ true
    → (take_steps succeeds (steps ++ start_manager ∷ [])).0 ≡ steps ++ start_manager ∷ []
unfolding take_steps
take_steps-start succeeds [] n h = ground arith
take_steps-start succeeds (s ∷ steps) n h = ground (arith, take_steps-start succeeds steps)

setup_steps-no_start :
    (f : Flags) (enable_webhooks : String) → any is_start (setup_steps f enable_webhooks) ≡ false
unfolding setup_steps
setup_steps-no_start f enable_webhooks = elim (Bool-cases (enable_webhooks == "false")) [
  | inl e ↦ elim (Bool-cases (f.api_addr == "0")) [
    | inl a ↦ rw (e, a)
    | inr a ↦ elim (Bool-cases (f.api_auth_mode == "token")) [
      | inl t ↦ rw (e, a, t)
      | inr t ↦ rw (e, a, t)
    ]
  ]
  | inr e ↦ elim (Bool-cases (f.api_addr == "0")) [
    | inl a ↦ rw (e, a)
    | inr a ↦ elim (Bool-cases (f.api_auth_mode == "token")) [
      | inl t ↦ rw (e, a, t)
      | inr t ↦ rw (e, a, t)
    ]
  ]
]

-- What the steps that are taken set up: the controllers, the webhooks if ENABLE_WEBHOOKS allows them, and
-- the API server, with or without the token check.
pub record SetsUp (f : Flags) (enable_webhooks : String) (steps : List SetupStep) : Type 0 where
  pub controllers : (k : PolicyKind) → any (is_controller_of k) steps ≡ true
  pub policy_webhooks :
      (k : PolicyKind) → any (is_webhook_of k) steps ≡ not (enable_webhooks == "false")
  pub workload_webhook : any is_workload_webhook steps ≡ not (enable_webhooks == "false")
  pub checked_api :
      any (is_api_server true) steps ≡ (not (f.api_addr == "0") && f.api_auth_mode == "token")
  pub open_api :
      any (is_api_server false) steps
      ≡ (not (f.api_addr == "0") && not (f.api_auth_mode == "token"))

module _ (f : Flags) (enable_webhooks : String) where
  abbrev all_steps : List SetupStep
  all_steps = setup_steps f enable_webhooks ++ start_manager ∷ []

  all_controllers : (k : PolicyKind) → any (is_controller_of k) all_steps ≡ true
  unfolding setup_steps
  all_controllers freeze_exception = refl
  all_controllers change_freeze = refl
  all_controllers maintenance_window = refl

  all_webhooks :
      (k : PolicyKind) → any (is_webhook_of k) all_steps ≡ not (enable_webhooks == "false")
  unfolding setup_steps
  all_webhooks freeze_exception = ground arith
  all_webhooks change_freeze = ground arith
  all_webhooks maintenance_window = ground arith

  all_workload : any is_workload_webhook all_steps ≡ not (enable_webhooks == "false")
  unfolding setup_steps
  all_workload = ground arith

  all_api :
      (checked : Bool)
      → any (is_api_server checked) all_steps ≡ (
          not (f.api_addr == "0")
          && (if checked then f.api_auth_mode == "token" else not (f.api_auth_mode == "token")))
  unfolding setup_steps
  all_api true = ground arith
  all_api false = ground arith

-- If main gets to starting the manager, it has set up the controllers of the three policies; it has set
-- up the webhooks of the three policies and registered the one for workloads exactly if the value of
-- ENABLE_WEBHOOKS is not "false"; and it has added an API server that checks tokens exactly if
-- --api-bind-address is not "0" and --api-auth-mode is "token", and one that checks none exactly if
-- the address is not "0" and the mode is any other text.
pub main_process-SetsUp :
    (succeeds : SetupStep → Bool) (f : Flags) (enable_webhooks : String)
    → any is_start (main_process succeeds f enable_webhooks).0 ≡ true
    → SetsUp f enable_webhooks (main_process succeeds f enable_webhooks).0
unfolding main_process
main_process-SetsUp succeeds f enable_webhooks h =
    let e =
      take_steps-start succeeds (setup_steps f enable_webhooks)
        (setup_steps-no_start f enable_webhooks) h in
    rw e (record {
      controllers = all_controllers f enable_webhooks;
      policy_webhooks = all_webhooks f enable_webhooks;
      workload_webhook = all_workload f enable_webhooks;
      checked_api = all_api f enable_webhooks true;
      open_api = all_api f enable_webhooks false;
    })
