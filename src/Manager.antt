-- ===== src/Manager.antt =====
-- cmd/main.go: the options of the servers and the order in which the process sets its parts up.
pub mod Startup
use kube_freeze_operator.Common.{
  ℕ, String, Bool, true, false, not, Option, none, some, List, [], ◌∷◌, ◌++◌, if◌then◌else◌,
}
use kube_freeze_operator.Common.Texts.{◌==◌}
use kube_freeze_operator.Api.Kinds.{PolicyKind, freeze_exception, change_freeze, maintenance_window}

pub record Flags : Type 0 where
  pub metrics_addr : String
  pub metrics_cert_path : String
  pub metrics_cert_name : String
  pub metrics_cert_key : String
  pub webhook_cert_path : String
  pub webhook_cert_name : String
  pub webhook_cert_key : String
  pub enable_leader_election : Bool
  pub probe_addr : String
  pub api_addr : String
  pub api_auth_mode : String
  pub secure_metrics : Bool
  pub enable_http2 : Bool

abbrev pub default_flags : Flags
default_flags = record {
  metrics_addr = "0";
  metrics_cert_path = "";
  metrics_cert_name = "tls.crt";
  metrics_cert_key = "tls.key";
  webhook_cert_path = "";
  webhook_cert_name = "tls.crt";
  webhook_cert_key = "tls.key";
  enable_leader_election = false;
  probe_addr = ":8081";
  api_addr = ":8082";
  api_auth_mode = "none";
  secure_metrics = true;
  enable_http2 = false;
}

-- The one TLS option of the program: disableHTTP2, which leaves the protocol http/1.1.
pub data TlsOption : Type 0 where
  http_1_1_only : TlsOption

-- CertDir, CertName and KeyName.
pub record Certificate : Type 0 where
  pub cert_dir : String
  pub cert_name : String
  pub key_name : String

pub record WebhookOptions : Type 0 where
  pub tls_opts : List TlsOption
  pub certificate : Option Certificate

-- `with_filter` tells whether requests are authenticated and authorized by the FilterProvider.
pub record MetricsOptions : Type 0 where
  pub bind_address : String
  pub secure_serving : Bool
  pub tls_opts : List TlsOption
  pub with_filter : Bool
  pub certificate : Option Certificate

pub record ManagerOptions : Type 0 where
  pub metrics : MetricsOptions
  pub webhook : WebhookOptions
  pub health_probe_bind_address : String
  pub leader_election : Bool
  pub leader_election_id : String

abbrev pub tls_opts_of : Flags → List TlsOption
tls_opts_of f = if not f.enable_http2 then http_1_1_only ∷ [] else []

-- `if len(path) > 0 { … }`.
abbrev certificate_of : String → String → String → Option Certificate
certificate_of path name key =
    if not (path == "")
    then some (record { cert_dir = path; cert_name = name; key_name = key })
    else none

abbrev pub webhook_options : Flags → WebhookOptions
webhook_options f = record {
  tls_opts = tls_opts_of f;
  certificate = certificate_of f.webhook_cert_path f.webhook_cert_name f.webhook_cert_key;
}

abbrev pub metrics_options : Flags → MetricsOptions
metrics_options f = record {
  bind_address = f.metrics_addr;
  secure_serving = f.secure_metrics;
  tls_opts = tls_opts_of f;
  with_filter = f.secure_metrics;
  certificate = certificate_of f.metrics_cert_path f.metrics_cert_name f.metrics_cert_key;
}

abbrev pub manager_options : Flags → ManagerOptions
manager_options f = record {
  metrics = metrics_options f;
  webhook = webhook_options f;
  health_probe_bind_address = f.probe_addr;
  leader_election = f.enable_leader_election;
  leader_election_id = "e66ee279.io";
}

-- What main does, one after the other.
pub data SetupStep : Type 0 where
  create_manager : ManagerOptions → SetupStep
  set_up_controller set_up_webhook : PolicyKind → SetupStep
  register_workload_webhook : SetupStep
  add_healthz_check add_readyz_check : SetupStep
  create_clientset : SetupStep
  add_api_server : String → Bool → SetupStep
  start_manager : SetupStep

abbrev pub webhook_steps : String → List SetupStep
webhook_steps enable_webhooks =
    if not (enable_webhooks == "false")
    then set_up_webhook maintenance_window
      ∷ set_up_webhook change_freeze
      ∷ set_up_webhook freeze_exception
      ∷ register_workload_webhook
      ∷ []
    else []

-- The flag of add_api_server tells whether it checks tokens.
abbrev pub api_steps : Flags → List SetupStep
api_steps f =
    if not (f.api_addr == "0")
    then if f.api_auth_mode == "token"
      then create_clientset ∷ add_api_server f.api_addr true ∷ []
      else add_api_server f.api_addr false ∷ []
    else []

-- The steps before the start, for the value of ENABLE_WEBHOOKS.
unfoldable pub setup_steps : Flags → String → List SetupStep
setup_steps f enable_webhooks =
    create_manager (manager_options f)
    ∷ set_up_controller maintenance_window
    ∷ set_up_controller change_freeze
    ∷ set_up_controller freeze_exception
    ∷ (webhook_steps enable_webhooks ++ (add_healthz_check ∷ add_readyz_check ∷ api_steps f))

-- The steps that are taken, and the status of the exit: os.Exit(1) at the first that fails. Registering
-- a handler cannot fail.
abbrev pub can_fail : SetupStep → Bool
can_fail register_workload_webhook = false
can_fail _ = true

unfoldable pub take_steps : (SetupStep → Bool) → List SetupStep → List SetupStep × ℕ
take_steps succeeds [] = ([], 0)
take_steps succeeds (s ∷ steps) =
    let rest = take_steps succeeds steps in
    if can_fail s
    then if succeeds s then (s ∷ rest.0, rest.1) else (s ∷ [], 1)
    else (s ∷ rest.0, rest.1)

unfoldable pub main_process : (SetupStep → Bool) → Flags → String → List SetupStep × ℕ
main_process succeeds f enable_webhooks =
    take_steps succeeds (setup_steps f enable_webhooks ++ start_manager ∷ [])
