-- ===== src/Examples.antt =====
-- Test data: a small cluster, and the theorems at it in the child modules.
mod Decisions
mod Requests
mod Windows
mod CronRuns
mod GitOpsRuns
mod FluxRuns
mod Admissions
mod Reconciles
mod CallRuns
mod CiRuns
mod KfoRuns
mod ManagerRuns
use kube_freeze_operator.Common.{
  ℕ, ◌+◌, ◌*◌, ◌/◌, String, Bool, true, false, ◌||◌, Option, none, some, List, [], ◌∷◌,
  if◌then◌else◌,
}
use kube_freeze_operator.Common.Int.{ℤ, pos}
use kube_freeze_operator.Common.Texts.{◌==◌}
use kube_freeze_operator.Common.Dict.{Dict, get}
use kube_freeze_operator.Api.Kinds.{
  deployment, cron_job, scale, rollout, create, deny_outside_windows,
}
use kube_freeze_operator.Api.Specs.{TargetSpec, MessageSpec, PolicyBehaviorSpec, WindowSpec}
use kube_freeze_operator.Api.Objects.{ChangeFreeze, MaintenanceWindow, FreezeException, Namespace}
use kube_freeze_operator.External.{Library, Reader, one_minute}
use kube_freeze_operator.Policy.Types.{Input}
use kube_freeze_operator.Policy.Window.Laws.{every_minute}

-- Thirty days after the zero time, half an hour into an hour.
abbrev pub now : ℕ
now = 34129800000000000

abbrev pub one_hour : ℕ
one_hour = 60 * one_minute

abbrev pub every_hour : ℕ → ℕ
every_hour t = (t / one_hour + 1) * one_hour

abbrev pub schedules : String → Option (String → ℕ → ℕ)
schedules s =
    if s == "0 * * * *"
    then some (λ tz. every_hour)
    else if s == "* * * * *"
    then some (λ tz. every_minute)
    else none

-- A selector names the team of its objects.
abbrev pub library : Library
library = record {
  as_selector = λ s. some (λ labels. get "team" labels == s);
  load_location = λ tz. tz == "" || tz == "UTC";
  parse_schedule = schedules;
  format_rfc3339 = λ t. "a time";
  set_status_condition = λ conditions c. c ∷ conditions;
}

abbrev pub target : TargetSpec
target = record {
  namespace_selector = none;
  object_selector = some "web";
  kinds = deployment ∷ cron_job ∷ [];
}

abbrev pub behavior : PolicyBehaviorSpec
behavior = record { suspend_cron_jobs = true; gitops = none }

abbrev pub message : MessageSpec
message = record { reason = "release week"; docs_url = ""; contact = "" }

abbrev pub freeze : ChangeFreeze
freeze = record {
  name = "release";
  generation = 1;
  spec = record {
    start_time = 34128000000000000;
    end_time = 34131600000000000;
    timezone = none;
    target = target;
    deny = rollout ∷ [];
    behavior = behavior;
    message = message;
  };
  status = record {
    active = false;
    time_remaining = none;
    observed_generation = 0;
    gitops_paused_count = 0;
    gitops_last_reconcile_time = none;
    conditions = [];
  };
}

-- Ten minutes from every hour on.
abbrev pub hourly : WindowSpec
hourly = record { name = "hourly"; schedule = "0 * * * *"; duration = pos (10 * one_minute) }

abbrev pub window : MaintenanceWindow
window = record {
  name = "nightly";
  generation = 1;
  spec = record {
    timezone = "UTC";
    window_mode = deny_outside_windows;
    windows = hourly ∷ [];
    target = target;
    deny = scale ∷ [];
    behavior = behavior;
    message = message;
  };
  status = record {
    active = false;
    active_window = none;
    next_window = none;
    observed_generation = 0;
    gitops_paused_count = 0;
    gitops_last_reconcile_time = none;
    conditions = [];
  };
}

abbrev pub exception : FreezeException
exception = record {
  name = "hotfix";
  generation = 1;
  spec = record {
    active_from = 34128000000000000;
    active_to = 34131600000000000;
    target = target;
    allow = create ∷ [];
    constraints = none;
    reason = "hotfix";
    ticket_url = "";
    approved_by = "lead";
  };
  status = record { active = false; observed_generation = 0; conditions = [] };
}

abbrev pub prod : Namespace
prod = record { name = "prod"; labels = some []; is_terminating = false }

abbrev pub labels : Option Dict
labels = some (("team", "web") ∷ [])

abbrev pub reader : Reader
reader = record {
  get_namespace = λ ns. if ns == "prod" then some prod else none;
  list_namespaces = some (prod ∷ []);
  list_change_freezes = some (freeze ∷ []);
  list_maintenance_windows = some [];
  list_freeze_exceptions = some (exception ∷ []);
  get_deployment_labels = λ ns name. some labels;
  get_stateful_set_labels = λ ns name. none;
}

-- The update of a Deployment that the freeze denies.
abbrev pub input : Input
input = record {
  now = now;
  namespace = "prod";
  namespace_tags = some [];
  kind = deployment;
  action = rollout;
  object_labels = labels;
  username = "jane";
  groups = [];
}
