-- ===== src/Kfo/Parse.antt =====
-- parseKind and parseAction of cmd/kfo/main.go, and those of internal/api/server.go.
use kube_freeze_operator.Common.{◌≡◌, refl, String, Option, none, some, if◌then◌else◌}
use kube_freeze_operator.Common.Texts.{◌==◌}
use kube_freeze_operator.Api.Kinds.{
  TargetKind, deployment, stateful_set, daemon_set, cron_job, Action, create, delete, rollout,
  scale,
}
use kube_freeze_operator.CiApi.Server

unfoldable pub parse_kind : String → Option TargetKind
parse_kind s =
    if s == "Deployment"
    then some deployment
    else if s == "StatefulSet"
    then some stateful_set
    else if s == "DaemonSet"
    then some daemon_set
    else if s == "CronJob"
    then some cron_job
    else none

unfoldable pub parse_action : String → Option Action
parse_action s =
    if s == "CREATE"
    then some create
    else if s == "DELETE"
    then some delete
    else if s == "ROLL_OUT"
    then some rollout
    else if s == "SCALE"
    then some scale
    else none

-- The command and the server read the same kinds and actions.
pub parse_kind_lem : (s : String) → parse_kind s ≡ Server.parse_kind s
unfolding parse_kind Server.parse_kind
parse_kind_lem s = refl

pub parse_action_lem : (s : String) → parse_action s ≡ Server.parse_action s
unfolding parse_action Server.parse_action
parse_action_lem s = refl
