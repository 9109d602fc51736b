-- ===== src/Kfo/Main/Gate.antt =====
-- The exit status of `kfo can-i` without an API URL, cmd/kfo/main.go, against the policies of the cluster.
use mathlib.Core.List.{append-nil}
use kube_freeze_operator.Common.{
  ℕ, ◌≡◌, ◌↔◌, refl, Bool, true, false, not, some, List, ◌∷◌, [], Some, arith, if◌then◌else◌,
}
use kube_freeze_operator.Common.Texts.{◌==◌}
use kube_freeze_operator.Common.Results.{ok}
use kube_freeze_operator.Api.Kinds.{Action, TargetKind}
use kube_freeze_operator.External.{Library, Reader}
use kube_freeze_operator.Policy.Types.{Input, Decision}
use kube_freeze_operator.Policy.Evaluator.{evaluate, with_now}
use kube_freeze_operator.Policy.Evaluator.Laws.{
  Answers, IsBlocked, ExceptionCovers, evaluate_denies_iff,
}
use kube_freeze_operator.CiApi.Server.{bare_input}
use kube_freeze_operator.Kfo.Parse.{parse_kind, parse_action}
use kube_freeze_operator.CiApi.Agreement.{decision_response-allow}
use kube_freeze_operator.CiApi.Command.{eval_direct}
use kube_freeze_operator.Kfo.Flags.{Options, no_options, parse_args}
use kube_freeze_operator.Kfo.Flags.Laws.{Word, write, meaning, parse_args-write}
use kube_freeze_operator.Kfo.Main.{
  Host, exit_status, api_url_of, direct_response, eval_options, report, can_i, after_parse, run,
}

-- The options name a namespace, a kind and an action that the program knows, no URL is given, and the
-- host has a client.
pub record AsksDirectly (host : Host) (o : Options) : Type 0 where
  pub reader : Reader
  pub has_client : host.client ≡ some reader
  pub configured : host.has_config ≡ true
  pub no_url : (api_url_of host o == "") ≡ true
  pub namespaced : (o.namespace == "") ≡ false
  pub kind_given : (o.kind == "") ≡ false
  pub action_given : (o.action == "") ≡ false
  pub kind : TargetKind
  pub kind_known : parse_kind o.kind ≡ some kind
  pub action : Action
  pub action_known : parse_action o.action ≡ some action

-- The input of the evaluation.
abbrev pub asked : {host : Host} {o : Options} → AsksDirectly host o → Input
asked {host} {o} a = with_now host.now (bare_input host.now o.namespace a.kind a.action)

-- The words of the command line come down to the end of main.
pub run-write :
    (lib : Library) (host : Host) (ws : List Word)
    → run lib host ("can-i" ∷ write ws) ≡ can_i lib host (meaning ws no_options)
unfolding run after_parse parse_args
run-write lib host ws = rw (← append-nil (write ws)) (rw (parse_args-write ws [] no_options))

can_i-decision :
    (lib : Library) (host : Host) (o : Options) (a : AsksDirectly host o) (dec : Decision)
    → evaluate lib (some a.reader) host.now (bare_input host.now o.namespace a.kind a.action)
      ≡ ok dec
    → exit_status (can_i lib host o) ≡ (if not dec.allowed then 1 else 0)
unfolding can_i eval_options direct_response eval_direct report
can_i-decision lib host o a dec h = rw (
  can_i,
  a.namespaced,
  a.kind_given,
  a.action_given,
  eval_options,
  a.no_url,
  direct_response,
  eval_direct,
  a.has_client,
  a.configured,
  a.kind_known,
  a.action_known,
  h,
  decision_response-allow lib host.now dec,
)

status_iff :
    (allowed : Bool) {B : Type 0} (n : ℕ)
    → n ≡ (if not allowed then 1 else 0)
    → ((allowed ≡ false) ↔ B)
    → ((n ≡ 1) ↔ B) × ((n ≡ 0) ↔ ¬ B)
status_iff true n e h = (
  (λ k. absurd (omega arith), λ b. absurd (let f = h.1 b in cc)),
  (λ k b. let f = h.1 b in cc, λ k. e),
)
status_iff false n e h =
    ((λ k. h.0 refl, λ b. e), (λ k. absurd (omega arith), λ k. absurd (k (h.0 refl))))

-- With no API URL, a client, and every list of policies at hand, `kfo can-i` on the words of a command
-- line that name a namespace, a known kind and a known action exits with status 1 exactly if a
-- ChangeFreeze or a MaintenanceWindow blocks the action and no FreezeException covers it, and with
-- status 0 exactly if not.
pub run_gates :
    (lib : Library) (host : Host) (ws : List Word)
    → (a : AsksDirectly host (meaning ws no_options)) (found : Answers lib a.reader (asked a))
    → ((exit_status (run lib host ("can-i" ∷ write ws)) ≡ 1) ↔ (
        IsBlocked lib (asked a) found.ns_labels found.cfs found.mws
        × ¬ Some (ExceptionCovers lib (asked a) found.ns_labels) found.exs))
      × ((exit_status (run lib host ("can-i" ∷ write ws)) ≡ 0)
          ↔ ¬ (
              IsBlocked lib (asked a) found.ns_labels found.cfs found.mws
              × ¬ Some (ExceptionCovers lib (asked a) found.ns_labels) found.exs))
run_gates lib host ws a found =
    let (dec, k, f) =
      evaluate_denies_iff lib a.reader host.now
        (bare_input host.now (meaning ws no_options).namespace a.kind a.action) found in
    rw (run-write lib host ws)
      (status_iff dec.allowed _ (can_i-decision lib host (meaning ws no_options) a dec k) f)
