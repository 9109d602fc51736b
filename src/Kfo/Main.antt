-- ===== src/Kfo/Main.antt =====
-- cmd/kfo/main.go: main, with what it prints and the status with which the process exits.
pub mod Gate
pub mod Modes
use Prim.Native.String.{◌++◌}
use kube_freeze_operator.Common.{
  ℕ, String, Bool, not, ◌||◌, Option, none, some, List, [], ◌∷◌, keep, if◌then◌else◌,
}
use kube_freeze_operator.Common.Texts.{◌==◌}
use kube_freeze_operator.Common.Results.{Result, ok, err}
use kube_freeze_operator.External.{Library, Reader}
use kube_freeze_operator.CiApi.Server.{EvaluateResponse}
use kube_freeze_operator.CiApi.Command.{CommandError, eval_direct}
use kube_freeze_operator.Kfo.Flags.{
  Options, no_options, parsed, asked_usage, met_unknown, index_out_of_range, Parsed, parse_args,
}
use kube_freeze_operator.Kfo.Remote.{ApiResponse, HttpClient, RemoteError, eval_via_api}

-- What the process meets: the FREEZE_API_URL variable, its kubeconfig and a client for it, the clock, and
-- the network.
pub record Host : Type 0 where
  pub freeze_api_url : String
  pub has_config : Bool
  pub client : Option Reader
  pub now : ℕ
  pub http : HttpClient

pub data Failure : Type 0 where
  direct : CommandError → Failure
  remote : RemoteError → Failure

pub data Printed : Type 0 where
  usage_text required_text : Printed
  unknown_command unknown_argument : String → Printed
  error_text : Failure → Printed
  json_text : ApiResponse → Printed
  human_text : List String → Printed

-- os.Exit, or the end of main with status 0; or a panic.
pub data Outcome : Type 0 where
  exited : ℕ → Printed → Outcome
  panicked : Outcome

-- Go's runtime exits with status 2 after a panic.
abbrev pub exit_status : Outcome → ℕ
exit_status (exited n p) = n
exit_status panicked = 2

abbrev pub with_no_error : EvaluateResponse → ApiResponse
with_no_error reply = record { reply = reply; error = "" }

-- The lines of printHuman.
abbrev reason_line : EvaluateResponse → Option String
reason_line r = if not (r.reason == "") then some ("   Reason:  " ++ r.reason) else none

abbrev policy_line : EvaluateResponse → Option String
policy_line r =
    if not (r.matched_policy == "")
    then some ("   Policy:  " ++ (r.matched_policy ++ (" (" ++ (r.policy_kind ++ ")"))))
    else none

abbrev end_line : EvaluateResponse → Option String
end_line r = elim r.freeze_end_time [ none ↦ none | some t ↦ some ("   Ends at: " ++ t) ]

unfoldable pub print_human : EvaluateResponse → String → String → String → List String
print_human r ns kind action =
    if r.allow
    then ("✅ ALLOWED — "
        ++ (kind ++ ("/" ++ (action ++ (" " ++ (action ++ (" in namespace " ++ ns)))))))
      ∷ []
    else ("❌ DENIED — " ++ (kind ++ (" " ++ (action ++ (" in namespace " ++ ns)))))
      ∷ keep (reason_line r) (keep (policy_line r) (keep (end_line r) []))

unfoldable pub api_url_of : Host → Options → String
api_url_of host o = if o.api_url == "" then host.freeze_api_url else o.api_url

unfoldable pub direct_response : Library → Host → Options → Result Failure ApiResponse
direct_response lib host o =
    elim (eval_direct lib host.has_config host.client host.now o.namespace o.kind o.action) [
      | err e ↦ err (direct e)
      | ok reply ↦ ok (with_no_error reply)
    ]

unfoldable pub remote_response : Host → String → Options → Result Failure ApiResponse
remote_response host api_url o = elim (eval_via_api host.http api_url o.namespace o.kind o.action) [
  | err e ↦ err (remote e)
  | ok resp ↦ ok resp
]

unfoldable pub eval_options : Library → Host → Options → Result Failure ApiResponse
eval_options lib host o =
    if not (api_url_of host o == "")
    then remote_response host (api_url_of host o) o
    else direct_response lib host o

-- The end of main, from the response.
unfoldable pub report : Options → ApiResponse → Outcome
report o resp = exited (if not resp.reply.allow then 1 else 0) (
    if o.json_output
    then json_text resp
    else human_text (print_human resp.reply o.namespace o.kind o.action))

-- main from the point where the flags are read.
unfoldable pub can_i : Library → Host → Options → Outcome
can_i lib host o =
    if o.namespace == "" || (o.kind == "" || o.action == "")
    then exited 2 required_text
    else elim (eval_options lib host o) [
      | err e ↦ exited 2 (error_text e)
      | ok resp ↦ report o resp
    ]

unfoldable pub after_parse : Library → Host → Parsed → Outcome
after_parse lib host (parsed o) = can_i lib host o
after_parse lib host asked_usage = exited 0 usage_text
after_parse lib host (met_unknown arg) = exited 2 (unknown_argument arg)
after_parse lib host index_out_of_range = panicked

-- main, from the arguments after the name of the program.
unfoldable pub run : Library → Host → List String → Outcome
run lib host [] = exited 0 usage_text
run lib host (command ∷ args) =
    if command == "-h" || command == "--help"
    then exited 0 usage_text
    else if not (command == "can-i")
    then exited 2 (unknown_command command)
    else after_parse lib host (parse_args args no_options)
