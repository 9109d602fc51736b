-- ===== src/Examples/KfoRuns.antt =====
-- The theorems about the kfo command at the cluster of the test data.
use kube_freeze_operator.Common.{
  ◌≡◌, ◌↔◌, ◌⊎◌, refl, String, List, true, none, some, [], ◌∷◌, ◌++◌, Some, false, if◌then◌else◌,
}
use kube_freeze_operator.Common.Texts.{◌==◌}
use kube_freeze_operator.Common.Results.{ok}
use kube_freeze_operator.Policy.Evaluator.Laws.{Answers, IsBlocked, ExceptionCovers}
use kube_freeze_operator.CiApi.Server.{
  handle_evaluate_get, ApiError, response, error_text, EvaluateResponse,
}
use kube_freeze_operator.Kfo.Parse.{parse_kind, parse_action}
use kube_freeze_operator.Kfo.Flags.{
  no_options, namespace_setting, kind_setting, action_setting, api_url_setting, parse_args,
  index_out_of_range,
}
use kube_freeze_operator.Kfo.Flags.Laws.{
  Word, long_form, short_form, json_word, write, meaning, parse_args-write, parse_args-panics,
}
use kube_freeze_operator.Kfo.Remote.{ApiResponse, HttpClient}
use kube_freeze_operator.Kfo.Main.{Host, exit_status, with_no_error, run, api_url_of}
use kube_freeze_operator.Kfo.Main.Gate.{AsksDirectly, asked, run_gates}
use kube_freeze_operator.Kfo.Main.Modes.{ServedAt, run_modes-agree}
use kube_freeze_operator.Policy.Evaluator.{get_namespace_labels}
use kube_freeze_operator.Api.Kinds.{deployment, rollout}
use kube_freeze_operator.Examples.{library, reader, now, freeze, exception}

abbrev words : List Word
words =
    short_form namespace_setting "prod"
    ∷ long_form kind_setting "Deployment"
    ∷ json_word
    ∷ short_form action_setting "ROLL_OUT"
    ∷ []

parse_args-write_example :
    parse_args
      ("-n" ∷ "prod" ∷ "--kind" ∷ "Deployment" ∷ "--json" ∷ "-a" ∷ "ROLL_OUT" ∷ [])
      no_options
    ≡ parse_args [] (meaning words no_options)
parse_args-write_example = parse_args-write words [] no_options

parse_args-panics_example :
    (parse_args (write words ++ "--namespace" ∷ []) no_options ≡ index_out_of_range)
    × (parse_args (write words ++ "-n" ∷ []) no_options ≡ index_out_of_range)
parse_args-panics_example = parse_args-panics words namespace_setting no_options

abbrev offline : HttpClient
offline = record { accepts_url = λ url. true; fetch = λ url. none; decode = λ body. none }

abbrev host : Host
host = record {
  freeze_api_url = "";
  has_config = true;
  client = some reader;
  now = now;
  http = offline;
}

parsed_kind : parse_kind "Deployment" ≡ some deployment
unfolding parse_kind
parsed_kind = refl

parsed_action : parse_action "ROLL_OUT" ≡ some rollout
unfolding parse_action
parsed_action = refl

no_url : (api_url_of host (meaning words no_options) == "") ≡ true
unfolding api_url_of
no_url = refl

abbrev asks : AsksDirectly host (meaning words no_options)
asks = record {
  reader = reader;
  has_client = refl;
  configured = refl;
  no_url = no_url;
  namespaced = refl;
  kind_given = refl;
  action_given = refl;
  kind = deployment;
  kind_known = parsed_kind;
  action = rollout;
  action_known = parsed_action;
}

labels_found : get_namespace_labels reader (asked asks) ≡ ok (some [])
unfolding get_namespace_labels
labels_found = refl

abbrev found : Answers library reader (asked asks)
found = record {
  ns_labels = some [];
  cfs = freeze ∷ [];
  mws = [];
  exs = exception ∷ [];
  labelled = labels_found;
  freezes_listed = refl;
  windows_listed = refl;
  exceptions_listed = refl;
}

run_gates_example :
    ((exit_status (run library host ("can-i" ∷ write words)) ≡ 1) ↔ (
      IsBlocked library (asked asks) (some []) (freeze ∷ []) []
      × ¬ Some (ExceptionCovers library (asked asks) (some [])) (exception ∷ [])))
    × ((exit_status (run library host ("can-i" ∷ write words)) ≡ 0)
        ↔ ¬ (
            IsBlocked library (asked asks) (some []) (freeze ∷ []) []
            × ¬ Some (ExceptionCovers library (asked asks) (some [])) (exception ∷ [])))
run_gates_example = run_gates library host words asks found

-- What the server answers: the freeze of the test data selects by labels, which it does not see.
abbrev reply : EvaluateResponse
reply = record {
  allow = true;
  reason = "";
  matched_policy = "";
  policy_kind = "";
  freeze_end_time = none;
  next_allowed = none;
  evaluated_at = "a time";
}

abbrev online : Host
online = record host {
  http = record {
    accepts_url = λ url. true;
    fetch = λ url. some "a body";
    decode = λ body. some (with_no_error reply);
  };
}

abbrev query : String → String
query key =
    if key == "namespace" then "prod" else if key == "kind" then "Deployment" else "ROLL_OUT"

answered : (handle_evaluate_get library (some reader) now query).0.body ≡ response reply
unfolding handle_evaluate_get kube_freeze_operator.CiApi.Server.evaluate_request
    kube_freeze_operator.CiApi.Server.parse_kind kube_freeze_operator.CiApi.Server.parse_action
    kube_freeze_operator.CiApi.Server.evaluate_parsed kube_freeze_operator.Policy.Evaluator.evaluate
    get_namespace_labels kube_freeze_operator.Policy.Evaluator.collect_deny_candidates
    kube_freeze_operator.Policy.Evaluator.collect_change_freezes
    kube_freeze_operator.Policy.Evaluator.collect_maintenance_windows
    kube_freeze_operator.CiApi.Server.decision_response kube_freeze_operator.Policy.Evaluator.decide
    kube_freeze_operator.Policy.Choice.select_deny_candidate
    kube_freeze_operator.Policy.Choice.sort_stable
    kube_freeze_operator.Policy.Candidates.freeze_candidate
    kube_freeze_operator.Policy.Selectors.target_matches
    kube_freeze_operator.Policy.Selectors.match_label_selector
answered = refl

body_is_reply :
    (r : EvaluateResponse)
    → (handle_evaluate_get library (some reader) now query).0.body ≡ response r
    → some (with_no_error reply) ≡ some (with_no_error r)
body_is_reply r h = cc (answered, h)

no_error_body :
    (e : ApiError)
    → (handle_evaluate_get library (some reader) now query).0.body ≡ error_text e
    → (resp : ApiResponse) × (some (with_no_error reply) ≡ some resp) × ((resp.error == "") ≡ false)
no_error_body e h = absurd (cc (answered, h))

abbrev served : ServedAt library online "http://api" (meaning words no_options)
served = record {
  reader = reader;
  has_client = refl;
  configured = refl;
  url_given = refl;
  accepted = refl;
  query = query;
  reads_namespace = refl;
  reads_kind = refl;
  reads_action = refl;
  text = "a body";
  fetched = refl;
  decodes_response = body_is_reply;
  decodes_error = no_error_body;
}

no_url_online : (api_url_of online (meaning words no_options) == "") ≡ true
unfolding api_url_of
no_url_online = refl

run_modes-agree_example :
    (run library online ("can-i" ∷ write (words ++ long_form api_url_setting "http://api" ∷ []))
      ≡ run library online ("can-i" ∷ write words))
    ⊎ ((exit_status (
            run library online
              ("can-i" ∷ write (words ++ long_form api_url_setting "http://api" ∷ [])))
          ≡ 2)
        × (exit_status (run library online ("can-i" ∷ write words)) ≡ 2))
run_modes-agree_example = run_modes-agree library online "http://api" words served no_url_online
