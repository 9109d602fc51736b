-- ===== src/Examples/CiRuns.antt =====
-- The theorems about the CI helper at the cluster of the test data.
use kube_freeze_operator.Common.{
  ◌≡◌, ◌↔◌, refl, String, Bool, true, false, ◌||◌, Option, none, some, [], ◌∷◌,
}
use kube_freeze_operator.Common.Texts.{◌==◌}
use kube_freeze_operator.Common.Results.{ok}
use kube_freeze_operator.Api.Objects.{ChangeFreeze}
use kube_freeze_operator.External.{Reader}
use kube_freeze_operator.Policy.Evaluator.Bare.{PoliciesArePlain}
use kube_freeze_operator.Workloads.Request.{map_gvk_to_target_kind, classify}
use kube_freeze_operator.Diff.{classify_update}
use kube_freeze_operator.Workloads.Handler.{Validator, is_operator, request_target, handle}
use kube_freeze_operator.Workloads.Handler.Reach.{is_denied, Reaches}
use kube_freeze_operator.CiApi.Server.{EvaluateResponse, response, evaluate_request}
use kube_freeze_operator.CiApi.Auth.{extract_bearer_token}
use kube_freeze_operator.CiApi.Serve.{HttpRequest}
use kube_freeze_operator.CiApi.Agreement.{ci_request, handle_agrees}
use kube_freeze_operator.Examples.{library, reader, now, freeze, target, prod}
use kube_freeze_operator.Examples.Requests.{
  deep_equal, decoder, surroundings, validator, request, update_target,
}

-- A freeze of every Deployment.
abbrev plain_freeze : ChangeFreeze
plain_freeze = record freeze {
  spec = record freeze.spec { target = record target { object_selector = none } };
}

abbrev plain_reader : Reader
plain_reader = record reader {
  list_change_freezes = some (plain_freeze ∷ []);
  list_freeze_exceptions = some [];
}

abbrev plain_validator : Validator
plain_validator = record validator { client = some plain_reader }

plain_not_operator : is_operator plain_validator surroundings request ≡ false
unfolding is_operator
plain_not_operator = refl

plain_target : request_target deep_equal (some decoder) plain_reader request ≡ ok update_target
unfolding request_target kube_freeze_operator.Workloads.Handler.workload_target
    map_gvk_to_target_kind classify kube_freeze_operator.Workloads.Request.decode_old_new
    kube_freeze_operator.Workloads.Request.decode classify_update
plain_target = refl

abbrev plain_reaches : Reaches deep_equal surroundings plain_validator request
plain_reaches = record {
  client = plain_reader;
  has_client = refl;
  not_operator = plain_not_operator;
  target = update_target;
  has_target = plain_target;
  is_namespaced = refl;
  ns = prod;
  has_namespace = refl;
  not_terminating = refl;
}

abbrev plain : PoliciesArePlain plain_reader
plain = record { freezes = (refl, tt); windows = tt; exceptions = tt }

handle_agrees_example :
    (is_denied (handle library deep_equal surroundings plain_validator request).0 ≡ true) ↔ (
      (resp : EvaluateResponse) × ((evaluate_request library
          (some plain_reader)
          now
          (ci_request request update_target)).0
        ≡ record { status = 200; body = response resp })
      × (resp.allow ≡ false))
handle_agrees_example =
    handle_agrees library deep_equal surroundings plain_validator request plain_reaches plain

-- The API server authenticates one token.
abbrev review : String → Option Bool
review token = some (token == "token 1")

abbrev http_request : HttpRequest
http_request = record {
  method = "GET";
  path = "/v1/evaluate";
  authorization = "Bearer token 1";
  decoded = none;
  query = λ key. "prod";
}

abbrev is_clean : String → Bool
is_clean path = path == "/v1/evaluate" || path == "/healthz"

bearer : extract_bearer_token "bEARER token 1" ≡ "token 1"
unfolding extract_bearer_token
bearer = refl

one_part : extract_bearer_token "bearer" ≡ ""
unfolding extract_bearer_token
one_part = refl
