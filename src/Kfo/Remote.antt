-- ===== src/Kfo/Remote.antt =====
-- cmd/kfo/main.go: the evaluation by the CI API server, evalViaAPI.
use Prim.Native.String.{◌∷◌, [], ◌++◌}
use Prim.Native.Char.{code}
use kube_freeze_operator.Common.{String, Bool, ◌&&◌, not, Option, none, some, eqb, if◌then◌else◌}
use kube_freeze_operator.Common.Texts.{◌==◌}
use kube_freeze_operator.Common.Results.{Result, ok, err}
use kube_freeze_operator.CiApi.Server.{EvaluateResponse}

-- apiResponse: the fields of the server's response, and Error.
pub record ApiResponse : Type 0 where
  pub reply : EvaluateResponse
  pub error : String

-- net/http and encoding/json: whether a URL makes a request, the body of the answer to a GET within ten
-- seconds, and a body that decodes.
pub record HttpClient : Type 0 where
  pub accepts_url : String → Bool
  pub fetch : String → Option String
  pub decode : String → Option ApiResponse

pub data RemoteError : Type 0 where
  bad_url request_failed parse_failed : RemoteError
  api_error : String → RemoteError

-- strings.TrimRight(s, "/").
abbrev pub trim_right_slashes : String → String
trim_right_slashes [] = []
trim_right_slashes (c ∷ s) =
    let rest = trim_right_slashes s in if eqb (code c) b'/' && rest == "" then "" else c ∷ rest

-- The values stand in the URL as they are.
unfoldable pub evaluate_url : String → String → String → String → String
evaluate_url api_url namespace kind action =
    trim_right_slashes api_url
    ++ "/v1/evaluate?namespace="
    ++ namespace
    ++ "&kind="
    ++ kind
    ++ "&action="
    ++ action

-- evalViaAPI: the status of the answer is not read.
unfoldable pub eval_via_api :
    HttpClient → String → String → String → String → Result RemoteError ApiResponse
eval_via_api http api_url namespace kind action =
    let url = evaluate_url api_url namespace kind action in
    if not (http.accepts_url url) then err bad_url else elim (http.fetch url) [
      | none ↦ err request_failed
      | some body ↦ elim (http.decode body) [
        | none ↦ err parse_failed
        | some resp ↦ if not (resp.error == "") then err (api_error resp.error) else ok resp
      ]
    ]
