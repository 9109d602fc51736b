-- ===== src/CiApi/Serve.antt =====
-- internal/api/server.go: the server with its options, and what it does with a request: the routes of
-- Start, behind the token check of internal/api/auth.go in its token mode.
pub mod Access
use kube_freeze_operator.Common.{
  ℕ, String, Bool, true, false, ◌||◌, ◌&&◌, not, Option, none, some, List, [], ◌∷◌, if◌then◌else◌,
}
use kube_freeze_operator.Common.Texts.{◌==◌}
use kube_freeze_operator.External.{Library, Reader}
use kube_freeze_operator.CiApi.Server.{
  EvaluateRequest, Answer, ApiMetric, handle_evaluate, handle_evaluate_get,
}
use kube_freeze_operator.CiApi.Auth.{Wrapped, passed_on, wrap}

-- AuthMode is a text; only AuthModeToken is told from the others.
pub data AuthMode : Type 0 where
  no_auth token_auth : AuthMode

-- The TokenReview of a token: whether it is authenticated, or `none` for an error.
abbrev pub Review : Type 0
Review = String → Option Bool

pub record Server : Type 0 where
  pub client : Option Reader
  pub addr : String
  pub auth_mode : AuthMode
  pub auth : Option Review

abbrev pub ServerOption : Type 0
ServerOption = Server → Server

abbrev pub with_token_auth : Review → ServerOption
with_token_auth auth s = record s { auth_mode = token_auth; auth = some auth }

abbrev apply_options : List ServerOption → Server → Server
apply_options [] s = s
apply_options (o ∷ opts) s = apply_options opts (o s)

unfoldable pub new_server : Option Reader → String → List ServerOption → Server
new_server client addr opts =
    apply_options opts (record { client = client; addr = addr; auth_mode = no_auth; auth = none })

-- A request, with what the JSON decoder makes of its body and the Get of its query.
pub record HttpRequest : Type 0 where
  pub method : String
  pub path : String
  pub authorization : String
  pub decoded : Option EvaluateRequest
  pub query : String → String

-- What a handler answers; ServeMux answers the last three by itself.
pub data Reply : Type 0 where
  evaluated : Answer → List ApiMetric → Reply
  healthy : Reply
  not_found method_not_allowed redirected : Reply

abbrev evaluated_with : Answer × List ApiMetric → Reply
evaluated_with (answer, metrics) = evaluated answer metrics

-- A pattern with GET takes HEAD too.
abbrev pub is_get : String → Bool
is_get method = method == "GET" || method == "HEAD"

-- The mux of Start. ServeMux redirects a path that is not clean to its clean form.
unfoldable pub route : Library → (String → Bool) → ℕ → Server → HttpRequest → Reply
route lib is_clean now s req =
    if not (is_clean req.path)
    then redirected
    else if req.path == "/v1/evaluate"
    then if req.method == "POST"
      then evaluated_with (handle_evaluate lib s.client now req.decoded)
      else if is_get req.method
      then evaluated_with (handle_evaluate_get lib s.client now req.query)
      else method_not_allowed
    else if req.path == "/healthz"
    then if is_get req.method then healthy else method_not_allowed
    else not_found

-- `s.authMode == AuthModeToken && s.auth != nil`.
abbrev pub token_review : Server → Option Review
token_review s = elim s.auth_mode [ no_auth ↦ none | token_auth ↦ s.auth ]

-- The handler that Start gives to the HTTP server.
unfoldable pub serve : Library → (String → Bool) → ℕ → Server → HttpRequest → Wrapped Reply
serve lib is_clean now s req = elim (token_review s) [
  | none ↦ passed_on (route lib is_clean now s req)
  | some review ↦ wrap review req.path req.authorization (route lib is_clean now s req)
]

-- cmd/main.go: the API server for the text of --api-auth-mode; a review needs a clientset.
unfoldable pub api_server : Option Reader → String → String → Review → Server
api_server api_reader api_addr api_auth_mode review =
    if api_auth_mode == "token"
    then new_server api_reader api_addr (with_token_auth review ∷ [])
    else new_server api_reader api_addr []
