-- ===== src/CiApi/Serve/Access.antt =====
-- Who gets an evaluation from the CI API server of internal/api, as cmd/main.go sets it up.
use kube_freeze_operator.Common.{ℕ, ◌≡◌, String, Bool, true, false, ◌||◌, Option, some}
use kube_freeze_operator.Common.Texts.{◌==◌}
use kube_freeze_operator.External.{Library, Reader}
use kube_freeze_operator.CiApi.Auth.{Wrapped, passed_on, refused, extract_bearer_token, wrap}
use kube_freeze_operator.CiApi.Serve.{
  Review, HttpRequest, Reply, evaluated, is_get, route, api_server,
}

abbrev pub is_evaluated : Reply → Bool
is_evaluated (evaluated answer metrics) = true
is_evaluated _ = false

abbrev pub got_evaluation : Wrapped Reply → Bool
got_evaluation (passed_on r) = is_evaluated r
got_evaluation (refused n e) = false

-- The request has a Bearer token that is not empty and that the TokenReview authenticates.
abbrev pub IsAuthenticated : Review → HttpRequest → Type 0
IsAuthenticated review req =
    ((extract_bearer_token req.authorization == "") ≡ false)
    × (review (extract_bearer_token req.authorization) ≡ some true)

-- The request is for the evaluation, by a method that has it.
abbrev pub AsksEvaluation : (String → Bool) → HttpRequest → Type 0
AsksEvaluation is_clean req =
    (is_clean req.path ≡ true)
    × (req.path ≡ "/v1/evaluate")
    × ((req.method == "POST" || is_get req.method) ≡ true)

module _ (lib : Library) (is_clean : String → Bool) (now : ℕ) (reader : Option Reader)
    (addr mode : String) (review : Review) (req : HttpRequest) where
  abbrev checked : Wrapped Reply
  checked =
      wrap review req.path req.authorization
        (route lib is_clean now (api_server reader addr mode review) req)
