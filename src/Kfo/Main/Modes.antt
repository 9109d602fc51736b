-- ===== src/Kfo/Main/Modes.antt =====
-- cmd/kfo/main.go by the API of internal/api/server.go, and by itself: the two agree on a cluster.
use kube_freeze_operator.Common.{
  ◌≡◌, ◌⊎◌, refl, List, String, true, false, ◌||◌, some, [], ◌∷◌, ◌++◌, arith, inl, inr, Bool-cases,
  Option-cases,
}
use kube_freeze_operator.Common.Texts.{◌==◌}
use kube_freeze_operator.Common.Results.{Result, ok, err, Result-cases}
use kube_freeze_operator.External.{Library, Reader}
use kube_freeze_operator.Policy.Evaluator.{evaluate}
use kube_freeze_operator.CiApi.Server.{
  EvaluateResponse, ApiError, unsupported_kind, unsupported_action, evaluation_error, response,
  error_text, parse_kind, parse_action, bare_input, decision_response, evaluate_parsed,
  evaluate_request, handle_evaluate_get,
}
use kube_freeze_operator.CiApi.Command
use kube_freeze_operator.CiApi.Command.{eval_direct}
use kube_freeze_operator.Kfo.Parse.{parse_kind_lem, parse_action_lem}
use kube_freeze_operator.Kfo.Flags.{Options, no_options, set_option, api_url_setting}
use kube_freeze_operator.Kfo.Flags.Laws.{Word, long_form, short_form, json_word, write, meaning}
use kube_freeze_operator.Kfo.Remote.{ApiResponse, api_error, evaluate_url, eval_via_api}
use kube_freeze_operator.Kfo.Main.{
  Host, Failure, direct, remote, exit_status, with_no_error, api_url_of, direct_response,
  remote_response, eval_options, report, can_i, run,
}
use kube_freeze_operator.Kfo.Main.Gate.{run-write}

-- At the URL the API server answers, for the cluster of the host's client and at the host's time. The
-- server reads the three values of the query as the command wrote them, and `text` is the body that it
-- writes: the command decodes a response as that response with no error, and an error as one with a
-- text that is not empty.
pub record ServedAt (lib : Library) (host : Host) (url : String) (o : Options) : Type 0 where
  pub reader : Reader
  pub has_client : host.client ≡ some reader
  pub configured : host.has_config ≡ true
  pub url_given : (url == "") ≡ false
  pub accepted : host.http.accepts_url (evaluate_url url o.namespace o.kind o.action) ≡ true
  pub query : String → String
  pub reads_namespace : query "namespace" ≡ o.namespace
  pub reads_kind : query "kind" ≡ o.kind
  pub reads_action : query "action" ≡ o.action
  pub text : String
  pub fetched : host.http.fetch (evaluate_url url o.namespace o.kind o.action) ≡ some text
  pub decodes_response :
      (r : EvaluateResponse)
      → (handle_evaluate_get lib (some reader) host.now query).0.body ≡ response r
      → host.http.decode text ≡ some (with_no_error r)
  pub decodes_error :
      (e : ApiError)
      → (handle_evaluate_get lib (some reader) host.now query).0.body ≡ error_text e
      → (resp : ApiResponse) × (host.http.decode text ≡ some resp) × ((resp.error == "") ≡ false)

-- Two evaluations give the same response, or both fail.
abbrev pub SameAnswer : Result Failure ApiResponse → Result Failure ApiResponse → Type 0
SameAnswer r s =
    ((resp : ApiResponse) × (r ≡ ok resp) × (s ≡ ok resp))
    ⊎ ((e : Failure) × (f : Failure) × (r ≡ err e) × (s ≡ err f))

module _ (lib : Library) (host : Host) (url : String) (o : Options)
    (s : ServedAt lib host url o) where
  -- The server evaluates the command's request.
  requested :
      handle_evaluate_get lib (some s.reader) host.now s.query
      ≡ evaluate_request lib (some s.reader) host.now (record {
        namespace = o.namespace;
        kind = o.kind;
        action = o.action;
        name = s.query "name";
      })
  unfolding handle_evaluate_get
  requested = rw (handle_evaluate_get, s.reads_namespace, s.reads_kind, s.reads_action)

  remote-ok :
      (r : EvaluateResponse)
      → (handle_evaluate_get lib (some s.reader) host.now s.query).0.body ≡ response r
      → remote_response host url o ≡ ok (with_no_error r)
  unfolding remote_response eval_via_api
  remote-ok r h = rw (remote_response, eval_via_api, s.accepted, s.fetched, s.decodes_response r h)

  remote-err :
      (e : ApiError)
      → (handle_evaluate_get lib (some s.reader) host.now s.query).0.body ≡ error_text e
      → (f : Failure) × (remote_response host url o ≡ err f)
  unfolding remote_response eval_via_api
  remote-err e h =
      let (resp, d, g) = s.decodes_error e h in
      (
        remote (api_error resp.error),
        rw (remote_response, eval_via_api, s.accepted, s.fetched, d, g),
      )

  module _ (namespaced : (o.namespace == "") ≡ false) (kind_given : (o.kind == "") ≡ false)
      (action_given : (o.action == "") ≡ false) where
    both_fail :
        (e : ApiError) (f : Failure)
        → (handle_evaluate_get lib (some s.reader) host.now s.query).0.body ≡ error_text e
        → direct_response lib host o ≡ err f
        → SameAnswer (remote_response host url o) (direct_response lib host o)
    both_fail e f h k = let (g, p) = remote-err e h in inr (g, f, p, k)

    answers_agree : SameAnswer (remote_response host url o) (direct_response lib host o)
    unfolding evaluate_request evaluate_parsed direct_response eval_direct
    answers_agree = elim (Option-cases (parse_kind o.kind)) [
      | inl p ↦
          both_fail (unsupported_kind o.kind) (direct (Command.unsupported_kind o.kind))
            (rw (requested, evaluate_request, namespaced, kind_given, action_given, p))
            (rw
              (direct_response, eval_direct, s.has_client, s.configured, parse_kind_lem o.kind, p))
      | inr (kind, p) ↦ elim (Option-cases (parse_action o.action)) [
        | inl q ↦
            both_fail (unsupported_action o.action) (direct (Command.unsupported_action o.action))
              (rw (requested, evaluate_request, namespaced, kind_given, action_given, p, q))
              (rw (
                direct_response,
                eval_direct,
                s.has_client,
                s.configured,
                parse_kind_lem o.kind,
                p,
                parse_action_lem o.action,
                q,
              ))
        | inr (action, q) ↦
            elim (Result-cases (
              evaluate lib (some s.reader) host.now
                (bare_input host.now o.namespace kind action))) [
                  | inl (e, r) ↦
                      both_fail (evaluation_error e) (direct (Command.evaluation_failed e))
                        (rw (
                          requested, evaluate_request, namespaced, kind_given, action_given, p, q,
                          evaluate_parsed, r,
                        ))
                        (rw (
                          direct_response,
                          eval_direct,
                          s.has_client,
                          s.configured,
                          parse_kind_lem o.kind,
                          p,
                          parse_action_lem o.action,
                          q,
                          r,
                        ))
                  | inr (dec, r) ↦ inl (
                    with_no_error (decision_response lib host.now dec),
                    remote-ok (decision_response lib host.now dec) (
                        rw (
                          requested, evaluate_request, namespaced, kind_given, action_given, p, q,
                          evaluate_parsed, r,
                        )),
                    rw (
                      direct_response,
                      eval_direct,
                      s.has_client,
                      s.configured,
                      parse_kind_lem o.kind,
                      p,
                      parse_action_lem o.action,
                      q,
                      r,
                    ),
                  )
                ]
      ]
    ]

meaning-append :
    (ws vs : List Word) (o : Options) → meaning (ws ++ vs) o ≡ meaning vs (meaning ws o)
meaning-append [] vs o = refl
meaning-append (long_form s value ∷ ws) vs o = meaning-append ws vs (set_option s value o)
meaning-append (short_form s value ∷ ws) vs o = meaning-append ws vs (set_option s value o)
meaning-append (json_word ∷ ws) vs o = meaning-append ws vs (record o { json_output = true })

module _ (lib : Library) (host : Host) (url : String) (o : Options) where
  eval_options-url :
      (url == "") ≡ false
      → eval_options lib host (record o { api_url = url }) ≡ remote_response host url o
  unfolding eval_options api_url_of remote_response
  eval_options-url h = rw h (rw h)

  eval_options-no_url :
      (api_url_of host o == "") ≡ true → eval_options lib host o ≡ direct_response lib host o
  unfolding eval_options
  eval_options-no_url h = rw (eval_options, h)

  -- The answers agree, so the outcomes do.
  can_i-same :
      SameAnswer (eval_options lib host (record o { api_url = url })) (eval_options lib host o)
      → (o.namespace == "" || (o.kind == "" || o.action == "")) ≡ false
      → (can_i lib host (record o { api_url = url }) ≡ can_i lib host o)
        ⊎ ((exit_status (can_i lib host (record o { api_url = url })) ≡ 2)
            × (exit_status (can_i lib host o) ≡ 2))
  unfolding can_i report
  can_i-same (inl (resp, p, q)) h = inl (rw (can_i, h, p, q))
  can_i-same (inr (e, f, p, q)) h = inr (rw (can_i, h, p), rw (can_i, h, q))

  can_i-required :
      (o.namespace == "" || (o.kind == "" || o.action == "")) ≡ true
      → can_i lib host (record o { api_url = url }) ≡ can_i lib host o
  unfolding can_i
  can_i-required h = rw (can_i, h)

  can_i-agrees :
      ServedAt lib host url o
      → (api_url_of host o == "") ≡ true
      → (can_i lib host (record o { api_url = url }) ≡ can_i lib host o)
        ⊎ ((exit_status (can_i lib host (record o { api_url = url })) ≡ 2)
            × (exit_status (can_i lib host o) ≡ 2))
  can_i-agrees s no_url =
      elim (Bool-cases (o.namespace == "" || (o.kind == "" || o.action == ""))) [
        | inl h ↦ inl (can_i-required h)
        | inr h ↦
            can_i-same
              (rw (eval_options-url s.url_given, eval_options-no_url no_url)
                (answers_agree lib host url o s (ground (arith, h)) (ground (arith, h))
                  (ground (arith, h))))
              h
      ]

-- Where the API server at a URL serves the cluster and the time of the host, adding the flag --api-url
-- with it to a command line that has none, and no FREEZE_API_URL, changes neither the exit status nor
-- what is printed, save the text of an error: either the outcomes are equal, or both exit with status 2.
pub run_modes-agree :
    (lib : Library) (host : Host) (url : String) (ws : List Word)
    → ServedAt lib host url (meaning ws no_options)
    → (api_url_of host (meaning ws no_options) == "") ≡ true
    → (run lib host ("can-i" ∷ write (ws ++ long_form api_url_setting url ∷ []))
        ≡ run lib host ("can-i" ∷ write ws))
      ⊎ ((exit_status (run lib host ("can-i" ∷ write (ws ++ long_form api_url_setting url ∷ [])))
            ≡ 2)
          × (exit_status (run lib host ("can-i" ∷ write ws)) ≡ 2))
run_modes-agree lib host url ws s no_url =
    rw
      (
        run-write lib host ws,
        run-write lib host (ws ++ long_form api_url_setting url ∷ []),
        meaning-append ws (long_form api_url_setting url ∷ []) no_options,
      )
      (can_i-agrees lib host url (meaning ws no_options) s no_url)
