-- ===== src/Examples/GitOpsRuns.antt =====
-- The theorems about Argo CD and Flux objects at the test data.
use Prim.Native.String.{◌++◌, len, slice}
use text.Mathlib.TextPositions.{len-append, slice-append_right}
use kube_freeze_operator.Common.{
  ◌≡◌, ◌≢◌, ◌≤◌, ap, arith, refl, String, Bool, true, false, ◌&&◌, none, some, [], ◌∷◌, All, Some,
}
use kube_freeze_operator.Common.Texts.{◌==◌, eq_iff}
use kube_freeze_operator.Common.Results.{ok}
use kube_freeze_operator.Common.Dict.{Dict, get}
use kube_freeze_operator.Api.Specs.{GitOpsArgoCdSpec}
use kube_freeze_operator.GitOps.{
  ObjectApi, listed, is_listed, managed_by_us, annotations_of, annotation_original_auto_sync,
  annotation_original_suspend, kept, written, list_matching_namespaces, listing_selector,
  invalid_selector,
}
use kube_freeze_operator.GitOps.Scope.{scope_count}
use kube_freeze_operator.GitOps.Marks.{Unmarked}
use kube_freeze_operator.GitOps.ArgoCd.{
  Automated, absent, object, Application, JsonCodec, reconcile_argo_cd_app, reconcile_argo_cd,
}
use kube_freeze_operator.GitOps.ArgoCd.Switch.{RoundTrips, HasPath}
use kube_freeze_operator.GitOps.ArgoCd.Run.{reconcile_argo_cd_pauses}
use kube_freeze_operator.GitOps.ArgoCd.RoundTrip.{
  object_there, reconcile_argo_cd_app-loses_auto_sync,
}
use kube_freeze_operator.Api.Specs.{GitOpsSpec}
use kube_freeze_operator.Api.Kinds.{argocd}
use kube_freeze_operator.GitOps.{no_match, paused_annotations}
use kube_freeze_operator.GitOps.Session.{after_run, Session, here, later, own_run, other_ends}
use kube_freeze_operator.GitOps.ArgoCd.Session.{Course, reconcile_argo_cd_app-Session}
use kube_freeze_operator.GitOps.ArgoCd.Edits.{reconcile_argo_cd_app-replaces_edits}
use kube_freeze_operator.GitOps.Reconciler.{GitOpsApi, GitOpsStore}
use kube_freeze_operator.Examples.{library, reader, labels}

-- A codec that puts a word in front of an object.
abbrev codec : JsonCodec
codec = record { marshal = λ j. some ("json:" ++ j); unmarshal = λ t. some (slice t 5 (len t)) }

longer : (j t : String) → len t ≤ 4 → "json:" ++ j ≢ t
longer j t h e = absurd (omega (arith, len-append "json:" j, ap len e))

unmarshal-marshal : (j : String) → codec.unmarshal ("json:" ++ j) ≡ some j
unmarshal-marshal j = rw (len-append "json:" j, slice-append_right "json:" j)

pub trips : RoundTrips codec
trips = record {
  marshals = λ j. (
    "json:" ++ j,
    refl,
    longer j "" (omega arith),
    longer j "null" (omega arith),
    unmarshal-marshal j,
  );
}

abbrev application_api : ObjectApi Automated
application_api = record { lists = λ ns. listed; takes = λ app. true }

abbrev shop : Application
shop = record {
  namespace = "prod";
  name = "shop";
  labels = labels;
  annotations = none;
  state = object "{prune}";
}

abbrev argo_spec : GitOpsArgoCdSpec
argo_spec = record { application_selector = some "web"; namespace_selector = none }

abbrev web : Dict → Bool
web d = get "team" d == "web"

shop-Unmarked : Unmarked annotation_original_auto_sync (annotations_of shop)
shop-Unmarked = record { no_managed = refl; no_policy = refl; no_original = refl }

shop-HasPath : HasPath shop
shop-HasPath e = absurd (cc)

namespaces_lem : list_matching_namespaces library reader none ≡ ok ("prod" ∷ [])
unfolding list_matching_namespaces kube_freeze_operator.GitOps.selected_names
namespaces_lem = refl

reconcile_argo_cd_pauses_example :
    ((reconcile_argo_cd library reader application_api codec
        (some argo_spec)
        "release"
        true
        (shop ∷ [])).paused_count
      ≡ scope_count (some web) ("prod" ∷ []) (shop ∷ []))
    × All
        (λ app.
          Some (λ ns. (app.namespace == ns && is_listed (some web) app.labels) ≡ true) ("prod" ∷ [])
          → managed_by_us app "release" ≡ true)
        (reconcile_argo_cd library reader application_api codec
          (some argo_spec)
          "release"
          true
          (shop ∷ [])).objects
reconcile_argo_cd_pauses_example =
    reconcile_argo_cd_pauses library reader application_api codec trips "release" argo_spec
      (shop ∷ []) ("prod" ∷ []) (some web) namespaces_lem refl (refl, tt) (λ app. refl)
      (shop-HasPath, tt)

names_differ : ◌≢◌ {A = String} "release" "audit"
names_differ e = absurd (cc ((eq_iff "release" "audit").1 e))

reconcile_argo_cd_app-loses_auto_sync_example :
    (paused : Application) × (paused_twice : Application) × (resumed : Application)
    × (reconcile_argo_cd_app codec "release" true shop ≡ written paused true)
    × (reconcile_argo_cd_app codec "audit" true paused ≡ written paused_twice true)
    × (reconcile_argo_cd_app codec "release" false paused_twice ≡ kept false)
    × (reconcile_argo_cd_app codec "audit" false paused_twice ≡ written resumed false)
    × (resumed.state ≡ absent)
reconcile_argo_cd_app-loses_auto_sync_example =
    reconcile_argo_cd_app-loses_auto_sync codec trips "release" "audit" shop "{prune}" names_differ
      refl shop-Unmarked

-- The policy pauses the Application, an update fails, and another policy ends.
abbrev paused : Application
paused =
    after_run
      (reconcile_argo_cd_app codec "audit" false
        (after_run (reconcile_argo_cd_app codec "release" true shop) false shop))
      true (after_run (reconcile_argo_cd_app codec "release" true shop) false shop)

in-Session : Session (reconcile_argo_cd_app codec) "release" shop paused
in-Session =
    later (later here (own_run true false))
      (other_ends "audit" true (λ e. absurd (cc ((eq_iff "audit" "release").1 e))))

reconcile_argo_cd_app-Session_example : Course codec "release" shop shop-Unmarked paused
reconcile_argo_cd_app-Session_example =
    reconcile_argo_cd_app-Session codec trips "release" shop paused (object_there "{prune}")
      shop-Unmarked in-Session

-- The Application while the policy holds it, and after an edit.
abbrev edited : Application
edited = record shop {
  annotations = some (
      paused_annotations annotation_original_auto_sync "json:{prune}" "release"
        (annotations_of shop));
  state = object "{}";
}

reconcile_argo_cd_app-replaces_edits_example :
    (reconcile_argo_cd_app codec "release" true edited ≡ kept true)
    × (resumed : Application) × (reconcile_argo_cd_app codec "release" false edited
        ≡ written resumed false)
    × (resumed.state ≡ object "{prune}")
unfolding trips
reconcile_argo_cd_app-replaces_edits_example =
    reconcile_argo_cd_app-replaces_edits codec trips "release" edited "{prune}" "{}" refl refl refl

abbrev pub git_ops_api : GitOpsApi
git_ops_api = record {
  application_api = application_api;
  flux_api = record {
    kustomization_api = record { lists = λ ns. no_match; takes = λ o. true };
    helm_release_api = record { lists = λ ns. no_match; takes = λ o. true };
  };
  codec = codec;
}

abbrev pub git_ops_spec : GitOpsSpec
git_ops_spec = record {
  enabled = true;
  providers = argocd ∷ [];
  argocd = some argo_spec;
  flux = none;
}

abbrev pub git_ops_store : GitOpsStore
git_ops_store = record {
  applications = shop ∷ [];
  flux = record { kustomizations = []; helm_releases = [] };
}
