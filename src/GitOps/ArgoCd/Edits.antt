-- ===== src/GitOps/ArgoCd/Edits.antt =====
-- An Application of internal/gitops/argocd.go that someone edits while a policy holds it.
use kube_freeze_operator.Common.{◌≡◌, refl, String, true, false, some}
use kube_freeze_operator.Common.Dict.{get}
use kube_freeze_operator.GitOps.{
  kept, written, annotation_original_auto_sync, annotations_of, managed_by_us, resumed_annotations,
}
use kube_freeze_operator.GitOps.ArgoCd.{
  Json, object, Application, JsonCodec, restored_automated, resume_app, reconcile_argo_cd_app,
}
use kube_freeze_operator.GitOps.ArgoCd.Switch.{RoundTrips}
use kube_freeze_operator.GitOps.ArgoCd.RoundTrip.{not_empty}

-- An Application that a policy holds, with the automated sync that it had recorded, and whose automated
-- sync someone has meanwhile set to anything: while the policy is active it is left as it is and
-- counted as paused, and the end of the policy replaces what was set by what was recorded.
pub reconcile_argo_cd_app-replaces_edits :
    (codec : JsonCodec) (trips : RoundTrips codec) (policy_ref : String) (app : Application)
    (original edited : Json)
    → managed_by_us app policy_ref ≡ true
    → get annotation_original_auto_sync (annotations_of app) ≡ (trips.marshals original).0
    → app.state ≡ object edited
    → (reconcile_argo_cd_app codec policy_ref true app ≡ kept true)
      × (resumed : Application) × (reconcile_argo_cd_app codec policy_ref false app
          ≡ written resumed false)
      × (resumed.state ≡ object original)
unfolding reconcile_argo_cd_app restored_automated
reconcile_argo_cd_app-replaces_edits codec trips policy_ref app original edited m k s =
    let (t, w, p, q, d) = trips.marshals original in
    (
      rw m,
      record app {
        annotations = some (resumed_annotations annotation_original_auto_sync (annotations_of app));
        state = object original;
      },
      rw (
        m,
        resume_app,
        k,
        s,
        restored_automated,
        not_empty codec trips t "" p,
        not_empty codec trips t "null" q,
        d,
        s,
      ),
      refl,
    )
