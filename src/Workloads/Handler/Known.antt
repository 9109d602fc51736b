-- ===== src/Workloads/Handler/Known.antt =====
-- The targets of internal/webhook/workloads/validator.go have a kind and an action of the API.
use kube_freeze_operator.Common.{
  ◌≡◌, Bool, true, false, ◌&&◌, Option, some, arith, Bool-cases, Option-cases, inl, inr,
}
use kube_freeze_operator.Common.Texts.{◌==◌}
use kube_freeze_operator.Common.Dict.{Dict}
use kube_freeze_operator.Common.Results.{ok, Result-cases}
use kube_freeze_operator.Api.Kinds.{Action, other_action, TargetKind, other_kind}
use kube_freeze_operator.External.{DeepEqual, Reader}
use kube_freeze_operator.Diff.{Object, classify_update}
use kube_freeze_operator.Workloads.Request.{Request, Decoder, map_gvk_to_target_kind, classify}
use kube_freeze_operator.Workloads.Handler.{Target, scale_target, workload_target, request_target}

abbrev pub is_known_kind : TargetKind → Bool
is_known_kind (other_kind s) = false
is_known_kind _ = true

abbrev pub is_known_action : Action → Bool
is_known_action (other_action s) = false
is_known_action _ = true

map_gvk-known :
    (eq : DeepEqual) (d : Option Decoder) (req : Request) (k : TargetKind)
    → map_gvk_to_target_kind req.kind_group req.kind_text ≡ some k
    → is_known_kind k ≡ true
unfolding map_gvk_to_target_kind
map_gvk-known eq d req k h = ground arith

classify_update-known :
    (eq : DeepEqual) (k : TargetKind) (old new : Object) (a : Action)
    → classify_update eq k old new ≡ ok a
    → is_known_action a ≡ true
unfolding classify_update
classify_update-known eq k old new a h = ground arith

classify-known :
    (eq : DeepEqual) (d : Option Decoder) (req : Request) (k : TargetKind) (a : Action)
    (labels : Option Dict)
    → classify eq d req k ≡ ok (a, labels)
    → is_known_action a ≡ true
unfolding classify
classify-known eq d req k a labels h = grind (arith, classify_update-known)

scale_target-known :
    (reader : Reader) (req : Request) (t : Target)
    → scale_target reader req ≡ ok t
    → is_known_kind t.kind && is_known_action t.action ≡ true
unfolding scale_target
scale_target-known reader req t h = ground arith

workload_target-known :
    (eq : DeepEqual) (d : Option Decoder) (req : Request) (t : Target)
    → workload_target eq d req ≡ ok t
    → is_known_kind t.kind && is_known_action t.action ≡ true
unfolding workload_target
workload_target-known eq d req t h =
    elim (Option-cases (map_gvk_to_target_kind req.kind_group req.kind_text)) [
      | inl e ↦ absurd (cc (rw (workload_target, e) at h))
      | inr (k, e) ↦ elim (Result-cases (classify eq d req k)) [
        | inl (x, c) ↦ absurd (cc (rw (workload_target, e, c) at h))
        | inr ((a, labels), c) ↦ ground (
          arith,
          rw (workload_target, e, c) at h,
          map_gvk-known eq d req k e,
          classify-known eq d req k a labels c,
        )
      ]
    ]

pub request_target-known :
    (eq : DeepEqual) (d : Option Decoder) (reader : Reader) (req : Request) (t : Target)
    → request_target eq d reader req ≡ ok t
    → is_known_kind t.kind && is_known_action t.action ≡ true
unfolding request_target
request_target-known eq d reader req t h =
    elim (Bool-cases (req.sub_resource == "scale" && req.resource_group == "apps")) [
      | inl e ↦ scale_target-known reader req t (rw e at h)
      | inr e ↦ workload_target-known eq d req t (rw e at h)
    ]
