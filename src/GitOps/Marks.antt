-- ===== src/GitOps/Marks.antt =====
-- The annotations of internal/gitops/annotations.go, as argocd.go and flux.go write and remove them.
use kube_freeze_operator.Common.{
  ◌≡◌, sym, subst, inl, inr, Bool-cases, ◌≢◌, String, Bool, true, false, ◌&&◌, arith, if◌then◌else◌,
}
use kube_freeze_operator.Common.Texts.{◌==◌, eq_iff, eq_refl}
use kube_freeze_operator.Common.Dict.{Dict, get, put, delete, get-put, get-delete}
use kube_freeze_operator.GitOps.{
  annotation_managed, annotation_managed_by_policy, annotation_managed_value, paused_annotations,
  resumed_annotations,
}

-- Whether annotations say that the policy manages the object.
abbrev pub marks : Dict → String → Bool
marks annotations policy_ref =
    get annotation_managed annotations == annotation_managed_value
    && get annotation_managed_by_policy annotations == policy_ref

pub marks-paused :
    (key original policy_ref other : String) (a : Dict)
    → marks (paused_annotations key original policy_ref a) other ≡ (policy_ref == other)
marks-paused key original policy_ref other a =
    let recorded = put key original a in
    let managed = put annotation_managed annotation_managed_value recorded in
    rw (
      get-put annotation_managed_by_policy annotation_managed policy_ref managed,
      get-put annotation_managed annotation_managed annotation_managed_value recorded,
      get-put annotation_managed_by_policy annotation_managed_by_policy policy_ref managed,
    )

pub marks-resumed :
    (key policy_ref : String) (a : Dict) → marks (resumed_annotations key a) policy_ref ≡ false
marks-resumed key policy_ref a =
    let unmanaged = delete annotation_managed a in
    let without_policy = delete annotation_managed_by_policy unmanaged in
    rw
      (
        get-delete key annotation_managed without_policy,
        get-delete annotation_managed_by_policy annotation_managed unmanaged,
        get-delete annotation_managed annotation_managed a,
      )
      (elim (Bool-cases (key == annotation_managed)) [ inl e ↦ rw e | inr e ↦ rw e ])

-- The recorded original value is read back.
pub original-paused :
    (key original policy_ref : String) (a : Dict)
    → key ≢ annotation_managed
    → key ≢ annotation_managed_by_policy
    → get key (paused_annotations key original policy_ref a) ≡ original
original-paused key original policy_ref a h k =
    let recorded = put key original a in
    let managed = put annotation_managed annotation_managed_value recorded in
    rw
      (
        get-put annotation_managed_by_policy key policy_ref managed,
        get-put annotation_managed key annotation_managed_value recorded,
        get-put key key original a,
        eq_refl key,
      )
      (ground (arith, eq_iff annotation_managed_by_policy key, eq_iff annotation_managed key))

-- The operator's three annotations are not there.
pub record Unmarked (key : String) (a : Dict) : Type 0 where
  pub no_managed : get annotation_managed a ≡ ""
  pub no_policy : get annotation_managed_by_policy a ≡ ""
  pub no_original : get key a ≡ ""

absent_at : (j k : String) (a : Dict) → (j == k) ≡ true → get j a ≡ "" → "" ≡ get k a
absent_at j k a e h = sym (subst (λ i. get i a ≡ "") ((eq_iff j k).0 e) h)

-- A pause and a resume leave what was there.
pub get-resumed_paused :
    (key original policy_ref k : String) (a : Dict)
    → Unmarked key a
    → get k (resumed_annotations key (paused_annotations key original policy_ref a)) ≡ get k a
get-resumed_paused key original policy_ref k a u =
    let recorded = put key original a in
    let managed = put annotation_managed annotation_managed_value recorded in
    let paused = put annotation_managed_by_policy policy_ref managed in
    let unmanaged = delete annotation_managed paused in
    let without_policy = delete annotation_managed_by_policy unmanaged in
    rw
      (
        get-delete key k without_policy,
        get-delete annotation_managed_by_policy k unmanaged,
        get-delete annotation_managed k paused,
        get-put annotation_managed_by_policy k policy_ref managed,
        get-put annotation_managed k annotation_managed_value recorded,
        get-put key k original a,
      )
      (elim (Bool-cases (key == k)) [
        | inl e ↦ rw e (absent_at key k a e u.no_original)
        | inr e ↦ elim (Bool-cases (annotation_managed_by_policy == k)) [
          | inl f ↦ rw (e, f) (absent_at annotation_managed_by_policy k a f u.no_policy)
          | inr f ↦ elim (Bool-cases (annotation_managed == k)) [
            | inl g ↦ rw (e, f, g) (absent_at annotation_managed k a g u.no_managed)
            | inr g ↦ rw (e, f, g)
          ]
        ]
      ])

-- A key that is none of the operator's three.
pub record IsOther (key k : String) : Type 0 where
  pub not_key : (key == k) ≡ false
  pub not_policy : (annotation_managed_by_policy == k) ≡ false
  pub not_managed : (annotation_managed == k) ≡ false

pub get-paused_other :
    (key original policy_ref k : String) (a : Dict)
    → IsOther key k
    → get k (paused_annotations key original policy_ref a) ≡ get k a
get-paused_other key original policy_ref k a o =
    let recorded = put key original a in
    let managed = put annotation_managed annotation_managed_value recorded in
    rw (
      get-put annotation_managed_by_policy k policy_ref managed,
      get-put annotation_managed k annotation_managed_value recorded,
      get-put key k original a,
      o.not_key,
      o.not_policy,
      o.not_managed,
    )

pub get-resumed :
    (key k : String) (a : Dict)
    → get k (resumed_annotations key a) ≡ (
        if key == k
        then ""
        else if annotation_managed_by_policy == k
        then ""
        else if annotation_managed == k
        then ""
        else get k a)
get-resumed key k a =
    let unmanaged = delete annotation_managed a in
    let without_policy = delete annotation_managed_by_policy unmanaged in
    rw (
      get-delete key k without_policy,
      get-delete annotation_managed_by_policy k unmanaged,
      get-delete annotation_managed k a,
    )

pub get-resumed_other :
    (key k : String) (a : Dict) → IsOther key k → get k (resumed_annotations key a) ≡ get k a
get-resumed_other key k a o = rw (get-resumed key k a, o.not_key, o.not_policy, o.not_managed)

pub resumed-Unmarked : (key : String) (a : Dict) → Unmarked key (resumed_annotations key a)
resumed-Unmarked key a = record {
  no_managed = rw (get-resumed key annotation_managed a) (ground arith);
  no_policy = rw (get-resumed key annotation_managed_by_policy a) (ground arith);
  no_original = rw (get-resumed key key a, eq_refl key);
}
