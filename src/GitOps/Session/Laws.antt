-- ===== src/GitOps/Session/Laws.antt =====
-- internal/gitops over time: the invariant of an object under any sequence of runs.
use kube_freeze_operator.Common.{
  ◌≡◌, ◌≢◌, refl, sym, subst, ◌∙◌, ◌⊎◌, inl, inr, String, Bool, true, false, some, arith,
  Bool-cases,
}
use kube_freeze_operator.Common.Texts.{◌==◌, eq_iff, eq_refl}
use kube_freeze_operator.Common.Dict.{Dict, get}
use kube_freeze_operator.GitOps.{
  GitOpsObject, Outcome, annotation_managed, annotation_managed_by_policy, annotations_of,
  managed_by_us, paused_annotations, resumed_annotations,
}
use kube_freeze_operator.GitOps.Marks.{
  Unmarked, marks-paused, original-paused, get-paused_other, get-resumed_other, resumed-Unmarked,
}
use kube_freeze_operator.GitOps.Session.{
  after_run, Happens, own_run, other_ends, Session, here, later, Free, Held, Switches,
}

module _ {S : Type 0} (step : String → Bool → GitOpsObject S → Outcome S) (key text : String)
    (paused : S) (IsOriginal : S → Type 0) (laws : Switches step key text paused IsOriginal)
    (policy_ref : String) (start : GitOpsObject S) where
  abbrev pub InSession : GitOpsObject S → Type 0
  InSession o = Free key IsOriginal start o ⊎ Held key policy_ref text paused start o

  Unmarked-managed :
      (o : GitOpsObject S) (p : String)
      → Unmarked key (annotations_of o)
      → managed_by_us o p ≡ false
  Unmarked-managed o p u = rw u.no_managed

  paused-Held :
      (o : GitOpsObject S)
      → Free key IsOriginal start o
      → Held key policy_ref text paused start (record o {
        annotations = some (paused_annotations key text policy_ref (annotations_of o));
        state = paused;
      })
  paused-Held o f = record {
    same = record {
      same_namespace = f.same.same_namespace;
      same_name = f.same.same_name;
      same_labels = f.same.same_labels;
      same_elsewhere = λ k other.
          get-paused_other key text policy_ref k (annotations_of o) other
          ∙ f.same.same_elsewhere k other;
    };
    managed = λ q. marks-paused key text policy_ref q (annotations_of o);
    recorded = original-paused key text policy_ref (annotations_of o) laws.own_key laws.own_key_too;
    is_paused = refl;
  }

  resumed-Free :
      (o : GitOpsObject S)
      → Held key policy_ref text paused start o
      → Free key IsOriginal start (record o {
        annotations = some (resumed_annotations key (annotations_of o));
        state = laws.back;
      })
  resumed-Free o h = record {
    same = record {
      same_namespace = h.same.same_namespace;
      same_name = h.same.same_name;
      same_labels = h.same.same_labels;
      same_elsewhere = λ k other.
          get-resumed_other key k (annotations_of o) other ∙ h.same.same_elsewhere k other;
    };
    unmarked = resumed-Unmarked key (annotations_of o);
    original = laws.back_original;
  }

  own_active :
      (o : GitOpsObject S) (taken : Bool)
      → InSession o
      → InSession (after_run (step policy_ref true o) taken o)
  own_active o taken (inr h) =
      rw (laws.stays policy_ref true o (h.managed policy_ref ∙ eq_refl policy_ref)) (inr h)
  own_active o true (inl f) =
      rw (laws.pauses policy_ref o (Unmarked-managed o policy_ref f.unmarked) f.original)
        (inr (paused-Held o f))
  own_active o false (inl f) =
      rw (laws.pauses policy_ref o (Unmarked-managed o policy_ref f.unmarked) f.original) (inl f)

  own_inactive :
      (o : GitOpsObject S) (taken : Bool)
      → InSession o
      → InSession (after_run (step policy_ref false o) taken o)
  own_inactive o taken (inl f) =
      rw (laws.stays policy_ref false o (Unmarked-managed o policy_ref f.unmarked)) (inl f)
  own_inactive o true (inr h) =
      rw
        (laws.resumes policy_ref o (h.managed policy_ref ∙ eq_refl policy_ref) h.recorded
          h.is_paused)
        (inl (resumed-Free o h))
  own_inactive o false (inr h) =
      rw
        (laws.resumes policy_ref o (h.managed policy_ref ∙ eq_refl policy_ref) h.recorded
          h.is_paused)
        (inr h)

  not_other : (q : String) → q ≢ policy_ref → (policy_ref == q) ≡ false
  not_other q n = ground (arith, eq_iff policy_ref q, λ (e : policy_ref ≡ q). n (sym e))

  other_inactive :
      (o : GitOpsObject S) (taken : Bool) (q : String)
      → q ≢ policy_ref
      → InSession o
      → InSession (after_run (step q false o) taken o)
  other_inactive o taken q n (inl f) =
      rw (laws.stays q false o (Unmarked-managed o q f.unmarked)) (inl f)
  other_inactive o taken q n (inr h) =
      rw (laws.stays q false o (h.managed q ∙ not_other q n)) (inr h)

  Happens-InSession :
      {o o' : GitOpsObject S} → Happens step policy_ref o o' → InSession o → InSession o'
  Happens-InSession {o} (own_run true taken) s = own_active o taken s
  Happens-InSession {o} (own_run false taken) s = own_inactive o taken s
  Happens-InSession {o} (other_ends q taken n) s = other_inactive o taken q n s

  -- The invariant of a session that starts at a free object.
  pub Session-InSession :
      {o : GitOpsObject S} → Session step policy_ref start o → InSession start → InSession o
  Session-InSession here s = s
  Session-InSession (later r h) s = Happens-InSession h (Session-InSession r s)

  -- The end of the policy, taken, frees the object.
  pub end-Free :
      (o : GitOpsObject S)
      → InSession o
      → Free key IsOriginal start (after_run (step policy_ref false o) true o)
  end-Free o (inl f) =
      rw (laws.stays policy_ref false o (Unmarked-managed o policy_ref f.unmarked)) f
  end-Free o (inr h) =
      rw
        (laws.resumes policy_ref o (h.managed policy_ref ∙ eq_refl policy_ref) h.recorded
          h.is_paused)
        (resumed-Free o h)

both_absent :
    (j k : String) (a b : Dict) → (j == k) ≡ true → get j a ≡ "" → get j b ≡ "" → get k a ≡ get k b
both_absent j k a b e p q = subst (λ i. get i a ≡ get i b) ((eq_iff j k).0 e) (p ∙ sym q)

-- A free object has the annotations of the start, if that had none of the operator's.
pub Free-annotations :
    {S : Type 0} (key : String) (IsOriginal : S → Type 0) (start o : GitOpsObject S) (k : String)
    → Unmarked key (annotations_of start)
    → Free key IsOriginal start o
    → get k (annotations_of o) ≡ get k (annotations_of start)
Free-annotations key IsOriginal start o k u f = elim (Bool-cases (key == k)) [
  | inl e ↦ both_absent key k _ _ e f.unmarked.no_original u.no_original
  | inr e ↦ elim (Bool-cases (annotation_managed_by_policy == k)) [
    | inl p ↦ both_absent annotation_managed_by_policy k _ _ p f.unmarked.no_policy u.no_policy
    | inr p ↦ elim (Bool-cases (annotation_managed == k)) [
      | inl m ↦ both_absent annotation_managed k _ _ m f.unmarked.no_managed u.no_managed
      | inr m ↦ f.same.same_elsewhere k (record { not_key = e; not_policy = p; not_managed = m })
    ]
  ]
]
