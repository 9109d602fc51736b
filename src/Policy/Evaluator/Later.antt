-- ===== src/Policy/Evaluator/Later.antt =====
-- The next allowed time that Evaluate of internal/policy/evaluator.go reports, and what it answers then.
use kube_freeze_operator.Common.{
  ℕ, ◌≤◌, ◌<◌, ◌≡◌, ◌↔◌, inl, inr, ap, subst, ◌∙◌, false, Option, some, List, [], ◌∷◌, Some, arith,
}
use kube_freeze_operator.Common.Dict.{Dict}
use kube_freeze_operator.Common.Results.{ok}
use kube_freeze_operator.Api.Objects.{ChangeFreeze}
use kube_freeze_operator.External.{Library, Reader, is_zero_time}
use kube_freeze_operator.Policy.Types.{Input, Decision}
use kube_freeze_operator.Policy.Candidates.Laws.{FreezeBlocks}
use kube_freeze_operator.Policy.Evaluator.{get_namespace_labels, with_now, evaluate}
use kube_freeze_operator.Policy.Evaluator.Laws.{
  Answers, ExceptionCovers, IsBlocked, evaluate_denies_iff,
}
use kube_freeze_operator.Policy.Evaluator.Report.{evaluate_report-IsWellFormed}

-- The same request at another time.
abbrev pub at_time : ℕ → Input → Input
at_time t i = record i { now = t }

-- A freeze blocks a request and lasts beyond a time.
abbrev pub Outlasts : Library → Input → Option Dict → ℕ → ChangeFreeze → Type 0
Outlasts lib i ns_labels t cf = FreezeBlocks lib i ns_labels cf × (t < cf.spec.end_time)

still_blocks :
    (lib : Library) (i : Input) (ns_labels : Option Dict) (t : ℕ) (cfs : List ChangeFreeze)
    → i.now ≤ t
    → Some (Outlasts lib i ns_labels t) cfs
    → Some (FreezeBlocks lib (at_time t i) ns_labels) cfs
still_blocks lib i ns_labels t [] later h = absurd h
still_blocks lib i ns_labels t (cf ∷ cfs) later (inl (b, e)) = inl (b.0, b.1, omega (arith, b.2), e)
still_blocks lib i ns_labels t (cf ∷ cfs) later (inr h) =
    inr (still_blocks lib i ns_labels t cfs later h)

with_now-at_time :
    (clock t : ℕ) (i : Input) → is_zero_time t ≡ false → with_now clock (at_time t i) ≡ at_time t i
with_now-at_time clock t i z = rw z

-- evaluate_denies_iff for a request whose time is set.
timed_denies_iff :
    (lib : Library) (r : Reader) (clock : ℕ) (j : Input)
    → with_now clock j ≡ j
    → (a : Answers lib r j)
    → (d : Decision) × (evaluate lib (some r) clock j ≡ ok d)
      × ((d.allowed ≡ false) ↔ (
          IsBlocked lib j a.ns_labels a.cfs a.mws
          × ¬ Some (ExceptionCovers lib j a.ns_labels) a.exs))
timed_denies_iff lib r clock j e =
    subst
      (λ k.
        (a : Answers lib r k)
        → (d : Decision) × (evaluate lib (some r) clock j ≡ ok d)
          × ((d.allowed ≡ false) ↔ (
              IsBlocked lib k a.ns_labels a.cfs a.mws
              × ¬ Some (ExceptionCovers lib k a.ns_labels) a.exs)))
      e (λ a. evaluate_denies_iff lib r clock j a)

-- The answers to the same request at another time.
answers_at :
    (lib : Library) (r : Reader) (t : ℕ) (i : Input) (a : Answers lib r i)
    → Answers lib r (at_time t i)
unfolding get_namespace_labels
answers_at lib r t i a = record {
  ns_labels = a.ns_labels;
  cfs = a.cfs;
  mws = a.mws;
  exs = a.exs;
  labelled = a.labelled;
  freezes_listed = a.freezes_listed;
  windows_listed = a.windows_listed;
  exceptions_listed = a.exceptions_listed;
}

-- With every list at hand, a denial by a ChangeFreeze reports its end as the next allowed time. If
-- another freeze that blocks the request lasts beyond that time, then the same request at the reported
-- time, the policies unchanged, is denied again, unless an exception covers it then.
pub evaluate_at_next_allowed :
    (lib : Library) (r : Reader) (clock : ℕ) (i : Input) (a : Answers lib r (with_now clock i))
    (d : Decision) (t clock' : ℕ)
    → evaluate lib (some r) clock i ≡ ok d
    → d.allowed ≡ false
    → d.freeze_end_time ≡ some t
    → is_zero_time t ≡ false
    → Some (Outlasts lib (with_now clock i) a.ns_labels t) a.cfs
    → (d.next_allowed_time ≡ some t)
      × (d' : Decision) × (evaluate lib (some r) clock' (at_time t (with_now clock i)) ≡ ok d')
      × ((d'.allowed ≡ false)
          ↔ ¬ Some (ExceptionCovers lib (at_time t (with_now clock i)) a.ns_labels) a.exs)
unfolding answers_at
evaluate_at_next_allowed lib r clock i a d t clock' answered is_denied ends z outlasts =
    let (reason, p, m, kinds) = evaluate_report-IsWellFormed lib r clock i a d answered is_denied in
    let timed = with_now clock i in
    let (d', e, f) =
      timed_denies_iff lib r clock' (at_time t timed) (with_now-at_time clock' t timed z)
        (answers_at lib r t timed a) in
    elim kinds [
      | inr (k, none_there) ↦ absurd (cc (ends, none_there))
      | inl (k, (t', fe, na, lt)) ↦
          let same : t' ≡ t = cc (ends, fe) in
          let blocked =
            still_blocks lib timed a.ns_labels t a.cfs (omega (arith, lt, same)) outlasts in
          (na ∙ ap some same, d', e, (λ h. (f.0 h).1, λ n. f.1 (inl blocked, n)))
    ]
