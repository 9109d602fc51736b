-- ===== src/Policy/Evaluator/Unordered.antt =====
-- Evaluate of internal/policy/evaluator.go and the order in which the API server lists the objects.
use kube_freeze_operator.Common.{
  ℕ, ◌≡◌, ◌↔◌, inl, inr, refl, sym, ap, ◌∙◌, false, Option, none, some, List, Some, All, All_at,
  All-append, filter_map-All, arith,
}
use kube_freeze_operator.Common.Dict.{Dict}
use kube_freeze_operator.Common.Results.{ok}
use kube_freeze_operator.Common.Entries.{
  SameEntries, SameEntries-sym, SameEntries-Some, filter_map-SameEntries, append-entry,
}
use kube_freeze_operator.Common.TextOrder.{text_lt_antisymm}
use kube_freeze_operator.Api.Objects.{ChangeFreeze, MaintenanceWindow}
use kube_freeze_operator.External.{Library, Reader}
use kube_freeze_operator.Policy.Types.{Input, Decision, PolicyRef}
use kube_freeze_operator.Policy.Candidates.{DenyCandidate, freeze_candidate, window_candidate}
use kube_freeze_operator.Policy.Candidates.Laws.{FreezeBlocks, WindowBlocks}
use kube_freeze_operator.Policy.Choice.Order.{NotLater, NotAfter}
use kube_freeze_operator.Policy.Evaluator.{with_now, evaluate}
use kube_freeze_operator.Policy.Evaluator.Laws.{
  Answers, ExceptionCovers, IsBlocked, denials, evaluate_denies_iff,
}
use kube_freeze_operator.Policy.Evaluator.Report.{evaluate_reports_first}

denials-SameEntries :
    (lib : Library) (i : Input) (ns_labels : Option Dict) (cfs cfs' : List ChangeFreeze)
    (mws mws' : List MaintenanceWindow)
    → SameEntries cfs cfs'
    → SameEntries mws mws'
    → SameEntries (denials lib i ns_labels cfs mws) (denials lib i ns_labels cfs' mws')
denials-SameEntries lib i ns_labels cfs cfs' mws mws' h k c =
    let p = filter_map-SameEntries (freeze_candidate lib i ns_labels) cfs cfs' h in
    let q = filter_map-SameEntries (window_candidate lib i ns_labels) mws mws' k in
    (
      append-entry _ _ _ _ p q c,
      append-entry _ _ _ _ (SameEntries-sym _ _ p) (SameEntries-sym _ _ q) c,
    )

-- A denial is told from others by the name of its policy.
abbrev IsNamed : DenyCandidate → Type 0
IsNamed c = c.ref.name ≡ c.deterministic_id

denials-IsNamed :
    (lib : Library) (i : Input) (ns_labels : Option Dict) (cfs : List ChangeFreeze)
    (mws : List MaintenanceWindow)
    → All IsNamed (denials lib i ns_labels cfs mws)
unfolding freeze_candidate window_candidate
denials-IsNamed lib i ns_labels cfs mws =
    All-append IsNamed _ _
      (filter_map-All (freeze_candidate lib i ns_labels) IsNamed (λ x c h. ground arith) cfs)
      (filter_map-All (window_candidate lib i ns_labels) IsNamed (λ x c h. ground arith) mws)

NotLater-antisymm :
    (s t : Option ℕ) (P Q : Type 0) → NotLater s t P → NotLater t s Q → (s ≡ t) × P × Q
NotLater-antisymm none none P Q h k = (refl, h, k)
NotLater-antisymm none (some t) P Q h k = absurd h
NotLater-antisymm (some s) none P Q h k = absurd k
NotLater-antisymm (some s) (some t) P Q (inl h) (inl k) = absurd (omega (arith, h, k))
NotLater-antisymm (some s) (some t) P Q (inl h) (inr k) = absurd (omega (arith, h, k.0))
NotLater-antisymm (some s) (some t) P Q (inr h) (inl k) = absurd (omega (arith, h.0, k))
NotLater-antisymm (some s) (some t) P Q (inr h) (inr k) = (ap some h.0, h.1, k.1)

NotAfter-antisymm :
    (c x : DenyCandidate)
    → NotAfter c x
    → NotAfter x c
    → (c.next_allowed ≡ x.next_allowed) × (c.deterministic_id ≡ x.deterministic_id)
NotAfter-antisymm c x h k =
    let (e, p, q) = NotLater-antisymm c.next_allowed x.next_allowed _ _ h k in
    (e, text_lt_antisymm c.deterministic_id x.deterministic_id q p)

-- Two denials that report the same next allowed time and a policy of the same name, if they deny.
abbrev pub ReportsAlike : Decision → Decision → Type 0
ReportsAlike d d' =
    (d.next_allowed_time ≡ d'.next_allowed_time)
    × (p p' : PolicyRef) × (d.matched_policy ≡ some p)
    × (d'.matched_policy ≡ some p')
    × (p.name ≡ p'.name)

-- What the API server answered decides the same requests.
verdict-unordered :
    (lib : Library) (r r' : Reader) (i : Input) (a : Answers lib r i) (a' : Answers lib r' i)
    → a.ns_labels ≡ a'.ns_labels
    → SameEntries a.cfs a'.cfs
    → SameEntries a.mws a'.mws
    → SameEntries a.exs a'.exs
    → IsBlocked lib i a.ns_labels a.cfs a.mws × ¬ Some (ExceptionCovers lib i a.ns_labels) a.exs
    → IsBlocked lib i a'.ns_labels a'.cfs a'.mws
      × ¬ Some (ExceptionCovers lib i a'.ns_labels) a'.exs
verdict-unordered lib r r' i a a' labels freezes windows exceptions = rw labels (λ v. (
  elim v.0 [
    | inl h ↦ inl (SameEntries-Some (FreezeBlocks lib i a'.ns_labels) a.cfs a'.cfs freezes h)
    | inr h ↦ inr (SameEntries-Some (WindowBlocks lib i a'.ns_labels) a.mws a'.mws windows h)
  ],
  λ h. v.1 (
      SameEntries-Some (ExceptionCovers lib i a'.ns_labels) a'.exs a.exs
        (SameEntries-sym a.exs a'.exs exceptions) h),
))

module _ (lib : Library) (r r' : Reader) (clock : ℕ) (i : Input)
    (a : Answers lib r (with_now clock i)) (a' : Answers lib r' (with_now clock i))
    (labels : a.ns_labels ≡ a'.ns_labels) (freezes : SameEntries a.cfs a'.cfs)
    (windows : SameEntries a.mws a'.mws) where
  denies-alike :
      (d d' : Decision)
      → evaluate lib (some r) clock i ≡ ok d
      → evaluate lib (some r') clock i ≡ ok d'
      → d.allowed ≡ false
      → d'.allowed ≡ false
      → ReportsAlike d d'
  denies-alike d d' e e' n n' =
      let timed = with_now clock i in
      let (c, m, f, q) = evaluate_reports_first lib r clock i a d e n in
      let (c', m', f', q') = evaluate_reports_first lib r' clock i a' d' e' n' in
      let same =
        denials-SameEntries lib timed a'.ns_labels a.cfs a'.cfs a.mws a'.mws freezes windows in
      let m : Some (λ x. x ≡ c) (denials lib timed a'.ns_labels a.cfs a.mws) = rw (sym labels) m in
      let f : All (NotAfter c) (denials lib timed a'.ns_labels a.cfs a.mws) = rw (sym labels) f in
      let before = All_at (NotAfter c) c' _ f ((same c').1 m') in
      let after = All_at (NotAfter c') c _ f' ((same c).0 m) in
      let (t, n) = NotAfter-antisymm c c' before after in
      let w = All_at IsNamed c _ (denials-IsNamed lib timed a'.ns_labels a.cfs a.mws) m in
      let w' = All_at IsNamed c' _ (denials-IsNamed lib timed a'.ns_labels a'.cfs a'.mws) m' in
      rw (q, q') (t, c.ref, c'.ref, refl, refl, w ∙ n ∙ sym w')

-- The answer of the API server does not matter up to the order of its lists: with every list at hand,
-- two clusters with the same labels of the namespace and the same freezes, windows and exceptions, in
-- whatever order and however often they are listed, both answer, deny the same requests, and report
-- the same next allowed time and the same name of the policy for a denial.
pub evaluate_unordered :
    (lib : Library) (r r' : Reader) (clock : ℕ) (i : Input) (a : Answers lib r (with_now clock i))
    (a' : Answers lib r' (with_now clock i))
    → a.ns_labels ≡ a'.ns_labels
    → SameEntries a.cfs a'.cfs
    → SameEntries a.mws a'.mws
    → SameEntries a.exs a'.exs
    → (d d' : Decision) × (evaluate lib (some r) clock i ≡ ok d)
      × (evaluate lib (some r') clock i ≡ ok d')
      × ((d.allowed ≡ false) ↔ (d'.allowed ≡ false))
      × (d.allowed ≡ false → ReportsAlike d d')
evaluate_unordered lib r r' clock i a a' labels freezes windows exceptions =
    let (d, e, f) = evaluate_denies_iff lib r clock i a in
    let (d', e', f') = evaluate_denies_iff lib r' clock i a' in
    let there : d.allowed ≡ false → d'.allowed ≡ false =
      λ n. f'.1 (verdict-unordered lib r r' _ a a' labels freezes windows exceptions (f.0 n)) in
    let back : d'.allowed ≡ false → d.allowed ≡ false = λ n. f.1 (
      verdict-unordered lib r' r _ a' a (sym labels) (SameEntries-sym _ _ freezes)
        (SameEntries-sym _ _ windows) (SameEntries-sym _ _ exceptions) (f'.0 n)) in
    (
      d,
      d',
      e,
      e',
      (there, back),
      λ n. denies-alike lib r r' clock i a a' labels freezes windows d d' e e' n (there n),
    )
