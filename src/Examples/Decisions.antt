-- ===== src/Examples/Decisions.antt =====
-- The theorems about decisions at the cluster of the test data.
use kube_freeze_operator.Common.{◌≡◌, ◌↔◌, ◌⊎◌, refl, true, false, none, some, [], ◌∷◌, Some, All}
use kube_freeze_operator.Common.Results.{ok, is_err}
use kube_freeze_operator.Api.Kinds.{change_freeze}
use kube_freeze_operator.External.{Reader}
use kube_freeze_operator.Policy.Types.{Decision}
use kube_freeze_operator.Policy.Candidates.{DenyCandidate}
use kube_freeze_operator.Policy.Choice.Order.{NotAfter}
use kube_freeze_operator.Policy.Evaluator.{get_namespace_labels, initial_decision, evaluate}
use kube_freeze_operator.Policy.Evaluator.Laws.{
  Answers, ExceptionCovers, IsBlocked, denials, evaluate_denies_iff,
}
use kube_freeze_operator.Policy.Evaluator.Report.{evaluate_reports_first, evaluate_fails_iff}
use kube_freeze_operator.Api.Objects.{ChangeFreeze}
use kube_freeze_operator.Policy.Evaluator.Later.{Outlasts, at_time, evaluate_at_next_allowed}
use kube_freeze_operator.Common.Entries.{SameEntries}
use kube_freeze_operator.Policy.Evaluator.Unordered.{ReportsAlike, evaluate_unordered}
use kube_freeze_operator.Common.{inl, inr, arith}
use kube_freeze_operator.Examples.{library, reader, now, input, freeze, exception}

pub labelled : get_namespace_labels reader input ≡ ok (some [])
unfolding get_namespace_labels
labelled = refl

abbrev pub answers : Answers library reader input
answers = record {
  ns_labels = some [];
  cfs = freeze ∷ [];
  mws = [];
  exs = exception ∷ [];
  labelled = labelled;
  freezes_listed = refl;
  windows_listed = refl;
  exceptions_listed = refl;
}

-- The decision on the update.
abbrev pub decision : Decision
decision = record (initial_decision input) {
  allowed = false;
  matched_policy = some (record { kind = change_freeze; name = "release" });
  matched_override = none;
  reason = "release week";
  next_allowed_time = some 34131600000000000;
  freeze_end_time = some 34131600000000000;
}

pub decision_lem : evaluate library (some reader) now input ≡ ok decision
unfolding evaluate get_namespace_labels
    kube_freeze_operator.Policy.Evaluator.collect_deny_candidates
    kube_freeze_operator.Policy.Evaluator.collect_change_freezes
    kube_freeze_operator.Policy.Evaluator.collect_maintenance_windows
    kube_freeze_operator.Policy.Evaluator.decide
    kube_freeze_operator.Policy.Choice.select_deny_candidate
    kube_freeze_operator.Policy.Choice.sort_stable
    kube_freeze_operator.Policy.Candidates.freeze_candidate
    kube_freeze_operator.Policy.Selectors.target_matches
    kube_freeze_operator.Policy.Selectors.match_label_selector
    kube_freeze_operator.Policy.Selectors.action_in kube_freeze_operator.Policy.Choice.insert
    kube_freeze_operator.Policy.Evaluator.check_exception_override
    kube_freeze_operator.Policy.Evaluator.first_exception
    kube_freeze_operator.Policy.Evaluator.exception_applies
    kube_freeze_operator.Policy.Selectors.first_non_empty
decision_lem = refl

evaluate_denies_iff_example :
    (d : Decision) × (evaluate library (some reader) now input ≡ ok d)
    × ((d.allowed ≡ false) ↔ (
        IsBlocked library input (some []) (freeze ∷ []) []
        × ¬ Some (ExceptionCovers library input (some [])) (exception ∷ [])))
evaluate_denies_iff_example = evaluate_denies_iff library reader now input answers

evaluate_reports_first_example :
    (c : DenyCandidate) × Some (λ x. x ≡ c) (denials library input (some []) (freeze ∷ []) [])
    × All (NotAfter c) (denials library input (some []) (freeze ∷ []) [])
    × (decision ≡ record (initial_decision input) {
      allowed = false;
      matched_policy = some c.ref;
      matched_override = none;
      reason = c.reason;
      next_allowed_time = c.next_allowed;
      freeze_end_time = c.freeze_end;
    })
evaluate_reports_first_example =
    evaluate_reports_first library reader now input answers decision decision_lem refl

evaluate_fails_iff_example : (is_err (evaluate library (some reader) now input) ≡ true) ↔ (
    (is_err (get_namespace_labels reader input) ≡ true)
    ⊎ (reader.list_change_freezes ≡ none)
    ⊎ (reader.list_maintenance_windows ≡ none))
evaluate_fails_iff_example = evaluate_fails_iff library reader now input

-- A second freeze, which ends an hour later.
abbrev audit : ChangeFreeze
audit = record freeze { name = "audit"; spec = record freeze.spec { end_time = 34135200000000000 } }

abbrev two_freezes : Reader
two_freezes = record reader { list_change_freezes = some (freeze ∷ audit ∷ []) }

two_labelled : get_namespace_labels two_freezes input ≡ ok (some [])
unfolding get_namespace_labels
two_labelled = refl

abbrev two_answers : Answers library two_freezes input
two_answers = record {
  ns_labels = some [];
  cfs = freeze ∷ audit ∷ [];
  mws = [];
  exs = exception ∷ [];
  labelled = two_labelled;
  freezes_listed = refl;
  windows_listed = refl;
  exceptions_listed = refl;
}

two_decision : evaluate library (some two_freezes) now input ≡ ok decision
unfolding evaluate get_namespace_labels
    kube_freeze_operator.Policy.Evaluator.collect_deny_candidates
    kube_freeze_operator.Policy.Evaluator.collect_change_freezes
    kube_freeze_operator.Policy.Evaluator.collect_maintenance_windows
    kube_freeze_operator.Policy.Evaluator.decide
    kube_freeze_operator.Policy.Choice.select_deny_candidate
    kube_freeze_operator.Policy.Choice.sort_stable
    kube_freeze_operator.Policy.Candidates.freeze_candidate
    kube_freeze_operator.Policy.Selectors.target_matches
    kube_freeze_operator.Policy.Selectors.match_label_selector
    kube_freeze_operator.Policy.Selectors.action_in kube_freeze_operator.Policy.Choice.insert
    kube_freeze_operator.Policy.Evaluator.check_exception_override
    kube_freeze_operator.Policy.Evaluator.first_exception
    kube_freeze_operator.Policy.Evaluator.exception_applies
    kube_freeze_operator.Policy.Selectors.first_non_empty
    kube_freeze_operator.Policy.Choice.deny_less
two_decision = refl

audit-Outlasts : Some (Outlasts library input (some []) 34131600000000000) (freeze ∷ audit ∷ [])
unfolding kube_freeze_operator.Policy.Selectors.target_matches
    kube_freeze_operator.Policy.Selectors.match_label_selector
    kube_freeze_operator.Policy.Selectors.action_in
audit-Outlasts = inr (inl ((refl, refl, omega arith, omega arith), omega arith))

evaluate_at_next_allowed_example :
    (decision.next_allowed_time ≡ some 34131600000000000)
    × (d' : Decision) × (evaluate library (some two_freezes) now (at_time 34131600000000000 input)
        ≡ ok d')
    × ((d'.allowed ≡ false)
        ↔ ¬ Some
            (ExceptionCovers library (at_time 34131600000000000 input) (some []))
            (exception ∷ []))
evaluate_at_next_allowed_example =
    evaluate_at_next_allowed library two_freezes now input two_answers decision 34131600000000000
      now two_decision refl refl refl audit-Outlasts

-- The same two freezes, listed the other way round and one of them twice.
abbrev shuffled : Reader
shuffled = record reader { list_change_freezes = some (audit ∷ freeze ∷ audit ∷ []) }

shuffled_labelled : get_namespace_labels shuffled input ≡ ok (some [])
unfolding get_namespace_labels
shuffled_labelled = refl

abbrev shuffled_answers : Answers library shuffled input
shuffled_answers = record {
  ns_labels = some [];
  cfs = audit ∷ freeze ∷ audit ∷ [];
  mws = [];
  exs = exception ∷ [];
  labelled = shuffled_labelled;
  freezes_listed = refl;
  windows_listed = refl;
  exceptions_listed = refl;
}

SameEntries-shuffled : {A : Type 0} (a b : A) → SameEntries (a ∷ b ∷ []) (b ∷ a ∷ b ∷ [])
SameEntries-shuffled a b x = (
  λ m. elim m [ inl h ↦ inr (inl h) | inr (inl h) ↦ inl h | inr (inr h) ↦ absurd h ],
  λ m. elim m [
    | inl h ↦ inr (inl h)
    | inr (inl h) ↦ inl h
    | inr (inr (inl h)) ↦ inr (inl h)
    | inr (inr (inr h)) ↦ absurd h
  ],
)

evaluate_unordered_example :
    (d d' : Decision) × (evaluate library (some two_freezes) now input ≡ ok d)
    × (evaluate library (some shuffled) now input ≡ ok d')
    × ((d.allowed ≡ false) ↔ (d'.allowed ≡ false))
    × (d.allowed ≡ false → ReportsAlike d d')
evaluate_unordered_example =
    evaluate_unordered library two_freezes shuffled now input two_answers shuffled_answers refl
      (SameEntries-shuffled freeze audit) (λ x. (λ h. h, λ h. h)) (λ x. (λ h. h, λ h. h))
