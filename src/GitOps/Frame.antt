-- ===== src/GitOps/Frame.antt =====
-- The loops of internal/gitops/argocd.go and flux.go for a switch that moves objects in or out of the
-- management of a policy.
use kube_freeze_operator.Common.{
  ℕ, ◌+◌, ◌≡◌, refl, sym, subst, ◌∙◌, ◌⊎◌, inl, inr, String, Bool, not, ◌&&◌, Option, List, [], ◌∷◌,
  arith, Bool-cases, All2, All2-refl, All2-trans,
}
use kube_freeze_operator.Common.Texts.{◌==◌}
use kube_freeze_operator.Common.Dict.{Dict}
use kube_freeze_operator.GitOps.{
  GitOpsObject, ObjectApi, ListAnswer, listed, no_match, list_failed, Outcome, kept, written,
  refused, managed_by_us, is_listed, settle, visit_objects, visit_namespaces,
}

-- An object that the switch has moved: out of the policy's management if the freeze is over, into it if
-- it is on. An object of the expected shape stays of it.
pub record Moved {S : Type 0} (Good : GitOpsObject S → Type 0) (policy_ref : String) (active : Bool)
    (object object' : GitOpsObject S) : Type 0 where
  pub was_managed : managed_by_us object policy_ref ≡ not active
  pub is_managed : managed_by_us object' policy_ref ≡ active
  pub same_namespace : object'.namespace ≡ object.namespace
  pub same_name : object'.name ≡ object.name
  pub same_labels : object'.labels ≡ object.labels
  pub stays_good : Good object → Good object'

-- What a switch answers: it writes what it moves, keeps what needs no move, and fails only at an
-- object that is not of the expected shape.
pub data Moves {S : Type 0} (Good : GitOpsObject S → Type 0) (policy_ref : String) (active : Bool)
    (object : GitOpsObject S) : Outcome S → Type 0 where
  kept_as_is :
      managed_by_us object policy_ref ≡ active → Moves Good policy_ref active object (kept active)
  moved :
      (object' : GitOpsObject S)
      → Moved Good policy_ref active object object'
      → Moves Good policy_ref active object (written object' active)
  failed : ¬ Good object → Moves Good policy_ref active object refused

-- An object after a run: as it was, or moved.
abbrev pub SameOrMoved :
    {S : Type 0}
    → (GitOpsObject S → Type 0)
    → String
    → Bool
    → GitOpsObject S
    → GitOpsObject S
    → Type 0
SameOrMoved Good policy_ref active o o' = (o' ≡ o) ⊎ Moved Good policy_ref active o o'

pub answer-cases : (a : ListAnswer) → (a ≡ listed) ⊎ (a ≡ no_match) ⊎ (a ≡ list_failed)
answer-cases listed = inl refl
answer-cases no_match = inr (inl refl)
answer-cases list_failed = inr (inr refl)

module _ {S : Type 0} (Good : GitOpsObject S → Type 0) (api : ObjectApi S)
    (selector : Option (Dict → Bool)) (step : GitOpsObject S → Outcome S) (policy_ref : String)
    (active : Bool)
    (step-Moves : (object : GitOpsObject S)
      → Moves Good policy_ref active object (step object)) where
  abbrev pub Touched : GitOpsObject S → GitOpsObject S → Type 0
  Touched = SameOrMoved Good policy_ref active

  pub Touched-refl : (o : GitOpsObject S) → Touched o o
  Touched-refl o = inl refl

  pub Touched-trans : (a b c : GitOpsObject S) → Touched a b → Touched b c → Touched a c
  Touched-trans a b c (inl p) (inl q) = inl (q ∙ p)
  Touched-trans a b c (inl p) (inr k) = inr (subst (λ x. Moved Good policy_ref active x c) p k)
  Touched-trans a b c (inr k) (inl q) = inr (subst (Moved Good policy_ref active a) (sym q) k)
  Touched-trans a b c (inr k) (inr l) = absurd (ground (arith, k.is_managed, l.was_managed))

  settle-Touched :
      (o : GitOpsObject S) (os : List (GitOpsObject S)) (rest : List (GitOpsObject S) × ℕ)
      → (out : Outcome S) → Moves Good policy_ref active o out
      → All2 Touched os rest.0
      → All2 Touched (o ∷ os) (settle api o out rest).0
  settle-Touched o os (xs, n) _ (kept_as_is m) h = (inl refl, h)
  settle-Touched o os (xs, n) _ (failed _) h = (inl refl, h)
  settle-Touched o os (xs, n) _ (moved o' m) h = elim (Bool-cases (api.takes o')) [
    | inl e ↦ rw e (inr m, h)
    | inr e ↦ rw e (inl refl, h)
  ]

  pub visit_objects-Touched :
      (ns : String) (os : List (GitOpsObject S))
      → All2 Touched os (visit_objects api selector step ns os).0
  unfolding visit_objects
  visit_objects-Touched ns [] = tt
  visit_objects-Touched ns (o ∷ os) =
      elim (Bool-cases (o.namespace == ns && is_listed selector o.labels)) [
        | inl e ↦ rw e (
            settle-Touched o os (visit_objects api selector step ns os) (step o) (step-Moves o)
              (visit_objects-Touched ns os))
        | inr e ↦ rw e (inl refl, visit_objects-Touched ns os)
      ]

  pub visit_namespaces-Touched :
      (nss : List String) (total : ℕ) (os : List (GitOpsObject S))
      → All2 Touched os (visit_namespaces api selector step nss total os).objects
  unfolding visit_namespaces
  visit_namespaces-Touched [] total os = All2-refl Touched Touched-refl os
  visit_namespaces-Touched (ns ∷ nss) total os = elim (answer-cases (api.lists ns)) [
    | inl e ↦
        rw (visit_namespaces, e)
          (All2-trans Touched Touched-trans os (visit_objects api selector step ns os).0
            (visit_namespaces api selector step nss
              (total + (visit_objects api selector step ns os).1)
              (visit_objects api selector step ns os).0).objects
            (visit_objects-Touched ns os)
            (visit_namespaces-Touched nss (total + (visit_objects api selector step ns os).1)
              (visit_objects api selector step ns os).0))
    | inr (inl e) ↦ rw (visit_namespaces, e) (All2-refl Touched Touched-refl os)
    | inr (inr e) ↦ rw (visit_namespaces, e) (All2-refl Touched Touched-refl os)
  ]
