-- ===== src/GitOps/Scope.antt =====
-- The loops of internal/gitops/argocd.go and flux.go when the API server takes every update: what is in
-- scope is moved, and counted.
use kube_freeze_operator.Common.{
  ℕ, ◌+◌, ◌*◌, ◌≡◌, refl, sym, subst, ◌∙◌, inl, inr, String, Bool, true, ◌&&◌, Option, List, [],
  ◌∷◌, arith, Bool-cases, All, All2, All-along, All-zip, All-every, Some,
}
use kube_freeze_operator.Common.Texts.{◌==◌}
use kube_freeze_operator.Common.Dict.{Dict}
use kube_freeze_operator.GitOps.{
  GitOpsObject, ObjectApi, listed, Outcome, managed_by_us, count, is_listed, settle, visit_objects,
  visit_namespaces,
}
use kube_freeze_operator.GitOps.Frame.{
  Moves, kept_as_is, moved, failed, Touched, visit_objects-Touched, visit_namespaces-Touched,
}

-- The number of objects of a namespace that the listing answers.
abbrev pub listed_count : {S : Type 0} → Option (Dict → Bool) → String → List (GitOpsObject S) → ℕ
listed_count selector ns [] = 0
listed_count selector ns (o ∷ os) =
    count (o.namespace == ns && is_listed selector o.labels) + listed_count selector ns os

-- Their number in all the namespaces.
abbrev pub scope_count :
    {S : Type 0} → Option (Dict → Bool) → List String → List (GitOpsObject S) → ℕ
scope_count selector [] os = 0
scope_count selector (ns ∷ nss) os = listed_count selector ns os + scope_count selector nss os

module _ {S : Type 0} (Good : GitOpsObject S → Type 0) (api : ObjectApi S)
    (selector : Option (Dict → Bool)) (step : GitOpsObject S → Outcome S) (policy_ref : String)
    (active : Bool)
    (step-Moves : (object : GitOpsObject S) → Moves Good policy_ref active object (step object))
    (takes : (object : GitOpsObject S) → api.takes object ≡ true) where
  -- The object, if it is listed in the namespace, is in the policy's management or out of it, as wanted.
  abbrev pub Placed : String → GitOpsObject S → Type 0
  Placed ns o =
      (o.namespace == ns && is_listed selector o.labels) ≡ true
      → managed_by_us o policy_ref ≡ active

  abbrev T : GitOpsObject S → GitOpsObject S → Type 0
  T = Touched Good api selector step policy_ref active step-Moves

  T_good : (a b : GitOpsObject S) → T a b → Good a → Good b
  T_good a b (inl p) g = subst Good (sym p) g
  T_good a b (inr m) g = m.stays_good g

  T-Placed : (ns : String) (a b : GitOpsObject S) → T a b → Placed ns a → Placed ns b
  T-Placed ns a b (inl p) h = subst (Placed ns) (sym p) h
  T-Placed ns a b (inr m) h = λ _. m.is_managed

  settle-Placed :
      (ns : String) (o : GitOpsObject S) (os : List (GitOpsObject S))
      → (rest : List (GitOpsObject S) × ℕ) (out : Outcome S) → Moves Good policy_ref active o out
      → Good o
      → All (Placed ns) rest.0
      → All (Placed ns) (settle api o out rest).0
  settle-Placed ns o os (xs, n) _ (kept_as_is m) g h = (λ _. m, h)
  settle-Placed ns o os (xs, n) _ (failed b) g h = absurd (b g)
  settle-Placed ns o os (xs, n) _ (moved o' m) g h = rw (takes o') (λ _. m.is_managed, h)

  visit_objects-Placed :
      (ns : String) (os : List (GitOpsObject S))
      → All Good os
      → All (Placed ns) (visit_objects api selector step ns os).0
  unfolding visit_objects
  visit_objects-Placed ns [] g = tt
  visit_objects-Placed ns (o ∷ os) g =
      elim (Bool-cases (o.namespace == ns && is_listed selector o.labels)) [
        | inl e ↦ rw e (
            settle-Placed ns o os (visit_objects api selector step ns os) (step o) (step-Moves o)
              g.0 (visit_objects-Placed ns os g.1))
        | inr e ↦ rw e (λ k. absurd (cc (k, e)), visit_objects-Placed ns os g.1)
      ]

  -- The object, if it is listed in one of the namespaces, is where it is wanted.
  abbrev pub PlacedAmong : List String → GitOpsObject S → Type 0
  PlacedAmong nss o =
      Some (λ ns. (o.namespace == ns && is_listed selector o.labels) ≡ true) nss
      → managed_by_us o policy_ref ≡ active

  PlacedAmong-cons :
      (ns : String) (nss : List String) (o : GitOpsObject S)
      → Placed ns o
      → PlacedAmong nss o
      → PlacedAmong (ns ∷ nss) o
  PlacedAmong-cons ns nss o h k (inl p) = h p
  PlacedAmong-cons ns nss o h k (inr p) = k p

  pub visit_namespaces-Placed :
      (nss : List String) (total : ℕ) (os : List (GitOpsObject S))
      → All (λ ns. api.lists ns ≡ listed) nss
      → All Good os
      → All (PlacedAmong nss) (visit_namespaces api selector step nss total os).objects
  unfolding visit_namespaces
  visit_namespaces-Placed [] total os l g = All-every (PlacedAmong []) (λ o m. absurd m) os
  visit_namespaces-Placed (ns ∷ nss) total os l g =
      let here = (visit_objects api selector step ns os).0 in
      let total' = total + (visit_objects api selector step ns os).1 in
      let after = (visit_namespaces api selector step nss total' here).objects in
      rw (visit_namespaces, l.0)
        (All-zip (Placed ns) (PlacedAmong nss) (PlacedAmong (ns ∷ nss)) (PlacedAmong-cons ns nss)
          after
          (All-along T (Placed ns) (T-Placed ns) here after
            (visit_namespaces-Touched Good api selector step policy_ref active step-Moves nss total'
              here)
            (visit_objects-Placed ns os g))
          (visit_namespaces-Placed nss total' here l.1 (
            All-along T Good T_good os here
              (visit_objects-Touched Good api selector step policy_ref active step-Moves ns os) g)))

  settle-count :
      (o : GitOpsObject S) (rest : List (GitOpsObject S) × ℕ)
      → (out : Outcome S) → Moves Good policy_ref active o out
      → Good o
      → (settle api o out rest).1 ≡ count active + rest.1
  settle-count o (xs, n) _ (kept_as_is m) g = refl
  settle-count o (xs, n) _ (failed b) g = absurd (b g)
  settle-count o (xs, n) _ (moved o' m) g = rw (takes o')

  visit_objects-count :
      (ns : String) (os : List (GitOpsObject S))
      → All Good os
      → (visit_objects api selector step ns os).1 ≡ count active * listed_count selector ns os
  unfolding visit_objects
  visit_objects-count ns [] g = omega arith
  visit_objects-count ns (o ∷ os) g =
      elim (Bool-cases (o.namespace == ns && is_listed selector o.labels)) [
        | inl e ↦ rw e (
            settle-count o (visit_objects api selector step ns os) (step o) (step-Moves o) g.0
            ∙ omega (arith, visit_objects-count ns os g.1))
        | inr e ↦ rw e (visit_objects-count ns os g.1 ∙ omega arith)
      ]

  listed_count-Touched :
      (ns : String) (xs ys : List (GitOpsObject S))
      → All2 T xs ys
      → listed_count selector ns ys ≡ listed_count selector ns xs
  listed_count-Touched ns [] [] h = refl
  listed_count-Touched ns [] (b ∷ ys) h = absurd h
  listed_count-Touched ns (a ∷ xs) [] h = absurd h
  listed_count-Touched ns (a ∷ xs) (b ∷ ys) (inl p, h) = rw (p, listed_count-Touched ns xs ys h)
  listed_count-Touched ns (a ∷ xs) (b ∷ ys) (inr m, h) =
      rw (m.same_namespace, m.same_labels, listed_count-Touched ns xs ys h)

  scope_count-Touched :
      (nss : List String) (xs ys : List (GitOpsObject S))
      → All2 T xs ys
      → scope_count selector nss ys ≡ scope_count selector nss xs
  scope_count-Touched [] xs ys h = refl
  scope_count-Touched (ns ∷ nss) xs ys h =
      rw (listed_count-Touched ns xs ys h, scope_count-Touched nss xs ys h)

  pub visit_namespaces-count :
      (nss : List String) (total : ℕ) (os : List (GitOpsObject S))
      → All (λ ns. api.lists ns ≡ listed) nss
      → All Good os
      → (visit_namespaces api selector step nss total os).paused_count
        ≡ total + count active * scope_count selector nss os
  unfolding visit_namespaces
  visit_namespaces-count [] total os l g = ground arith
  visit_namespaces-count (ns ∷ nss) total os l g =
      let here = (visit_objects api selector step ns os).0 in
      let total' = total + (visit_objects api selector step ns os).1 in
      rw (visit_namespaces, l.0)
        (visit_namespaces-count nss total' here l.1 (
            All-along T Good T_good os here
              (visit_objects-Touched Good api selector step policy_ref active step-Moves ns os) g)
          ∙ rw
              (
                scope_count-Touched nss os here (
                    visit_objects-Touched Good api selector step policy_ref active step-Moves ns
                      os),
                visit_objects-count ns os g,
              )
              (omega arith))
