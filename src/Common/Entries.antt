-- ===== src/Common/Entries.antt =====
-- Lists of the API server's objects, whose order is not promised: two with the same entries.
use mathlib.Core.Path.{◌≡◌, refl, ap}
use mathlib.Core.Logic.{◌↔◌, inl, inr}
use mathlib.Core.Option.{Option, some}
use mathlib.Core.List.{List, [], ◌∷◌, ◌++◌}
use kube_freeze_operator.Common.Tests.{Option-cases}
use kube_freeze_operator.Common.Lists.{
  Some, Some-append_left, Some-append_right, Some-append_cases, filter_map,
}

-- Two lists hold the same entries, in any order and any number of times.
abbrev pub SameEntries : {A : Type 0} → List A → List A → Type 0
SameEntries {A} xs ys = (x : A) → Some (λ y. y ≡ x) xs ↔ Some (λ y. y ≡ x) ys

pub SameEntries-sym : {A : Type 0} (xs ys : List A) → SameEntries xs ys → SameEntries ys xs
SameEntries-sym xs ys h x = ((h x).1, (h x).0)

Some-entry :
    {A : Type 0} (P : A → Type 0) (xs : List A) → Some P xs → (x : A) × P x × Some (λ y. y ≡ x) xs
Some-entry P [] h = absurd h
Some-entry P (x ∷ xs) (inl p) = (x, p, inl refl)
Some-entry P (x ∷ xs) (inr h) = let (y, p, m) = Some-entry P xs h in (y, p, inr m)

Some-of_entry :
    {A : Type 0} (P : A → Type 0) (x : A) (xs : List A) → P x → Some (λ y. y ≡ x) xs → Some P xs
Some-of_entry P x [] p m = absurd m
Some-of_entry P x (y ∷ ys) p (inl e) = inl (rw e p)
Some-of_entry P x (y ∷ ys) p (inr m) = inr (Some-of_entry P x ys p m)

pub SameEntries-Some :
    {A : Type 0} (P : A → Type 0) (xs ys : List A) → SameEntries xs ys → Some P xs → Some P ys
SameEntries-Some P xs ys h s =
    let (x, p, m) = Some-entry P xs s in Some-of_entry P x ys p ((h x).0 m)

filter_map-entry :
    {A B : Type 0} (f : A → Option B) (b : B) (xs : List A)
    → Some (λ y. y ≡ b) (filter_map f xs) ↔ Some (λ x. f x ≡ some b) xs
filter_map-entry f b [] = (λ h. h, λ h. h)
filter_map-entry f b (x ∷ xs) =
    let (there, back) = filter_map-entry f b xs in
    elim (Option-cases (f x)) [
      | inl e ↦ rw e (λ m. inr (there m), λ s. elim s [ inl h ↦ absurd (cc) | inr h ↦ back h ])
      | inr (c, e) ↦ rw e (
        λ m. elim m [ inl h ↦ inl (ap some h) | inr h ↦ inr (there h) ],
        λ s. elim s [ inl h ↦ inl (cc) | inr h ↦ inr (back h) ],
      )
    ]

pub filter_map-SameEntries :
    {A B : Type 0} (f : A → Option B) (xs ys : List A)
    → SameEntries xs ys
    → SameEntries (filter_map f xs) (filter_map f ys)
filter_map-SameEntries f xs ys h b = (
  λ m. (filter_map-entry f b ys).1 (SameEntries-Some _ xs ys h ((filter_map-entry f b xs).0 m)),
  λ m.
      (filter_map-entry f b xs).1
        (SameEntries-Some _ ys xs (SameEntries-sym xs ys h) ((filter_map-entry f b ys).0 m)),
)

pub append-entry :
    {A : Type 0} (xs ys xs' ys' : List A)
    → SameEntries xs xs'
    → SameEntries ys ys'
    → (x : A) → Some (λ y. y ≡ x) (xs ++ ys)
    → Some (λ y. y ≡ x) (xs' ++ ys')
append-entry xs ys xs' ys' h k x m = elim (Some-append_cases _ xs ys m) [
  | inl l ↦ Some-append_left _ xs' ys' ((h x).0 l)
  | inr r ↦ Some-append_right _ xs' ys' ((k x).0 r)
]
