-- ===== src/Common/Lists.antt =====
-- Lists measured by native numbers, with Boolean search and the two list predicates by recursion.
use Prim.Native.Nat.{ℕ, suc, ◌+◌}
use mathlib.Core.Path.{◌≡◌, refl, subst}
use kube_freeze_operator.Common.Tests.{Bool-cases, Option-cases}
use mathlib.Core.Logic.{◌↔◌, ◌⊎◌, inl, inr}
use mathlib.Core.Bool.{Bool, true, false, ◌||◌, ◌&&◌, not}
use mathlib.Core.List.{List, [], ◌∷◌, ◌++◌}
use mathlib.Core.Option.{Option, none, some}
use native.Mathlib.Omega.{arith}

module _ {ℓ} {A : Type ℓ} where
  abbrev pub length : List A → ℕ
  length [] = 0
  length (x ∷ xs) = suc (length xs)

  pub length-append : (xs ys : List A) → length (xs ++ ys) ≡ length xs + length ys
  length-append [] ys = omega arith
  length-append (x ∷ xs) ys = omega (arith, length-append xs ys)

  -- Go's slices.ContainsFunc.
  abbrev pub any : (A → Bool) → List A → Bool
  any p [] = false
  any p (x ∷ xs) = p x || any p xs

  -- Every entry, and some entry, satisfies the predicate.
  abbrev pub All {κ} : (A → Type κ) → List A → Type κ
  All P [] = Unit
  All P (x ∷ xs) = P x × All P xs

  abbrev pub Some : (A → Type 0) → List A → Type 0
  Some P [] = ⊥
  Some P (x ∷ xs) = P x ⊎ Some P xs

  pub All-append {κ} : (P : A → Type κ) (xs ys : List A) → All P xs → All P ys → All P (xs ++ ys)
  All-append P [] ys h k = k
  All-append P (x ∷ xs) ys h k = (h.0, All-append P xs ys h.1 k)

  pub Some-append_left : (P : A → Type 0) (xs ys : List A) → Some P xs → Some P (xs ++ ys)
  Some-append_left P [] ys h = absurd h
  Some-append_left P (x ∷ xs) ys (inl h) = inl h
  Some-append_left P (x ∷ xs) ys (inr h) = inr (Some-append_left P xs ys h)

  pub Some-append_right : (P : A → Type 0) (xs ys : List A) → Some P ys → Some P (xs ++ ys)
  Some-append_right P [] ys h = h
  Some-append_right P (x ∷ xs) ys h = inr (Some-append_right P xs ys h)

  pub Some-append_cases :
      (P : A → Type 0) (xs ys : List A) → Some P (xs ++ ys) → Some P xs ⊎ Some P ys
  Some-append_cases P [] ys h = inr h
  Some-append_cases P (x ∷ xs) ys (inl h) = inl (inl h)
  Some-append_cases P (x ∷ xs) ys (inr h) = elim (Some-append_cases P xs ys h) [
    | inl k ↦ inl (inr k)
    | inr k ↦ inr k
  ]

abbrev pub keep {ℓ} : {B : Type ℓ} → Option B → List B → List B
keep none ys = ys
keep (some y) ys = y ∷ ys

abbrev pub filter_map {ℓ κ} : {A : Type ℓ} {B : Type κ} → (A → Option B) → List A → List B
filter_map f [] = []
filter_map f (x ∷ xs) = keep (f x) (filter_map f xs)

abbrev pub is_some {ℓ} : {A : Type ℓ} → Option A → Bool
is_some none = false
is_some (some a) = true

abbrev pub is_nil {ℓ} : {A : Type ℓ} → List A → Bool
is_nil [] = true
is_nil (x ∷ xs) = false

-- The Boolean search finds exactly what is there.
pub any_iff {ℓ} :
    {A : Type ℓ} (p : A → Bool) (xs : List A) → (any p xs ≡ true) ↔ Some (λ x. p x ≡ true) xs
any_iff p [] = (λ h. cc, λ h. absurd h)
any_iff p (x ∷ xs) = elim (Bool-cases (p x)) [
  | inl e ↦ (λ _. inl e, λ _. rw e)
  | inr e ↦ (
    λ h. inr ((any_iff p xs).0 (rw e at h)),
    λ h. rw e (elim h [ inl k ↦ absurd (cc) | inr k ↦ (any_iff p xs).1 k ]),
  )
]

pub Some-map {ℓ} :
    {A : Type ℓ} (P Q : A → Type 0) (f : (a : A) → P a → Q a) (xs : List A) → Some P xs → Some Q xs
Some-map P Q f [] h = absurd h
Some-map P Q f (x ∷ xs) (inl h) = inl (f x h)
Some-map P Q f (x ∷ xs) (inr h) = inr (Some-map P Q f xs h)

-- A filtered list is empty exactly when nothing passes.
pub filter_map-is_nil {ℓ κ} :
    {A : Type ℓ} {B : Type κ} (f : A → Option B) (xs : List A)
    → is_nil (filter_map f xs) ≡ not (any (λ x. is_some (f x)) xs)
filter_map-is_nil f [] = refl
filter_map-is_nil f (x ∷ xs) = elim (Option-cases (f x)) [
  | inl e ↦ rw e (filter_map-is_nil f xs)
  | inr (y, e) ↦ rw e
]

pub append-is_nil {ℓ} : {A : Type ℓ} (xs ys : List A) → is_nil (xs ++ ys) ≡ (is_nil xs && is_nil ys)
append-is_nil [] ys = refl
append-is_nil (x ∷ xs) ys = refl

pub All-map {ℓ κ μ} :
    {A : Type ℓ} (P : A → Type κ) (Q : A → Type μ) (f : (a : A) → P a → Q a) (xs : List A)
    → All P xs
    → All Q xs
All-map P Q f [] h = tt
All-map P Q f (x ∷ xs) h = (f x h.0, All-map P Q f xs h.1)

pub any_iff_of {ℓ} :
    {A : Type ℓ} (p : A → Bool) (P : A → Type 0) (f : (a : A) → (p a ≡ true) ↔ P a) (xs : List A)
    → (any p xs ≡ true) ↔ Some P xs
any_iff_of p P f xs = (
  λ h. Some-map (λ x. p x ≡ true) P (λ x. (f x).0) xs ((any_iff p xs).0 h),
  λ h. (any_iff p xs).1 (Some-map P (λ x. p x ≡ true) (λ x. (f x).1) xs h),
)

pub or_iff :
    (b c : Bool) (P Q : Type 0) → (b ≡ true) ↔ P → (c ≡ true) ↔ Q → ((b || c) ≡ true) ↔ (P ⊎ Q)
or_iff true c P Q f g = (λ _. inl (f.0 refl), λ _. refl)
or_iff false c P Q f g =
    (λ h. inr (g.0 h), λ h. elim h [ inl k ↦ absurd (cc (f.1 k)) | inr k ↦ g.1 k ])

pub and_not_iff :
    (d b c : Bool) (P Q : Type 0)
    → (d ≡ false) ↔ ((b ≡ true) × (c ≡ false))
    → (b ≡ true) ↔ P
    → (c ≡ true) ↔ Q
    → (d ≡ false) ↔ (P × ¬ Q)
and_not_iff d b c P Q h f g = (
  λ e. (f.0 (h.0 e).0, λ q. cc ((h.0 e).1, g.1 q)),
  λ k. h.1 (f.1 k.0, elim (Bool-cases c) [ inl e ↦ absurd (k.1 (g.0 e)) | inr e ↦ e ]),
)

-- A property of all entries holds of an entry that is there.
pub All_at :
    {A : Type 0} (P : A → Type 0) (a : A) (xs : List A) → All P xs → Some (λ x. x ≡ a) xs → P a
All_at P a [] h m = absurd m
All_at P a (x ∷ xs) h (inl e) = subst P e h.0
All_at P a (x ∷ xs) h (inr m) = All_at P a xs h.1 m

pub filter_map-All {ℓ κ} :
    {A : Type ℓ} {B : Type κ} (f : A → Option B) (P : B → Type 0)
    → ((a : A) (b : B) → f a ≡ some b → P b)
    → (xs : List A) → All P (filter_map f xs)
filter_map-All f P h [] = tt
filter_map-All f P h (x ∷ xs) = elim (Option-cases (f x)) [
  | inl e ↦ rw e (filter_map-All f P h xs)
  | inr (b, e) ↦ rw e (h x b e, filter_map-All f P h xs)
]

-- Two lists of one length whose entries are related in order.
abbrev pub All2 {ℓ} : {A B : Type ℓ} → (A → B → Type 0) → List A → List B → Type 0
All2 R [] [] = Unit
All2 R (x ∷ xs) (y ∷ ys) = R x y × All2 R xs ys
All2 R _ _ = ⊥

pub All2-refl {ℓ} :
    {A : Type ℓ} (R : A → A → Type 0) → ((a : A) → R a a) → (xs : List A) → All2 R xs xs
All2-refl R h [] = tt
All2-refl R h (x ∷ xs) = (h x, All2-refl R h xs)

pub All2-trans {ℓ} :
    {A : Type ℓ} (R : A → A → Type 0)
    → ((a b c : A) → R a b → R b c → R a c)
    → (xs ys zs : List A) → All2 R xs ys
    → All2 R ys zs
    → All2 R xs zs
All2-trans R t [] [] [] h k = tt
All2-trans R t [] [] (z ∷ zs) h k = k
All2-trans R t [] (y ∷ ys) zs h k = absurd h
All2-trans R t (x ∷ xs) [] zs h k = absurd h
All2-trans R t (x ∷ xs) (y ∷ ys) [] h k = k
All2-trans R t (x ∷ xs) (y ∷ ys) (z ∷ zs) h k = (t x y z h.0 k.0, All2-trans R t xs ys zs h.1 k.1)

pub All2-map :
    {A : Type 0} (R S : A → A → Type 0)
    → ((x y : A) → R x y → S x y)
    → (xs ys : List A) → All2 R xs ys
    → All2 S xs ys
All2-map R S f [] [] h = tt
All2-map R S f (x ∷ xs) (y ∷ ys) h = (f x y h.0, All2-map R S f xs ys h.1)
All2-map R S f [] (y ∷ ys) h = absurd h
All2-map R S f (x ∷ xs) [] h = absurd h

-- A property of the entries that the relation keeps.
pub All-along :
    {A : Type 0} (R : A → A → Type 0) (P : A → Type 0)
    → ((a b : A) → R a b → P a → P b)
    → (xs ys : List A) → All2 R xs ys
    → All P xs
    → All P ys
All-along R P k [] [] h a = tt
All-along R P k [] (y ∷ ys) h a = absurd h
All-along R P k (x ∷ xs) [] h a = absurd h
All-along R P k (x ∷ xs) (y ∷ ys) h a = (k x y h.0 a.0, All-along R P k xs ys h.1 a.1)

pub All-zip :
    {A : Type 0} (P Q R : A → Type 0)
    → ((a : A) → P a → Q a → R a)
    → (xs : List A) → All P xs
    → All Q xs
    → All R xs
All-zip P Q R f [] h k = tt
All-zip P Q R f (x ∷ xs) h k = (f x h.0 k.0, All-zip P Q R f xs h.1 k.1)

pub All-every : {A : Type 0} (P : A → Type 0) → ((a : A) → P a) → (xs : List A) → All P xs
All-every P f [] = tt
All-every P f (x ∷ xs) = (f x, All-every P f xs)
