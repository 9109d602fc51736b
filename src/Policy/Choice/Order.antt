-- ===== src/Policy/Choice/Order.antt =====
-- The denial that is reported comes first in the order by next allowed time and name.
use kube_freeze_operator.Common.{
  none, Bool, Option, ◌≡◌, inl, inr, refl, true, false, some, List, [], ◌∷◌, Some, All, All-map,
  ◌∙◌, ap, is_some, is_nil, not, ◌⊎◌, ◌<◌, ℕ, arith, Bool-cases,
}
use kube_freeze_operator.Common.Texts.{text_lt}
use kube_freeze_operator.Common.TextOrder.{text_lt_asymm, text_le_trans}
use kube_freeze_operator.Policy.Candidates.{DenyCandidate}
use kube_freeze_operator.Policy.Choice.{
  time_less, deny_less, insert, sort_stable, first, select_deny_candidate,
}

deny_less_asymm : (a b : DenyCandidate) → deny_less a b ≡ true → deny_less b a ≡ false
unfolding deny_less
deny_less_asymm a b h = ground (arith, text_lt_asymm a.deterministic_id b.deterministic_id)

-- The relation "not after" of the order is transitive.
not_less_trans :
    (a b c : DenyCandidate) → deny_less b a ≡ false → deny_less c b ≡ false → deny_less c a ≡ false
unfolding deny_less
not_less_trans a b c h k =
    ground (arith, text_le_trans a.deterministic_id b.deterministic_id c.deterministic_id)

abbrev pub IsFirst : DenyCandidate → List DenyCandidate → Type 0
IsFirst c = All (λ x. deny_less x c ≡ false)

not_less_refl : (a : DenyCandidate) → deny_less a a ≡ false
not_less_refl a = elim (Bool-cases (deny_less a a)) [ inl h ↦ deny_less_asymm a a h | inr h ↦ h ]

IsFirst-mono :
    (a b : DenyCandidate) (xs : List DenyCandidate)
    → deny_less b a ≡ false
    → IsFirst b xs
    → IsFirst a xs
IsFirst-mono a b [] h k = tt
IsFirst-mono a b (x ∷ xs) h k = (not_less_trans a b x h k.0, IsFirst-mono a b xs h k.1)

-- What heads the sorted list is an entry of the list before which no entry comes.
abbrev Heads : List DenyCandidate → List DenyCandidate → Type 0
Heads xs [] = xs ≡ []
Heads xs (c ∷ cs) = Some (λ x. x ≡ c) xs × IsFirst c xs

insert-Heads :
    (x : DenyCandidate) (xs ys : List DenyCandidate) → Heads xs ys → Heads (x ∷ xs) (insert x ys)
unfolding insert
insert-Heads x xs [] h = rw h (inl refl, (not_less_refl x, tt))
insert-Heads x xs (y ∷ ys) (m, f) = elim (Bool-cases (deny_less y x)) [
  | inl e ↦ rw e (inr m, (deny_less_asymm y x e, f))
  | inr e ↦ rw e (inl refl, (not_less_refl x, IsFirst-mono x y xs e f))
]

sort_stable-Heads : (xs : List DenyCandidate) → Heads xs (sort_stable xs)
unfolding sort_stable
sort_stable-Heads [] = refl
sort_stable-Heads (x ∷ xs) = insert-Heads x xs (sort_stable xs) (sort_stable-Heads xs)

first-Heads :
    (xs ys : List DenyCandidate) (c : DenyCandidate)
    → Heads xs ys
    → first ys ≡ some c
    → Some (λ x. x ≡ c) xs × IsFirst c xs
first-Heads xs [] c h e = absurd (cc)
first-Heads xs (y ∷ ys) c h e = let p : y ≡ c = cc in rw p at h

-- The next allowed times of a denial and of another: the first is earlier, or the second is missing,
-- or they agree and the names decide.
abbrev pub NotLater : Option ℕ → Option ℕ → Type 0 → Type 0
NotLater (some s) (some t) tie = (s < t) ⊎ ((s ≡ t) × tie)
NotLater (some s) none tie = Unit
NotLater none (some t) tie = ⊥
NotLater none none tie = tie

abbrev pub NotAfter : DenyCandidate → DenyCandidate → Type 0
NotAfter c x =
    NotLater c.next_allowed x.next_allowed (text_lt x.deterministic_id c.deterministic_id ≡ false)

NotLater_of_not_less :
    (s t : Option ℕ) (by_name : Bool)
    → time_less t s by_name ≡ false
    → NotLater s t (by_name ≡ false)
NotLater_of_not_less (some s) (some t) by_name h = ground arith
NotLater_of_not_less (some s) none by_name h = tt
NotLater_of_not_less none (some t) by_name h = cc
NotLater_of_not_less none none by_name h = h

NotAfter-of_not_less : (c x : DenyCandidate) → deny_less x c ≡ false → NotAfter c x
unfolding deny_less
NotAfter-of_not_less c x h = NotLater_of_not_less c.next_allowed x.next_allowed _ h

-- The reported denial is one of the denials, and every denial has a later next allowed time, or none,
-- or the same and a name that is not smaller.
pub select_deny_candidate_first :
    (denies : List DenyCandidate) (c : DenyCandidate)
    → select_deny_candidate denies ≡ some c
    → Some (λ x. x ≡ c) denies × All (NotAfter c) denies
unfolding select_deny_candidate
select_deny_candidate_first denies c h =
    let (m, f) = first-Heads denies (sort_stable denies) c (sort_stable-Heads denies) h in
    (m, All-map _ _ (NotAfter-of_not_less c) denies f)

insert-is_nil : (x : DenyCandidate) (xs : List DenyCandidate) → is_nil (insert x xs) ≡ false
unfolding insert
insert-is_nil x [] = refl
insert-is_nil x (y ∷ ys) = ground arith

first-is_some : (xs : List DenyCandidate) → is_some (first xs) ≡ not (is_nil xs)
first-is_some [] = refl
first-is_some (x ∷ xs) = refl

-- A denial is reported whenever there is one.
pub select_deny_candidate-is_some :
    (denies : List DenyCandidate) → is_some (select_deny_candidate denies) ≡ not (is_nil denies)
unfolding select_deny_candidate sort_stable
select_deny_candidate-is_some [] = refl
select_deny_candidate-is_some (x ∷ xs) =
    first-is_some (insert x (sort_stable xs)) ∙ ap not (insert-is_nil x (sort_stable xs))
