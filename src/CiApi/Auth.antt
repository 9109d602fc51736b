-- ===== src/CiApi/Auth.antt =====
-- internal/api/auth.go: the check of a Bearer token in front of the server's handlers.
use Prim.Native.String.{◌∷◌, [], len, slice, find}
use Prim.Native.Char.{code}
use kube_freeze_operator.Common.{
  ℕ, ◌+◌, ◌≡◌, ◌↔◌, ◌⊎◌, refl, inl, inr, String, Bool, true, false, not, ◌&&◌, Option, none, some,
  leb, eqb, Bool-cases, Option-cases, if◌then◌else◌,
}
use kube_freeze_operator.Common.Texts.{◌==◌, eq_iff}

pub data AuthError : Type 0 where
  missing_token authentication_error not_authenticated : AuthError

-- A request that is passed on gets the answer of the next handler.
pub data Wrapped (A : Type 0) : Type 0 where
  passed_on : A → Wrapped A
  refused : ℕ → AuthError → Wrapped A

-- The code of a letter's small form.
abbrev pub lower_code : ℕ → ℕ
lower_code n = if leb 65 n && leb n 90 then n + 32 else n

-- strings.EqualFold, for texts whose letters have no other folds, such as "bearer".
abbrev pub equal_fold : String → String → Bool
equal_fold [] [] = true
equal_fold [] (d ∷ t) = false
equal_fold (c ∷ s) [] = false
equal_fold (c ∷ s) (d ∷ t) =
    let rest = equal_fold s t in eqb (lower_code (code c)) (lower_code (code d)) && rest

-- strings.SplitN at the first blank: `none` is a header of one part.
abbrev pub split_at_blank : String → Option (String × String)
split_at_blank s =
    if leb (find s " ") (len s)
    then some (slice s 0 (find s " "), slice s (find s " " + 1) (len s))
    else none

unfoldable pub extract_bearer_token : String → String
extract_bearer_token auth = if auth == "" then "" else elim (split_at_blank auth) [
  | none ↦ ""
  | some parts ↦ if not (equal_fold parts.0 "bearer") then "" else parts.1
]

-- Wrap's handler, from the path, the Authorization header and the next handler's answer; the TokenReview
-- of a token answers whether it is authenticated, or fails.
unfoldable pub wrap : {A : Type 0} → (String → Option Bool) → String → String → A → Wrapped A
wrap review path header next =
    if path == "/healthz"
    then passed_on next
    else let token = extract_bearer_token header in
      if token == "" then refused 401 missing_token else elim (review token) [
        | none ↦ refused 500 authentication_error
        | some authenticated ↦
            if not authenticated then refused 401 not_authenticated else passed_on next
      ]

-- A request is passed on exactly if it asks for /healthz, or it has a Bearer token that is not empty
-- and that the TokenReview authenticates.
pub wrap_iff :
    {A : Type 0} (review : String → Option Bool) (path header : String) (next : A)
    → (wrap review path header next ≡ passed_on next) ↔ (
        (path ≡ "/healthz")
        ⊎ (((extract_bearer_token header == "") ≡ false)
            × (review (extract_bearer_token header) ≡ some true)))
unfolding wrap
wrap_iff review path header next = elim (Bool-cases (path == "/healthz")) [
  | inl e ↦ rw e (λ _. inl ((eq_iff path "/healthz").0 e), λ _. refl)
  | inr e ↦ elim (Bool-cases (extract_bearer_token header == "")) [
    | inl f ↦
        rw (wrap, e, f)
          (
            λ h. absurd (cc),
            λ h. elim h [
              | inl k ↦ absurd (let q = (eq_iff path "/healthz").1 k in cc)
              | inr both ↦ absurd (let q = both.0 in cc)
            ],
          )
    | inr f ↦ elim (Option-cases (review (extract_bearer_token header))) [
      | inl r ↦
          rw (wrap, e, f, r)
            (
              λ h. absurd (cc),
              λ h. elim h [
                | inl k ↦ absurd (let q = (eq_iff path "/healthz").1 k in cc)
                | inr both ↦ absurd (let q = both.1 in cc)
              ],
            )
      | inr (true, r) ↦ rw (wrap, e, f, r) (λ _. inr (refl, refl), λ _. refl)
      | inr (false, r) ↦
          rw (wrap, e, f, r)
            (
              λ h. absurd (cc),
              λ h. elim h [
                | inl k ↦ absurd (let q = (eq_iff path "/healthz").1 k in cc)
                | inr both ↦ absurd (let q = both.1 in cc)
              ],
            )
    ]
  ]
]
