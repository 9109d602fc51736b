-- ===== src/Policy/Window/Search.antt =====
-- The search for the latest start of a schedule, against the schedule's own starts.
use kube_freeze_operator.Common.{
  ℕ, zero, suc, ◌≤◌, ◌<◌, ◌-◌, ◌≡◌, ◌⊎◌, inl, inr, refl, Bool-cases, leb, arith, leb→le,
}
use kube_freeze_operator.External.{zero_time, fourteen_days}
use kube_freeze_operator.Policy.Window.{scan, last_start, max_rounds}

-- A start of a schedule is an answer of its Next.
abbrev pub IsStart : (ℕ → ℕ) → ℕ → Type 0
IsStart next s = (u : ℕ) × (s ≡ next u)

-- What robfig/cron documents of Next for a schedule that recurs for ever: the answer is later, and is
-- the earliest start that is later.
pub record IsSchedule (next : ℕ → ℕ) : Type 0 where
  pub is_later : (t : ℕ) → t < next t
  pub is_earliest : (t u : ℕ) → t < next u → next t ≤ next u

-- The start that Next reaches from `t` after so many steps.
abbrev pub step_starts : (ℕ → ℕ) → ℕ → ℕ → ℕ
step_starts next zero t = t
step_starts next (suc k) t = step_starts next k (next t)

-- The search ends with what it began with, or with a start no later than now.
pub scan_sound :
    (next : ℕ → ℕ) (now rounds t prev : ℕ)
    → IsStart next t
    → (scan next now rounds t prev ≡ prev)
      ⊎ (IsStart next (scan next now rounds t prev) × (scan next now rounds t prev ≤ now))
unfolding scan
scan_sound next now zero t prev h = inl refl
scan_sound next now (suc rounds) t prev h = elim (Bool-cases (leb t now)) [
  | inr e ↦ rw e (inl refl)
  | inl e ↦ rw e (elim (scan_sound next now rounds (next t) t (t, refl)) [
    | inl same ↦ rw same (inr (h, leb→le t now e))
    | inr found ↦ inr found
  ])
]

module _ (next : ℕ → ℕ) (sch : IsSchedule next) (now : ℕ) where
  le-step_starts : (k t : ℕ) → t ≤ step_starts next k t
  le-step_starts zero t = omega arith
  le-step_starts (suc k) t = omega (arith, sch.is_later t, le-step_starts k (next t))

  -- The answer is not before what the search began with.
  le-scan : (rounds t prev : ℕ) → prev ≤ t → prev ≤ scan next now rounds t prev
  unfolding scan
  le-scan zero t prev h = omega arith
  le-scan (suc rounds) t prev h = ground (arith, sch.is_later t, le-scan rounds (next t) t)

  -- If the rounds suffice to pass now, no start from `t` up to now is later than the answer.
  pub scan_latest :
      (rounds t prev u : ℕ)
      → now < step_starts next rounds t
      → t ≤ next u
      → next u ≤ now
      → next u ≤ scan next now rounds t prev
  unfolding scan
  scan_latest zero t prev u far from upto = absurd (omega arith)
  scan_latest (suc rounds) t prev u far from upto = ground (
    arith,
    sch.is_later t,
    sch.is_earliest t u,
    le-scan rounds (next t) t,
    scan_latest rounds (next t) t u,
  )

  -- With no more rounds than starts, the search ends with the last start that it had a round for.
  pub scan_capped :
      (rounds t prev : ℕ)
      → step_starts next rounds t ≤ now
      → scan next now (suc rounds) t prev ≡ step_starts next rounds t
  unfolding scan
  scan_capped zero t prev h = ground arith
  scan_capped (suc rounds) t prev h =
      ground (arith, le-step_starts (suc rounds) t, scan_capped rounds (next t) t h)

pub last_start_sound :
    (next : ℕ → ℕ) (now : ℕ)
    → (last_start next now ≡ zero_time)
      ⊎ (IsStart next (last_start next now) × (last_start next now ≤ now))
unfolding last_start
last_start_sound next now =
    scan_sound next now max_rounds (next (now - fourteen_days)) zero_time
      (now - fourteen_days, refl)
