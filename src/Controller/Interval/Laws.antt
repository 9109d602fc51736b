-- ===== src/Controller/Interval/Laws.antt =====
-- When the ChangeFreeze and FreezeException controllers look again.
use kube_freeze_operator.Common.{ℕ, ◌+◌, ◌-◌, ◌*◌, ◌≤◌, ◌<◌, ◌≡◌, arith, Bool-cases, inl, inr, ltb}
use kube_freeze_operator.Common.Int.{ℤ, pos, max_int64, add_int64}
use kube_freeze_operator.External.{sub_time, one_second, one_minute}
use kube_freeze_operator.Controller.Interval.{interval_active, requeue_after}

-- The next look is after more than a second, and until a second before it the interval is active or not
-- as it is now.
pub record LooksAgain (start end now : ℕ) (wait : ℤ) : Type 0 where
  pub duration : ℕ
  pub is_wait : wait ≡ pos duration
  pub is_later : one_second ≤ duration
  pub is_steady :
      (t : ℕ)
      → now ≤ t
      → t + one_second < now + duration
      → interval_active start end t ≡ interval_active start end now

wait_until :
    (t now : ℕ)
    → now ≤ t
    → t + one_second ≤ now + max_int64
    → add_int64 (sub_time t now) (pos one_second) ≡ pos (t - now + one_second)
wait_until t now h k = ground arith

-- If neither end of the interval is further away than an int64 of nanoseconds less a second (about 292
-- years), the controller looks again after at least a second, and the state at every instant until a
-- second before that is the state now.
pub requeue_after_steady :
    (start end now : ℕ)
    → start + one_second ≤ now + max_int64
    → end + one_second ≤ now + max_int64
    → LooksAgain start end now (requeue_after start end now)
unfolding requeue_after
requeue_after_steady start end now h k = elim (Bool-cases (interval_active start end now)) [
  | inl e ↦ record {
    duration = end - now + one_second;
    is_wait = rw e (wait_until end now (ground arith) k);
    is_later = omega arith;
    is_steady = λ t a b. ground arith;
  }
  | inr e ↦ elim (Bool-cases (ltb now start)) [
    | inl f ↦ record {
      duration = start - now + one_second;
      is_wait = rw (e, f) (wait_until start now (ground arith) h);
      is_later = omega arith;
      is_steady = λ t a b. ground arith;
    }
    | inr f ↦ record {
      duration = 10 * one_minute;
      is_wait = rw (e, f);
      is_later = omega arith;
      is_steady = λ t a b. ground arith;
    }
  ]
]
