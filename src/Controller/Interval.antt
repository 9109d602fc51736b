-- ===== src/Controller/Interval.antt =====
-- The parts that internal/controller/changefreeze_controller.go and freezeexception_controller.go
-- share: is an interval active, and when does the controller look again.
pub mod Laws
use kube_freeze_operator.Common.{ℕ, ◌*◌, Bool, not, ◌&&◌, ltb, if◌then◌else◌}
use kube_freeze_operator.Common.Int.{ℤ, pos, add_int64}
use kube_freeze_operator.External.{sub_time, one_second, one_minute}

abbrev pub interval_active : ℕ → ℕ → ℕ → Bool
interval_active start end now = not (ltb now start) && ltb now end

unfoldable pub requeue_after : ℕ → ℕ → ℕ → ℤ
requeue_after start end now =
    if interval_active start end now
    then add_int64 (sub_time end now) (pos one_second)
    else if ltb now start
    then add_int64 (sub_time start now) (pos one_second)
    else pos (10 * one_minute)
