-- ===== src/Examples/ManagerRuns.antt =====
-- The theorem about the start of the process at the flags' defaults.
use kube_freeze_operator.Common.{◌≡◌, refl, Bool, true, any}
use kube_freeze_operator.Manager.{SetupStep, default_flags, main_process, setup_steps, take_steps}
use kube_freeze_operator.Manager.Startup.{is_start, SetsUp, main_process-SetsUp}

abbrev all_succeed : SetupStep → Bool
all_succeed s = true

starts : any is_start (main_process all_succeed default_flags "").0 ≡ true
unfolding main_process setup_steps take_steps
starts = refl

main_process-SetsUp_example : SetsUp default_flags "" (main_process all_succeed default_flags "").0
main_process-SetsUp_example = main_process-SetsUp all_succeed default_flags "" starts
