-- ===== src/Controller.antt =====
-- internal/controller: the reconcilers of the three policies and the CronJobs that they suspend.
pub mod CronJobs
pub mod Interval
pub mod Status
pub mod FreezeException
pub mod ChangeFreeze
pub mod Windows
pub mod MaintenanceWindow
pub mod Agreement
pub mod Effects
pub mod Footprint
pub mod Calls
pub mod Enforcement
