-- ===== src/Controller/CronJobs/SharedName.antt =====
-- internal/controller/cronjob_helper.go for two policies of different kinds that have one name.
