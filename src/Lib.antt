-- ===== src/Lib.antt =====
-- kube-freeze-operator: what the freeze policies of a Kubernetes cluster deny, and what they suspend.
--
-- Three policies stand in the cluster: a ChangeFreeze denies actions on workloads in an interval, a
-- MaintenanceWindow denies them outside recurring windows, and a FreezeException lifts denials in an
-- interval. An admission webhook asks an evaluator about every change of a workload; three controllers
-- keep the statuses of the policies, suspend CronJobs and pause the objects of Argo CD and Flux. An HTTP
-- server and a command ask the evaluator for a CI pipeline.
--
-- The modules, and the code that they model:
--   Api         api/v1alpha1: kinds, specs, and objects with the parts that the program reads or writes
--   External    the parameters: label selectors, time zones, the cron parser, the text of an instant,
--               meta.SetStatusCondition, Semantic.DeepEqual, and the reads of the API server; and
--               the arithmetic of Go's time package
--   Policy      internal/policy: Window is windows.go (EvalCronWindow), Selectors is selectors.go with
--               the tests on a request, Candidates, Choice and Evaluator are evaluator.go (the denials of
--               one policy, selectDenyCandidate, Evaluate), Types is types.go
--   Diff        internal/diff/classify.go (ClassifyUpdate)
--   Workloads   internal/webhook/workloads/validator.go: Request is classify, decode and mapGVKToTargetKind,
--               Message is formatDenyMessage, Handler is Handle
--   Validation  internal/webhook/v1alpha1: the three validating webhooks
--   Controller  internal/controller: CronJobs is cronjob_helper.go, ChangeFreeze, FreezeException and
--               MaintenanceWindow are the calls of Reconcile (Windows is evaluateWindows, Interval and
--               Status what they share; Footprint is what a call leaves of the cluster, Calls are
--               any calls one after the other, and Enforcement is two calls for one freeze)
--   GitOps      internal/gitops: the annotations and the loops, ArgoCd, Flux and Reconciler; Session is one
--               object over any sequence of runs
--   CiApi       internal/api: Server is the evaluation in server.go, Serve its options and routes, Auth is
--               auth.go; Command is evalDirect of cmd/kfo/main.go; Agreement is about the webhook too
--   Kfo         cmd/kfo/main.go: Flags is the loop over the arguments, Parse is parseKind and parseAction,
--               Remote is evalViaAPI, Main is the rest of main with printHuman
--   Manager     cmd/main.go: the flags, the options of the servers, and the steps of main
--   Common      lists, texts, maps, results and integers
--   Examples    test data, and the theorems at it
--
-- State and errors. A handler is a function of what it reads: the API server's answers are a record of
-- functions and options, where `none` is an error. A call that changes objects takes the list of
-- them and gives the list that it leaves, with its error; whether the server takes an update is a
-- parameter, so that every failure in the middle of a run is covered. A listing in a namespace walks the
-- store and visits the entries of the namespace in order. Go's multiple results are pairs, results or
-- records. The clock is read once in a call and is an argument.
--
-- Numbers. Instants and durations count nanoseconds. An instant is a natural number from an origin 365
-- days before Go's zero time, so that the search's fourteen days back stay in range after the zero time.
-- A duration is an integer; differences of instants are cut off at the ends of int64 as time.Sub does,
-- and sums of durations wrap round. The search of EvalCronWindow recurses on the 10001 rounds after
-- which the code's own loop breaks, so it needs no other fuel; every other loop is over a list.
--
-- Not modelled: the listener of the CI API server and its shutdown, the JSON of bodies, the value of the
-- latency metric, HTTP itself, the parsing of the flags of the manager (the flag package), the
-- registration of metrics, logging, generated deep copies, and the retries and caches of
-- controller-runtime.
pub mod Common
pub mod Api
pub mod External
pub mod Policy
pub mod Diff
pub mod Workloads
pub mod Validation
pub mod Controller
pub mod GitOps
pub mod CiApi
pub mod Kfo
pub mod Manager
pub mod Examples
