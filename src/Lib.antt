-- ===== src/Lib.antt =====
-- ai-sandbox: verification of the sandbox operator (operator/) and of the agent store of the Docker
-- operator (docker-operator/).
--
-- The operator runs coding agents in pods. Each SandboxEnvironment object goes through the phases
-- Pending, Ready, Restoring, Running, Freezing, Waiting, Done and Failed. A pass of the reconciler
-- (operator/internal/controller/sandboxenvironment_controller.go) observes the cluster as
-- ClusterFacts, asks the pure state machine for a Decision (operator/internal/lifecycle: Next), performs
-- its actions and writes the status that Apply projects from it. The slot scheduler
-- (operator/internal/scheduler) decides which Ready environments get one of the limited slots; the state
-- machine only declares that it wants one.
--
-- The Docker operator is a second program, which runs agents as Docker containers. It keeps a record per
-- agent in a BoltDB file (docker-operator/internal/store), and Create refuses where MAX_AGENTS of them
-- hold a slot. The same file holds templates of agents and cron agents, which a ticker fires.
--
-- Files:
-- - Base: bytes, lists, integers and Boolean tests over the native numbers.
-- - Api: operator/api/v1alpha1/sandboxenvironment_types.go. Phases, condition types and reasons are
--   string constants in the source; here they are data types with a constructor for every constant and
--   one, `other`, for all other strings. Api.Condition also has the interface ApiMachinery: the
--   functions FindStatusCondition, SetStatusCondition and Rfc3339Copy of k8s.io/apimachinery, which is
--   not part of the repository, with their documented behaviour as laws. Every definition that calls
--   them takes it as an instance argument; Examples.Cluster is one instance.
-- - Lifecycle.Facts, Decision, Reasons: facts.go, decision.go, conditions.go.
-- - Lifecycle.Defaults, Builder: builder.go. The explicit map of the builder is a function.
-- - Lifecycle.Timeouts: timeouts.go, with its laws in Timeouts.Requeue.
-- - Lifecycle.Next and Next.Phases: next.go. A Go function that returns (Decision, bool) returns an
--   Option. The laws stand in the children Legality, Terminal, Actions, Slots, Conditions and
--   Documented; Next.Cases has the case split by the stages of decide() that proofs share.
-- - Lifecycle.Apply: apply.go, with its laws in Apply.Laws and Apply.Conditions.
-- - Lifecycle.Runs: passes of the reconciler and writes of other components as a step relation.
-- - Controller.Status: operator/internal/controller/status.go, the guarded write of a decision's status; its
--   laws stand in Status.Guard and Status.Slot. Semantic.DeepEqual is the interface Api.Equality.
-- - Controller.Slots: operator/internal/controller/slotscheduler.go, a pass of the slot scheduler and its
--   grant writes; what the API server and the other writers do in each attempt is an argument. The
--   occupancy after a pass stands in Slots.Occupancy, what a grant has written in Slots.Pass.
-- - Controller.Pod, Children, Observe: operator/internal/controller/podstatus.go, observe.go and what it
--   calls in pod.go, freeze.go and restore.go: the facts of a pass from what the API server answers.
--   Observe.Failures and Observe.Bounds are about the facts of one pass. Observe.Freezes is a step
--   relation over passes on the observed snapshot and the snapshots of the sidecar; its laws stand in
--   Freezes.Passes and Freezes.Stale.
-- - Sandboxctl.Snapshot: operator/internal/sandboxctl/snapshot.go and store.go, the number of a snapshot
--   and its record in the status.
-- - Controller.Probe: operator/internal/controller/probe.go, the evaluation of a declared wait, and the
--   errors of operator/internal/lifecycle/probe.go; the counters of an attempt over a run of evaluations
--   stand in Probe.Streak. The answer of the outside world and the jittered delay are arguments.
-- - Scheduler: admit.go, with the laws of the order and of the admission. Scheduler.Keys states the order
--   that Order promises key by key, apart from less().
-- - Storage.Path: operator/internal/storage/path.go, with the laws of joining and splitting at slashes in
--   Path.Segments, of the root in Path.Roots, and of the keys in Path.Keys and Path.Separate.
-- - Storage.Backend, Storage.Retry: operator/internal/storage/backend.go, the interface of the object
--   stores with what its comments promise, and retry.go with errors.go; the attempts stand in
--   Retry.Attempts.
-- - Controller.RootKeys, Controller.Retention: operator/internal/controller/retentiongc.go, a pass of the
--   retention collection. Retention.Roots and Places say what rootOf reads from a key and where the keys
--   of an environment lie, Keeps which roots spare a key, Deletes and Passes what the loops keep; the laws
--   stand in Retention.Live and, with Retention.Seen, in Retention.Reclaims.
-- - Base.Dict: association lists in the order of their keys. Base.Prefix: prefixes of texts.
-- - Docker.Bolt: the interfaces of go.etcd.io/bbolt and encoding/json, which are not part of the
--   repository, with their documented behaviour as laws.
-- - Docker.Records: what the files of docker-operator/internal/store do alike with a kind of record.
--   Records.Holds and Records.Transactions say what a bucket stands for and what a transaction does to it.
-- - Docker.Store: docker-operator/internal/store/store.go, the records of the Docker operator's agents;
--   the laws of the methods stand in Store.Create, Store.Update, Store.Lookup and Store.Race.
-- - Docker.CronAgents, Docker.Templates: docker-operator/internal/store/cronagent.go and template.go, with
--   the laws of the names in Templates.Names and Unique and of the deletion in Templates.Deletion.
-- - Docker.Schedules: docker-operator/internal/agent/schedule.go and docker-operator/cmd/docker-operator's
--   schedule.go, the ticks that fire the cron agents and finish their runs; the library robfig/cron and
--   the interface schedulingDeps are parameters.
-- - Docker.Shield: docker-operator/internal/agent/reconcile.go, markShielded.
-- - Examples: tests, sample data and the theorems at concrete inputs.
--
-- Conventions: a time is a number of nanoseconds since the zero time of Go's time.Time; a duration is
-- an integer of nanoseconds, and a difference of times is held between the bounds of int64 as
-- time.Time.Sub does; a pointer is an Option; a string is the list of its bytes; int32 counters are bit
-- patterns modulo 2 ^ 32. sort.SliceStable is a stable insertion sort. No definition uses fuel but the
-- decimal printer, whose 19 digits hold every positive int64; the attempts of a retry are counted down.
--
-- Not modelled: the calls of the Kubernetes API, the actions themselves, the rendering of child objects,
-- snapshot storage but for its keys, the retries and the contract of a backend, the sidecar but for the
-- numbers of snapshots, and of the Docker operator (docker-operator/) the HTTP handlers, the configuration,
-- the store of accounts and of scheduled runs, and all that talks to Docker. A pass of the retention
-- collection sees the stores change by its own deletions only.
pub mod Base
pub mod Api
pub mod Lifecycle
pub mod Controller
pub mod Scheduler
pub mod Sandboxctl
pub mod Storage
pub mod Docker
pub mod Examples
