-- ===== src/Controller/Observe.antt =====
-- operator/internal/controller/observe.go, with observePod of pod.go, observeSnapshot of freeze.go and
-- observeRestore of restore.go: the facts that a pass decides from.
--
-- What the API server answers is an argument: the pod, the list of environments, the child objects. So
-- are the class as far as it was resolved, with the problem of its credentials and of its network peers,
-- the names of the children, and the answer of the probe evaluator.
pub mod Failures
pub mod Bounds
pub mod Freezes
use ai_sandbox.Base.{
  ℕ, Bool, true, false, not, ◌&&◌, ◌||◌, List, [], ◌∷◌, ◌++◌, Option, none, some, is_some, Text,
  codes, text_eq, if◌then◌else◌,
}
use ai_sandbox.Base.Int.{pos, leb_ℤ, signed32}
use ai_sandbox.Api.Phase.{Phase, PodPhase, phase_eq, pod_phase_eq}
use ai_sandbox.Api.Condition.{Reason}
use ai_sandbox.Api.Environment.{
  SandboxEnvironment, SandboxEnvironmentStatus, AgentOutcome, AgentResultStatus, AttemptPhase,
  SnapshotAttemptStatus, RestoreAttemptStatus, ProbeAttemptStatus, SnapshotStatus,
}
use ai_sandbox.Lifecycle.Facts.{ClusterFacts, StepFailure, PodFailure, zero_facts}
use ai_sandbox.Scheduler.{is_candidate, partition, queue_position}
use ai_sandbox.Controller.Children.{
  Got, Child, owned_by, Resources, ResourceCheck, observe_resources, ChildNames,
}
use ai_sandbox.Controller.Pod.{
  Pod, pod_ready, pod_failure, truncate_message, pod_failure_message_bytes,
}

-- `seq >= freezeCount`, on int32: of the freeze in flight or a later one.
unfoldable pub in_flight : ℕ → ℕ → Bool
in_flight seq freeze_count = leb_ℤ (signed32 freeze_count) (signed32 seq)

unfoldable pub snapshot_complete : SandboxEnvironmentStatus → Bool
unfolding in_flight
snapshot_complete st = elim st.snapshot [ none ↦ false | some s ↦ in_flight s.seq st.freeze_count ]

unfoldable pub is_failed : AttemptPhase → Bool
is_failed AttemptPhase.failed = true
is_failed _ = false

unfoldable pub snapshot_failure : SandboxEnvironmentStatus → Option StepFailure
unfolding in_flight is_failed truncate_message
snapshot_failure st = elim st.snapshot_attempt [
  | none ↦ none
  | some a ↦
      if is_failed a.phase && in_flight a.seq st.freeze_count
      then some (record {
        reason = Reason.snapshot_failed;
        message =
            truncate_message (a.reason ++ (codes ": " ++ a.message)) pod_failure_message_bytes;
      })
      else none
]

-- The facts are zero in these two fields before the call.
unfoldable pub observe_snapshot : SandboxEnvironmentStatus → ClusterFacts → ClusterFacts
observe_snapshot st f = record f {
  snapshot_complete = snapshot_complete st;
  snapshot_failure = snapshot_failure st;
}

unfoldable pub truncated : Option PodFailure → Option PodFailure
unfolding truncate_message
truncated none = none
truncated (some pf) =
    some (record pf { message = truncate_message pf.message pod_failure_message_bytes })

unfoldable pub observe_pod : SandboxEnvironment → Got Pod → ℕ → ClusterFacts → ClusterFacts
unfolding owned_by pod_ready pod_failure truncated pod_phase_eq
observe_pod env Got.not_found now f = record f { pod_observed = true }
observe_pod env (Got.get_failed e) now f = f
observe_pod env (Got.got pod) now f =
    if not (owned_by env.uid pod.owner_references)
    then record f { pod_observed = true }
    else record f {
      pod_observed = true;
      pod_exists = true;
      pod_phase = pod.phase;
      pod_ready = pod_ready pod;
      pod_alive_for_archive =
          (not (is_some env.status.snapshot) && pod_phase_eq pod.phase PodPhase.running)
          || f.pod_alive_for_archive;
      pod_failure = elim (truncated (pod_failure pod now)) [
        | none ↦ f.pod_failure
        | some pf ↦ some pf
      ];
    }

-- The failure with the message of a failed restore in place of its own.
unfoldable pub restored : Option RestoreAttemptStatus → Option PodFailure → Option PodFailure
unfolding is_failed truncate_message
restored none failure = failure
restored (some a) none = none
restored (some a) (some pf) =
    if is_failed a.phase
    then some (record pf {
      message = truncate_message (a.reason ++ (codes ": " ++ a.message)) pod_failure_message_bytes;
    })
    else some pf

unfoldable pub observe_restore : SandboxEnvironmentStatus → ClusterFacts → ClusterFacts
unfolding restored
observe_restore st f = record f { pod_failure = restored st.restore_attempt f.pod_failure }

-- The list of the watched environments, none where List fails.
unfoldable pub observe_queue_position :
    SandboxEnvironment → Option (List SandboxEnvironment) → ClusterFacts → ClusterFacts
unfolding partition queue_position
observe_queue_position env none f = f
observe_queue_position env (some items) f =
    let (position, depth) = queue_position (partition items).1 env.uid in
    record f { queue_position = pos position; queue_depth = pos depth }

unfoldable pub truncated_step : Option StepFailure → Option StepFailure → Option StepFailure
unfolding truncate_message
truncated_step none old = old
truncated_step (some w) old =
    some (record w { message = truncate_message w.message pod_failure_message_bytes })

-- `probes` is none where no evaluator is wired up, or its answer to Evaluate.
unfoldable pub observe_probe :
    SandboxEnvironment
    → Option (ClusterFacts × Option ProbeAttemptStatus)
    → ClusterFacts
    → ClusterFacts
unfolding phase_eq truncated_step
observe_probe env none f = f
observe_probe env (some (pf, attempt)) f =
    if not (phase_eq env.status.phase Phase.waiting) || not (is_some env.status.wait_for)
    then f
    else record f {
      probe_observed = pf.probe_observed;
      wait_probe_satisfied = pf.wait_probe_satisfied;
      wait_probe_failure = truncated_step pf.wait_probe_failure f.wait_probe_failure;
      probe_attempt = attempt;
    }

unfoldable pub is_success : AgentOutcome → Bool
is_success AgentOutcome.succeeded = true
is_success _ = false

unfoldable pub is_failure : AgentOutcome → Bool
is_failure AgentOutcome.failed = true
is_failure _ = false

-- A class that was resolved: what the observer reads of it, and the errors of resolveCredentials and
-- resolveNetworkPeers.
pub record ObservedClass : Type 0 where
  pub is_s3 : Bool
  pub is_restricted : Bool
  pub credentials_problem : Option Text
  pub network_problem : Option Text

-- What the API server and the evaluator answer in one pass; `child` is Get by kind and name.
pub record Answers : Type 0 where
  pub environments : Option (List SandboxEnvironment)
  pub pod : Got Pod
  pub child : Text → Text → Got Child
  pub probes : Option (ClusterFacts × Option ProbeAttemptStatus)

unfoldable pub check : Answers → Text → Text → ResourceCheck
check answers kind name = record { kind = kind; name = name; answer = answers.child kind name }

unfoldable pub resource_checks :
    SandboxEnvironment → ObservedClass → ChildNames → Answers → List ResourceCheck
unfolding check phase_eq
resource_checks env class names answers =
    (check answers (codes "ServiceAccount") names.service_account
      ∷ check answers (codes "Role") names.role
      ∷ check answers (codes "RoleBinding") names.role_binding
      ∷ check answers (codes "ConfigMap") names.config_map
      ∷ check answers (codes "Secret") names.secret
      ∷ [])
    ++ ((if not (phase_eq env.status.phase Phase.waiting)
          then check answers (codes "PersistentVolumeClaim") names.pvc ∷ []
          else [])
        ++ ((if class.is_s3 then check answers (codes "Secret") names.snapshot_secret ∷ [] else [])
            ++ (if class.is_restricted
                then check answers (codes "NetworkPolicy") names.network_policy ∷ []
                else [])))

-- The part of observeCluster that reads the environment alone.
unfoldable pub status_facts : SandboxEnvironmentStatus → ClusterFacts
unfolding text_eq is_success is_failure
status_facts st = elim st.agent_result [
  | none ↦ record zero_facts {
    slot_granted = st.slot.granted;
    agent_wait_declared = is_some st.wait_for;
    archive_written = is_some st.archive || not (text_eq st.archive_uri []);
    archive_uri = st.archive_uri;
  }
  | some ar ↦ record zero_facts {
    slot_granted = st.slot.granted;
    agent_wait_declared = is_some st.wait_for;
    archive_written = is_some st.archive || not (text_eq st.archive_uri []);
    archive_uri = st.archive_uri;
    agent_done = is_success ar.outcome;
    agent_failed = is_failure ar.outcome;
    agent_message = ar.message;
  }
]

-- The last part, from the result of observeResources on; an error with the facts is its text.
unfoldable pub with_resources : ChildNames → Resources → ClusterFacts → Option Text × ClusterFacts
with_resources names (Resources.failed e) f = (some e, f)
with_resources names (Resources.problem p) f = (none, record f { resources_problem = p })
with_resources names (Resources.ready none) f = (none, record f { resources_ready = true })
with_resources names (Resources.ready (some claim)) f =
    if claim.is_lost_claim
    then (
      none,
      record f { resources_problem = codes "workspace PVC " ++ (names.pvc ++ codes " is Lost") },
    )
    else (none, record f { resources_ready = true })

unfoldable pub observe_children :
    Text → ChildNames → List ResourceCheck → ClusterFacts → Option Text × ClusterFacts
unfolding observe_resources with_resources
observe_children uid names checks f = with_resources names (observe_resources uid checks none) f

-- The facts that do not need the class.
unfoldable pub observe_run : SandboxEnvironment → Answers → ℕ → ClusterFacts
unfolding status_facts observe_snapshot observe_queue_position observe_pod observe_restore
    is_candidate
observe_run env answers now =
    let f = observe_snapshot env.status (status_facts env.status) in
    let queued =
      if is_candidate env then observe_queue_position env answers.environments f else f in
    observe_restore env.status (observe_pod env answers.pod now queued)

-- The part that needs the class, from the errors of its credentials and its network peers on.
unfoldable pub observe_class :
    SandboxEnvironment
    → ObservedClass
    → Option Text
    → Option Text
    → ChildNames
    → Answers
    → ClusterFacts
    → Option Text × ClusterFacts
unfolding observe_probe observe_children resource_checks
observe_class env class (some e) network names answers f =
    (none, record f { resources_problem = e })
observe_class env class none (some e) names answers f = (none, record f { resources_problem = e })
observe_class env class none none names answers f =
    observe_children env.uid names (resource_checks env class names answers)
      (observe_probe env answers.probes f)

unfoldable pub observe_cluster :
    SandboxEnvironment
    → Option ObservedClass
    → ChildNames
    → Answers
    → ℕ
    → Option Text × ClusterFacts
unfolding observe_run observe_class
observe_cluster env none names answers now = (none, observe_run env answers now)
observe_cluster env (some class) names answers now =
    observe_class env class class.credentials_problem class.network_problem names answers
      (observe_run env answers now)
