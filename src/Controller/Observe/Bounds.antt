-- ===== src/Controller/Observe/Bounds.antt =====
-- operator/internal/controller/observe.go: what the observed facts keep to, whatever the cluster answers.
use ai_sandbox.Base.{
  ℕ, ◌≡◌, refl, ◌∙◌, Bool, true, false, not, ◌&&◌, ◌||◌, List, ◌++◌, Option, none, some, is_some,
  Text, codes, Bool-cases, inl, inr, arith,
}
use ai_sandbox.Api.Phase.{PodPhase, pod_phase_eq}
use ai_sandbox.Api.Environment.{
  SandboxEnvironment, SandboxEnvironmentStatus, ProbeAttemptStatus, RestoreAttemptStatus,
}
use ai_sandbox.Lifecycle.Facts.{ClusterFacts, PodFailure, StepFailure}
use ai_sandbox.Scheduler.{is_candidate}
use ai_sandbox.Controller.Pod.{pod_ready, Pod, pod_failure}
use ai_sandbox.Controller.Children.{Got, owned_by, ChildNames, observe_resources, Resources}
use ai_sandbox.Controller.Observe.{
  restored, truncated_step, with_resources, observe_class, Answers, ObservedClass, truncated,
  observe_snapshot, observe_pod, observe_restore, observe_queue_position, observe_probe,
  observe_children, status_facts, observe_run, observe_cluster, resource_checks,
}
use ai_sandbox.Controller.Observe.Failures.{
  pod_ok, step_ok, implies, truncate_message-bounded, pod_failure-reason, truncated_ok,
  snapshot_failure_ok,
}

-- Failures have an allowed reason and at most 512 bytes of message; a pod is ready, has failed or can
-- still be archived only where it exists, and it exists only where it was observed; the last also needs
-- it to run and no snapshot to be there.
abbrev pub sound : SandboxEnvironment → ClusterFacts → Bool
sound env f =
    (pod_ok f.pod_failure && (step_ok f.snapshot_failure && step_ok f.wait_probe_failure))
    && (implies f.pod_exists f.pod_observed
        && (implies (f.pod_ready || (is_some f.pod_failure || f.pod_alive_for_archive)) f.pod_exists
            && implies f.pod_alive_for_archive
                (not (is_some env.status.snapshot) && pod_phase_eq f.pod_phase PodPhase.running)))

sound-status_facts :
    (env : SandboxEnvironment)
    → let f = status_facts env.status in (sound env f ≡ true) × (f.pod_alive_for_archive ≡ false)
unfolding status_facts
sound-status_facts env = ground arith

sound-observe_snapshot :
    (env : SandboxEnvironment) (f : ClusterFacts)
    → sound env f ≡ true
    → sound env (observe_snapshot env.status f) ≡ true
unfolding observe_snapshot
sound-observe_snapshot env f h = ground (arith, h, snapshot_failure_ok env.status)

alive_snapshot :
    (st : SandboxEnvironmentStatus) (f : ClusterFacts)
    → f.pod_alive_for_archive ≡ false
    → (observe_snapshot st f).pod_alive_for_archive ≡ false
unfolding observe_snapshot
alive_snapshot st f h = h

sound-observe_queue_position :
    (env : SandboxEnvironment) (items : Option (List SandboxEnvironment)) (f : ClusterFacts)
    → sound env f ≡ true
    → sound env (observe_queue_position env items f) ≡ true
unfolding observe_queue_position
sound-observe_queue_position env none f h = h
sound-observe_queue_position env (some items) f h = h

-- The facts of the environment's own pod.
abbrev own_pod :
    SandboxEnvironment → PodPhase → Bool → Option PodFailure → ClusterFacts → ClusterFacts
own_pod env phase ready failure f = record f {
  pod_observed = true;
  pod_exists = true;
  pod_phase = phase;
  pod_ready = ready;
  pod_alive_for_archive =
      (not (is_some env.status.snapshot) && pod_phase_eq phase PodPhase.running)
      || f.pod_alive_for_archive;
  pod_failure = elim failure [ none ↦ f.pod_failure | some pf ↦ some pf ];
}

sound-own_pod :
    (env : SandboxEnvironment) (phase : PodPhase) (ready : Bool) (failure : Option PodFailure)
    (f : ClusterFacts)
    → sound env f ≡ true
    → f.pod_alive_for_archive ≡ false
    → pod_ok failure ≡ true
    → sound env (own_pod env phase ready failure f) ≡ true
sound-own_pod env phase ready none f h a x = ground (arith, h, a)
sound-own_pod env phase ready (some pf) f h a x = ground (arith, h, a, x)

sound-observe_pod :
    (env : SandboxEnvironment) (answer : Got Pod) (now : ℕ) (f : ClusterFacts)
    → sound env f ≡ true
    → f.pod_alive_for_archive ≡ false
    → sound env (observe_pod env answer now f) ≡ true
unfolding observe_pod
sound-observe_pod env (Got.not_found) now f h a = ground (arith, h, a)
sound-observe_pod env (Got.get_failed e) now f h a = h
sound-observe_pod env (Got.got pod) now f h a =
    elim (Bool-cases (owned_by env.uid pod.owner_references)) [
      | inr e ↦ rw e (ground (arith, h, a))
      | inl e ↦
          let x = truncated_ok (pod_failure pod now) (pod_failure-reason pod now) in
          rw e
            (sound-own_pod env pod.phase (pod_ready pod) (truncated (pod_failure pod now)) f h a x)
    ]

restored_ok :
    (a : Option RestoreAttemptStatus) (failure : Option PodFailure)
    → pod_ok failure ≡ true
    → (pod_ok (restored a failure) ≡ true) × (is_some (restored a failure) ≡ is_some failure)
unfolding restored
restored_ok none failure h = (h, refl)
restored_ok (some a) none h = (refl, refl)
restored_ok (some a) (some pf) h =
    let b = truncate_message-bounded (a.reason ++ (codes ": " ++ a.message)) in ground (arith, h, b)

with_failure :
    (env : SandboxEnvironment) (f : ClusterFacts) (failure : Option PodFailure)
    → sound env f ≡ true
    → pod_ok failure ≡ true
    → is_some failure ≡ is_some f.pod_failure
    → sound env (record f { pod_failure = failure }) ≡ true
with_failure env f failure h p e = ground (arith, h, p, e)

pod_ok_of :
    (env : SandboxEnvironment) (f : ClusterFacts) → sound env f ≡ true → pod_ok f.pod_failure ≡ true
pod_ok_of env f h = ground (arith, h)

sound-observe_restore :
    (env : SandboxEnvironment) (f : ClusterFacts)
    → sound env f ≡ true
    → sound env (observe_restore env.status f) ≡ true
unfolding observe_restore
sound-observe_restore env f h =
    let r = restored_ok env.status.restore_attempt f.pod_failure (pod_ok_of env f h) in
    with_failure env f (restored env.status.restore_attempt f.pod_failure) h r.0 r.1

truncated_step_ok :
    (new old : Option StepFailure) → step_ok old ≡ true → step_ok (truncated_step new old) ≡ true
unfolding truncated_step
truncated_step_ok none old h = h
truncated_step_ok (some w) old h = truncate_message-bounded w.message

sound-observe_probe :
    (env : SandboxEnvironment) (probes : Option (ClusterFacts × Option ProbeAttemptStatus))
    (f : ClusterFacts)
    → sound env f ≡ true
    → sound env (observe_probe env probes f) ≡ true
unfolding observe_probe
sound-observe_probe env none f h = h
sound-observe_probe env (some (pf, attempt)) f h =
    ground (arith, h, truncated_step_ok pf.wait_probe_failure f.wait_probe_failure)

sound-with_resources :
    (env : SandboxEnvironment) (names : ChildNames) (r : Resources) (f : ClusterFacts)
    → sound env f ≡ true
    → sound env (with_resources names r f).1 ≡ true
unfolding with_resources
sound-with_resources env names (Resources.failed e) f h = h
sound-with_resources env names (Resources.problem p) f h = h
sound-with_resources env names (Resources.ready none) f h = h
sound-with_resources env names (Resources.ready (some claim)) f h = ground (arith, h)

alive_queue :
    (env : SandboxEnvironment) (items : Option (List SandboxEnvironment)) (f : ClusterFacts)
    → (observe_queue_position env items f).pod_alive_for_archive ≡ f.pod_alive_for_archive
unfolding observe_queue_position
alive_queue env none f = refl
alive_queue env (some items) f = refl

sound-observe_run :
    (env : SandboxEnvironment) (answers : Answers) (now : ℕ)
    → sound env (observe_run env answers now) ≡ true
unfolding observe_run
sound-observe_run env answers now =
    let s = sound-status_facts env in
    let f = observe_snapshot env.status (status_facts env.status) in
    let h = sound-observe_snapshot env (status_facts env.status) s.0 in
    let a : f.pod_alive_for_archive ≡ false =
      alive_snapshot env.status (status_facts env.status) s.1 in
    let q = observe_queue_position env answers.environments f in
    elim (Bool-cases (is_candidate env)) [
      | inr e ↦ rw e (
          sound-observe_restore env (observe_pod env answers.pod now f)
            (sound-observe_pod env answers.pod now f h a))
      | inl e ↦
          let hq = sound-observe_queue_position env answers.environments f h in
          let aq = alive_queue env answers.environments f ∙ a in
          rw e (
            sound-observe_restore env (observe_pod env answers.pod now q)
              (sound-observe_pod env answers.pod now q hq aq))
    ]

sound-observe_class :
    (env : SandboxEnvironment) (class : ObservedClass) (credentials network : Option Text)
    (names : ChildNames) (answers : Answers) (f : ClusterFacts)
    → sound env f ≡ true
    → sound env (observe_class env class credentials network names answers f).1 ≡ true
unfolding observe_class observe_children
sound-observe_class env class (some e) network names answers f h = h
sound-observe_class env class none (some e) names answers f h = h
sound-observe_class env class none none names answers f h =
    sound-with_resources env names
      (observe_resources env.uid (resource_checks env class names answers) none)
      (observe_probe env answers.probes f) (sound-observe_probe env answers.probes f h)

-- Whatever the cluster answers: the observed failures of the pod, the snapshot and the probe have at most
-- 512 bytes of message, and that of the pod one of its four reasons; a pod is ready, failed or can still
-- be archived only where it exists, it exists only where it was observed, and it can still be archived
-- only while it runs and there is no snapshot.
pub sound-observe_cluster :
    (env : SandboxEnvironment) (class : Option ObservedClass) (names : ChildNames)
    (answers : Answers) (now : ℕ)
    → sound env (observe_cluster env class names answers now).1 ≡ true
unfolding observe_cluster
sound-observe_cluster env none names answers now = sound-observe_run env answers now
sound-observe_cluster env (some class) names answers now =
    sound-observe_class env class class.credentials_problem class.network_problem names answers
      (observe_run env answers now) (sound-observe_run env answers now)
