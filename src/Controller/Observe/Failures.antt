-- ===== src/Controller/Observe/Failures.antt =====
-- operator/internal/controller/podstatus.go and observe.go: the reasons and the messages of the failures.
use ai_sandbox.Base.{
  ℕ, ◌≡◌, refl, Bool, true, false, not, ◌&&◌, ◌||◌, leb, List, [], ◌∷◌, ◌++◌, Option, none, some,
  Text, codes, length, length-take, Option-cases, inl, inr, arith,
}
use ai_sandbox.Api.Condition.{Reason}
use ai_sandbox.Api.Environment.{SandboxEnvironmentStatus}
use ai_sandbox.Lifecycle.Facts.{PodFailure, StepFailure}
use ai_sandbox.Controller.Pod.{
  Pod, PodCondition, ContainerStatus, pod_failure, unschedulable_failure, image_pull_failure,
  restore_failure, generic_failure, truncate_message, pod_failure_message_bytes,
}
use ai_sandbox.Controller.Observe.{truncated, snapshot_failure}

pub bounded : Text → Bool
bounded s = leb (length s) 512

-- The reasons that a pod failure may carry.
abbrev pub is_pod_reason : Reason → Bool
is_pod_reason Reason.pod_failed = true
is_pod_reason Reason.image_pull_failure = true
is_pod_reason Reason.unschedulable = true
is_pod_reason Reason.restore_verification_failed = true
is_pod_reason _ = false

abbrev pub pod_ok : Option PodFailure → Bool
pod_ok none = true
pod_ok (some pf) = is_pod_reason pf.reason && bounded pf.message

abbrev pub step_ok : Option StepFailure → Bool
step_ok none = true
step_ok (some s) = bounded s.message

abbrev pub implies : Bool → Bool → Bool
implies a b = not a || b

length-truncate_message : (s : Text) (n : ℕ) → leb (length (truncate_message s n)) n ≡ true
unfolding truncate_message
length-truncate_message s n = ground (arith, length-take n s)

pub truncate_message-bounded :
    (s : Text) → bounded (truncate_message s pod_failure_message_bytes) ≡ true
unfolding bounded
truncate_message-bounded s = length-truncate_message s pod_failure_message_bytes

abbrev pub reason_ok : Option PodFailure → Bool
reason_ok none = true
reason_ok (some pf) = is_pod_reason pf.reason

unschedulable_failure-reason :
    (cs : List PodCondition) (now : ℕ) → reason_ok (unschedulable_failure cs now) ≡ true
unfolding unschedulable_failure
unschedulable_failure-reason [] now = refl
unschedulable_failure-reason (c ∷ cs) now = ground (arith, unschedulable_failure-reason cs now)

image_pull_failure-reason : (cs : List ContainerStatus) → reason_ok (image_pull_failure cs) ≡ true
unfolding image_pull_failure
image_pull_failure-reason [] = refl
image_pull_failure-reason (c ∷ cs) = ground (arith, image_pull_failure-reason cs)

restore_failure-reason : (cs : List ContainerStatus) → reason_ok (restore_failure cs) ≡ true
unfolding restore_failure
restore_failure-reason [] = refl
restore_failure-reason (c ∷ cs) = ground (arith, restore_failure-reason cs)

pub pod_failure-reason : (pod : Pod) (now : ℕ) → reason_ok (pod_failure pod now) ≡ true
unfolding pod_failure generic_failure
pod_failure-reason pod now = ground (
  arith,
  unschedulable_failure-reason pod.conditions now,
  image_pull_failure-reason (pod.init_container_statuses ++ pod.container_statuses),
  restore_failure-reason pod.init_container_statuses,
)

pub truncated_ok : (pf : Option PodFailure) → reason_ok pf ≡ true → pod_ok (truncated pf) ≡ true
unfolding truncated
truncated_ok none h = refl
truncated_ok (some pf) h = ground (arith, h, truncate_message-bounded pf.message)

pub snapshot_failure_ok : (st : SandboxEnvironmentStatus) → step_ok (snapshot_failure st) ≡ true
unfolding snapshot_failure
snapshot_failure_ok st = elim (Option-cases st.snapshot_attempt) [
  | inl e ↦ rw e refl
  | inr (a, e) ↦
      rw e (ground (arith, truncate_message-bounded (a.reason ++ (codes ": " ++ a.message))))
]
