-- ===== src/Controller/Pod.antt =====
-- operator/internal/controller/podstatus.go: what the state of a pod says of the run.
--
-- Of a corev1.Pod these are the fields that the code reads. `corev1` strings that the code compares are
-- texts, but for the phase.
use ai_sandbox.Base.{
  ℕ, ◌+◌, ◌*◌, ◌==◌, leb, Bool, false, not, ◌&&◌, ◌||◌, List, [], ◌∷◌, ◌++◌, Option, none, some,
  is_some, Text, codes, text_eq, length, take, if◌then◌else◌,
}
use ai_sandbox.Base.Int.{ℤ, pos, negsuc, leb_ℤ}
use ai_sandbox.Api.Phase.{PodPhase, pod_phase_eq}
use ai_sandbox.Api.Condition.{Reason}
use ai_sandbox.Lifecycle.Facts.{PodFailure, second}
use ai_sandbox.Lifecycle.Defaults.{decimal}
use ai_sandbox.Lifecycle.Timeouts.{sub_time}

pub record OwnerReference : Type 0 where
  pub uid : Text
  pub controller : Option Bool

pub record PodCondition : Type 0 where
  pub type : Text
  pub status : Text
  pub reason : Text
  pub message : Text
  pub last_transition_time : ℕ

pub record WaitingState : Type 0 where
  pub reason : Text
  pub message : Text

pub record TerminatedState : Type 0 where
  pub exit_code : ℤ
  pub reason : Text
  pub message : Text

pub record ContainerStatus : Type 0 where
  pub name : Text
  pub waiting : Option WaitingState
  pub terminated : Option TerminatedState

pub record Pod : Type 0 where
  pub owner_references : List OwnerReference
  pub deletion_timestamp : Option ℕ
  pub phase : PodPhase
  pub conditions : List PodCondition
  pub init_container_statuses : List ContainerStatus
  pub container_statuses : List ContainerStatus
  pub message : Text
  pub reason : Text

abbrev pub unschedulable_grace_period : ℤ
unschedulable_grace_period = pos (120 * second)

abbrev pub pod_failure_message_bytes : ℕ
pod_failure_message_bytes = 512

abbrev pub restore_container_name : Text
restore_container_name = codes "restore"

unfoldable pub truncate_message : Text → ℕ → Text
truncate_message s max = if leb (length s) max then s else take max s

-- `%d` of an int32.
unfoldable pub signed_decimal : ℤ → Text
unfolding decimal
signed_decimal (pos n) = decimal n
signed_decimal (negsuc n) = codes "-" ++ decimal (n + 1)

unfoldable pub ready_in : List PodCondition → Bool
ready_in [] = false
ready_in (c ∷ conditions) =
    if text_eq c.type (codes "Ready") then text_eq c.status (codes "True") else ready_in conditions

unfoldable pub pod_ready : Pod → Bool
unfolding ready_in
pod_ready pod = ready_in pod.conditions

-- A container that has exited with another code than 0.
unfoldable pub exited : ContainerStatus → Option TerminatedState
exited cs = elim cs.terminated [
  | none ↦ none
  | some t ↦ elim t.exit_code [ pos n ↦ if n == 0 then none else some t | negsuc n ↦ some t ]
]

unfoldable pub restore_message : TerminatedState → Text
unfolding signed_decimal
restore_message t =
    if text_eq t.message []
    then codes "restore container exited with code "
      ++ (signed_decimal t.exit_code ++ (codes " (" ++ (t.reason ++ codes ")")))
    else t.message

unfoldable pub restore_failure : List ContainerStatus → Option PodFailure
unfolding exited restore_message
restore_failure [] = none
restore_failure (cs ∷ statuses) =
    if not (text_eq cs.name restore_container_name)
    then restore_failure statuses
    else elim (exited cs) [
      | none ↦ restore_failure statuses
      | some t ↦
          some (record { reason = Reason.restore_verification_failed; message = restore_message t })
    ]

unfoldable pub is_unschedulable : PodCondition → Bool
is_unschedulable c =
    text_eq c.type (codes "PodScheduled")
    && (text_eq c.status (codes "False") && text_eq c.reason (codes "Unschedulable"))

unfoldable pub unschedulable_failure : List PodCondition → ℕ → Option PodFailure
unfolding is_unschedulable sub_time
unschedulable_failure [] now = none
unschedulable_failure (c ∷ conditions) now =
    if is_unschedulable c
    then (if leb_ℤ unschedulable_grace_period (sub_time now c.last_transition_time)
        then some (record { reason = Reason.unschedulable; message = c.message })
        else none)
    else unschedulable_failure conditions now

-- The reasons of a waiting container that never go away.
unfoldable pub is_pull_failure : WaitingState → Bool
is_pull_failure w =
    text_eq w.reason (codes "ImagePullBackOff") || text_eq w.reason (codes "InvalidImageName")

unfoldable pub image_pull_failure : List ContainerStatus → Option PodFailure
unfolding is_pull_failure
image_pull_failure [] = none
image_pull_failure (cs ∷ statuses) = elim cs.waiting [
  | none ↦ image_pull_failure statuses
  | some w ↦
      if is_pull_failure w
      then some (record {
        reason = Reason.image_pull_failure;
        message = cs.name ++ (codes ": " ++ (w.reason ++ (codes ": " ++ w.message)));
      })
      else image_pull_failure statuses
]

unfoldable pub first_terminated_container_message : List ContainerStatus → Text
unfolding exited signed_decimal
first_terminated_container_message [] = []
first_terminated_container_message (cs ∷ statuses) = elim (exited cs) [
  | none ↦ first_terminated_container_message statuses
  | some t ↦
      codes "container "
      ++ (cs.name
          ++ (codes " exited with code "
              ++ (signed_decimal t.exit_code ++ (codes " (" ++ (t.reason ++ codes ")")))))
]

unfoldable pub generic_message : Pod → Text
unfolding first_terminated_container_message
generic_message pod =
    let msg =
      if text_eq pod.message []
      then first_terminated_container_message pod.container_statuses
      else pod.message in
    if text_eq pod.reason [] then msg else pod.reason ++ (codes ": " ++ msg)

unfoldable pub generic_failure : Pod → Option PodFailure
unfolding pod_phase_eq generic_message
generic_failure pod =
    if not (pod_phase_eq pod.phase PodPhase.failed)
    then none
    else some (record { reason = Reason.pod_failed; message = generic_message pod })

unfoldable pub pod_failure : Pod → ℕ → Option PodFailure
unfolding unschedulable_failure image_pull_failure restore_failure generic_failure
pod_failure pod now =
    if is_some pod.deletion_timestamp
    then none
    else elim (unschedulable_failure pod.conditions now) [
      | some f ↦ some f
      | none ↦ elim (image_pull_failure (pod.init_container_statuses ++ pod.container_statuses)) [
        | some f ↦ some f
        | none ↦ elim (restore_failure pod.init_container_statuses) [
          | some f ↦ some f
          | none ↦ generic_failure pod
        ]
      ]
    ]
