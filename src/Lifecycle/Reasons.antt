-- ===== src/Lifecycle/Reasons.antt =====
-- operator/internal/lifecycle/conditions.go: the condition types in their order, the reasons, and
-- the allowlists that external reasons pass through.
use ai_sandbox.Base.{
  ℕ, ◌≡◌, refl, Bool, true, false, ◌||◌, List, [], ◌∷◌, text_eq, ◌==◌, if◌then◌else◌,
}
use ai_sandbox.Api.Condition.{ConditionType, Reason}

abbrev pub condition_types : List ConditionType
condition_types =
    ConditionType.scheduled ∷ ConditionType.pod_ready ∷ ConditionType.frozen
    ∷ ConditionType.wait_satisfied ∷ ConditionType.archived ∷ ConditionType.ready ∷ []

abbrev pub pod_failure_reasons : List Reason
pod_failure_reasons =
    Reason.pod_failed ∷ Reason.image_pull_failure ∷ Reason.unschedulable
    ∷ Reason.restore_verification_failed ∷ []

abbrev pub step_failure_reasons : List Reason
step_failure_reasons = Reason.snapshot_failed ∷ Reason.probe_failed ∷ []

abbrev pub all_reasons : List Reason
all_reasons =
    Reason.slot_granted ∷ Reason.queued ∷ Reason.resources_not_ready ∷ Reason.suspended
    ∷ Reason.waiting ∷ Reason.terminal ∷ Reason.pod_running ∷ Reason.pod_pending
    ∷ Reason.pod_not_created ∷ Reason.pod_deleted ∷ Reason.pod_not_observed ∷ Reason.pod_succeeded
    ∷ Reason.pod_failed ∷ Reason.image_pull_failure ∷ Reason.unschedulable
    ∷ Reason.restore_verification_failed ∷ Reason.wait_declared ∷ Reason.snapshot_in_progress
    ∷ Reason.pod_terminating ∷ Reason.snapshot_failed ∷ Reason.not_frozen ∷ Reason.probe_satisfied
    ∷ Reason.probe_pending ∷ Reason.probe_not_evaluated ∷ Reason.no_wait_declared
    ∷ Reason.probe_failed ∷ Reason.archive_written ∷ Reason.archive_pending ∷ Reason.not_terminal
    ∷ Reason.pending ∷ Reason.restoring ∷ Reason.running ∷ Reason.freezing ∷ Reason.succeeded
    ∷ Reason.class_not_resolved ∷ Reason.agent_reported_success ∷ Reason.agent_reported_failure
    ∷ Reason.running_timeout_exceeded ∷ Reason.waiting_timeout_exceeded
    ∷ Reason.total_timeout_exceeded ∷ []

-- A number for each constant, by which `reason_eq` tells them apart.
abbrev tag : Reason → ℕ
tag Reason.none_ = 1
tag Reason.slot_granted = 2
tag Reason.queued = 3
tag Reason.resources_not_ready = 4
tag Reason.suspended = 5
tag Reason.waiting = 6
tag Reason.terminal = 7
tag Reason.pod_running = 8
tag Reason.pod_pending = 9
tag Reason.pod_not_created = 10
tag Reason.pod_deleted = 11
tag Reason.pod_not_observed = 12
tag Reason.pod_succeeded = 13
tag Reason.pod_failed = 14
tag Reason.image_pull_failure = 15
tag Reason.unschedulable = 16
tag Reason.restore_verification_failed = 17
tag Reason.wait_declared = 18
tag Reason.snapshot_in_progress = 19
tag Reason.pod_terminating = 20
tag Reason.snapshot_failed = 21
tag Reason.not_frozen = 22
tag Reason.probe_satisfied = 23
tag Reason.probe_pending = 24
tag Reason.probe_not_evaluated = 25
tag Reason.no_wait_declared = 26
tag Reason.probe_failed = 27
tag Reason.archive_written = 28
tag Reason.archive_pending = 29
tag Reason.not_terminal = 30
tag Reason.pending = 31
tag Reason.restoring = 32
tag Reason.running = 33
tag Reason.freezing = 34
tag Reason.succeeded = 35
tag Reason.class_not_resolved = 36
tag Reason.agent_reported_success = 37
tag Reason.agent_reported_failure = 38
tag Reason.running_timeout_exceeded = 39
tag Reason.waiting_timeout_exceeded = 40
tag Reason.total_timeout_exceeded = 41
tag (Reason.other s) = 0

-- Go's `==` on reasons.
unfoldable pub reason_eq : Reason → Reason → Bool
reason_eq (Reason.other s) (Reason.other t) = text_eq s t
reason_eq r a = tag r == tag a

-- The loop over the allowlist, with its early return.
unfoldable pub sanitize_reason : Reason → List Reason → Reason → Reason
unfolding reason_eq
sanitize_reason r [] fallback = fallback
sanitize_reason r (a ∷ allow) fallback =
    if reason_eq r a then r else sanitize_reason r allow fallback

-- Whether a reason is listed.
unfoldable pub lists : List Reason → Reason → Bool
unfolding reason_eq
lists [] r = false
lists (a ∷ rs) r = reason_eq r a || lists rs r

-- A constant of the list, read off the constructor.
unfoldable pub documented : Reason → Bool
documented Reason.none_ = false
documented (Reason.other s) = false
documented _ = true

pub lists-documented : (r : Reason) → lists all_reasons r ≡ documented r
unfolding lists documented
lists-documented (Reason.other s) = refl
lists-documented _ = refl

pub documented-sanitize_pod :
    (r : Reason) → documented (sanitize_reason r pod_failure_reasons Reason.pod_failed) ≡ true
unfolding documented sanitize_reason
documented-sanitize_pod (Reason.other s) = refl
documented-sanitize_pod _ = refl

pub documented-sanitize_step :
    (r : Reason) → documented (sanitize_reason r step_failure_reasons Reason.probe_failed) ≡ true
unfolding documented sanitize_reason
documented-sanitize_step (Reason.other s) = refl
documented-sanitize_step _ = refl
