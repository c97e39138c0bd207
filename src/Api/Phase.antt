-- ===== src/Api/Phase.antt =====
-- The string enumerations of operator/api/v1alpha1/sandboxenvironment_types.go and of the
-- Kubernetes pod API, each with a constructor for the texts that no constant names.
use ai_sandbox.Base.{
  Bool, true, false, Text, text_eq, eq_of_text_eq, text_eq_refl, ◌≡◌, refl, ap, arith,
}

-- `unset` is the empty string, `other` any string that no constant names.
pub data Phase : Type 0 where
  unset pending ready running freezing waiting restoring done failed : Phase
  other : Text → Phase

-- Go's `==` on phases.
unfoldable pub phase_eq : Phase → Phase → Bool
phase_eq Phase.unset Phase.unset = true
phase_eq Phase.pending Phase.pending = true
phase_eq Phase.ready Phase.ready = true
phase_eq Phase.running Phase.running = true
phase_eq Phase.freezing Phase.freezing = true
phase_eq Phase.waiting Phase.waiting = true
phase_eq Phase.restoring Phase.restoring = true
phase_eq Phase.done Phase.done = true
phase_eq Phase.failed Phase.failed = true
phase_eq (Phase.other s) (Phase.other t) = text_eq s t
phase_eq _ _ = false

pub eq_of_phase_eq : (p q : Phase) → phase_eq p q ≡ true → p ≡ q
unfolding phase_eq
eq_of_phase_eq (Phase.other s) (Phase.other t) h = ap Phase.other (eq_of_text_eq s t h)
eq_of_phase_eq _ _ h = ground arith

pub phase_eq_refl : (p : Phase) → phase_eq p p ≡ true
unfolding phase_eq
phase_eq_refl (Phase.other s) = text_eq_refl s
phase_eq_refl _ = refl

-- corev1.PodPhase; `unset` where there is no pod.
pub data PodPhase : Type 0 where
  unset pending running succeeded failed unknown : PodPhase

unfoldable pub pod_phase_eq : PodPhase → PodPhase → Bool
pod_phase_eq PodPhase.unset PodPhase.unset = true
pod_phase_eq PodPhase.pending PodPhase.pending = true
pod_phase_eq PodPhase.running PodPhase.running = true
pod_phase_eq PodPhase.succeeded PodPhase.succeeded = true
pod_phase_eq PodPhase.failed PodPhase.failed = true
pod_phase_eq PodPhase.unknown PodPhase.unknown = true
pod_phase_eq _ _ = false
