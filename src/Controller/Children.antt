-- ===== src/Controller/Children.antt =====
-- operator/internal/controller/observe.go: the look-up of the child objects, observeResources.
use ai_sandbox.Base.{
  Bool, false, not, ◌&&◌, ◌||◌, List, [], ◌∷◌, ◌++◌, Option, none, some, Text, codes, text_eq,
  if◌then◌else◌,
}
use ai_sandbox.Controller.Pod.{OwnerReference}

-- An answer of the API server to a Get.
pub data Got {ℓ} (A : Type ℓ) : Type ℓ where
  not_found : Got A
  get_failed : Text → Got A
  got : A → Got A

-- A child object: its owners, and for a claim whether its phase is Lost.
pub record Child : Type 0 where
  pub owner_references : List OwnerReference
  pub is_lost_claim : Bool

unfoldable pub owned_by : Text → List OwnerReference → Bool
owned_by uid [] = false
owned_by uid (ref ∷ refs) =
    let rest = owned_by uid refs in
    elim ref.controller [ none ↦ rest | some c ↦ (c && text_eq ref.uid uid) || rest ]

-- How observeResources ends: an error, a problem, or the claim if one was checked.
pub data Resources : Type 0 where
  failed problem : Text → Resources
  ready : Option Child → Resources

-- A child that the environment expects: its kind, its name and what Get answers.
pub record ResourceCheck : Type 0 where
  pub kind : Text
  pub name : Text
  pub answer : Got Child

-- The type assertion of observeResources holds for the claims.
unfoldable pub claim_of : ResourceCheck → Child → Option Child → Option Child
claim_of c child pvc = if text_eq c.kind (codes "PersistentVolumeClaim") then some child else pvc

unfoldable pub observe_resources : Text → List ResourceCheck → Option Child → Resources
unfolding owned_by claim_of
observe_resources uid [] pvc = Resources.ready pvc
observe_resources uid (c ∷ checks) pvc = elim c.answer [
  | Got.not_found ↦ Resources.problem (codes "waiting for " ++ (c.kind ++ (codes " " ++ c.name)))
  | Got.get_failed e ↦ Resources.failed e
  | Got.got child ↦
      let rest = observe_resources uid checks (claim_of c child pvc) in
      if not (owned_by uid child.owner_references)
      then Resources.problem
          (c.kind ++ (codes " " ++ (c.name ++ codes " is owned by another object")))
      else rest
]

pub record ChildNames : Type 0 where
  pub service_account : Text
  pub role : Text
  pub role_binding : Text
  pub config_map : Text
  pub secret : Text
  pub pvc : Text
  pub snapshot_secret : Text
  pub network_policy : Text
