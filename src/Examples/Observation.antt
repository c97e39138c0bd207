-- ===== src/Examples/Observation.antt =====
-- The facts of a Running environment whose pod cannot be scheduled.
use ai_sandbox.Base.{◌*◌, ◌≡◌, true, false, [], ◌∷◌, none, some, codes}
use ai_sandbox.Api.Phase.{PodPhase}
use ai_sandbox.Lifecycle.Facts.{second}
use ai_sandbox.Controller.Pod.{Pod}
use ai_sandbox.Controller.Children.{Got, ChildNames}
use ai_sandbox.Controller.Observe.{Answers, ObservedClass, observe_cluster}
use ai_sandbox.Controller.Observe.Bounds.{sound, sound-observe_cluster}
use ai_sandbox.Examples.Cluster.{running_env, one_hour_on}

abbrev stuck_pod : Pod
stuck_pod = record {
  owner_references = record { uid = codes "uid-1"; controller = some true } ∷ [];
  deletion_timestamp = none;
  phase = PodPhase.pending;
  conditions =
      record {
        type = codes "PodScheduled";
        status = codes "False";
        reason = codes "Unschedulable";
        message = codes "no node has room";
        last_transition_time = 1100 * second;
      }
      ∷ [];
  init_container_statuses = [];
  container_statuses = [];
  message = [];
  reason = [];
}

abbrev names : ChildNames
names = record {
  service_account = codes "env-sa";
  role = codes "env-role";
  role_binding = codes "env-role";
  config_map = codes "env-config";
  secret = codes "env-secret";
  pvc = codes "env-workspace";
  snapshot_secret = codes "env-snapshot";
  network_policy = codes "env-network";
}

abbrev class : ObservedClass
class = record {
  is_s3 = true;
  is_restricted = false;
  credentials_problem = none;
  network_problem = none;
}

abbrev answers : Answers
answers = record {
  environments = none;
  pod = Got.got stuck_pod;
  child = λ kind name. Got.not_found;
  probes = none;
}

sound-observe_cluster_example :
    sound running_env (observe_cluster running_env (some class) names answers one_hour_on).1 ≡ true
sound-observe_cluster_example =
    sound-observe_cluster running_env (some class) names answers one_hour_on
