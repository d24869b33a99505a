-- ===== src/Controller.antt =====
-- The queue job controller, pkg/controller/queuejob, with the type QueueJob of
-- pkg/apis/v1alpha1/queuejob.go: what a queue job is, and what the controller makes for one. An int32
-- is its 32 bits, as a number below 2 ^ 32. A pod's spec is a parameter, which is only copied.
pub mod Counted
pub mod Race
pub mod Manage
pub mod Worker
use kube_arbitrator.Common.{
  ℕ, suc, ◌+◌, ◌-◌, Bool, true, false, not, ◌&&◌, List, [], ◌∷◌, Option, none, some, String,
  text_same, ltb, if◌then◌else◌,
}
use kube_arbitrator.Common.Int.{ℤ, pos, negsuc}
use kube_arbitrator.Common.Map.{Map}
use kube_arbitrator.Api.Objects.{
  Pod, PodPhase, pod_pending, pod_running, pod_succeeded, pod_failed, pod_unknown, other_phase,
  SchedulingSpec,
}
use Prim.Native.Nat.{◌%◌}

-- `SchedulingSpecTemplate`.
pub record SchedulingSpecTemplate : Type 0 where
  pub node_selector : Map String String
  pub min_available : ℤ

-- `QueueJobStatus`.
pub record QueueJobStatus : Type 0 where
  pub pending : ℕ
  pub running : ℕ
  pub succeeded : ℕ
  pub failed : ℕ
  pub min_available : ℕ

-- `QueueJob` with its spec. `selector` is `none` for the nil selector, and holds the labels to match; its
-- expressions are left out, and the store resolves it.
pub record QueueJob (Spec : Type 0) : Type 0 where
  pub uid : String
  pub name : String
  pub namespace : String
  pub replicas : ℕ
  pub sched_spec : SchedulingSpecTemplate
  pub selector : Option (Map String String)
  pub template_labels : Map String String
  pub template_spec : Spec
  pub status : QueueJobStatus

-- The pod that is sent to be created.
pub record NewPod (Spec : Type 0) : Type 0 where
  pub name : String
  pub namespace : String
  pub owner : Option (Option String)
  pub labels : Map String String
  pub spec : Spec

-- `phase == pods[i].Status.Phase`.
unfoldable pub same_phase : PodPhase → PodPhase → Bool
same_phase pod_pending pod_pending = true
same_phase pod_running pod_running = true
same_phase pod_succeeded pod_succeeded = true
same_phase pod_failed pod_failed = true
same_phase pod_unknown pod_unknown = true
same_phase (other_phase a) (other_phase b) = text_same a b
same_phase p q = false

-- `filterPods`.
unfoldable pub filter_pods : List Pod → PodPhase → ℕ
unfolding same_phase
filter_pods [] phase = 0
filter_pods (p ∷ ps) phase =
    let rest = filter_pods ps phase in if same_phase phase p.phase then suc rest else rest

-- The conversion of an `int` that is not negative to int32, and of any `int`.
abbrev pub int32 : ℕ → ℕ
int32 n = n % 4294967296

abbrev pub int32_of_ℤ : ℤ → ℕ
int32_of_ℤ (pos n) = int32 n
int32_of_ℤ (negsuc n) = 4294967295 - int32 n

-- `a - b` and `0 < a` on int32.
abbrev pub sub_int32 : ℕ → ℕ → ℕ
sub_int32 a b = (a + (4294967296 - b)) % 4294967296

abbrev pub positive_int32 : ℕ → Bool
positive_int32 a = ltb 0 a && ltb a 2147483648

-- `getStatus`.
unfoldable pub get_status : List Pod → ℕ × ℕ
unfolding filter_pods
get_status pods = (int32 (filter_pods pods pod_succeeded), int32 (filter_pods pods pod_failed))

-- `isPodActive` and `filterActivePods`.
unfoldable pub is_pod_active : Pod → Bool
unfolding same_phase
is_pod_active p =
    not (same_phase pod_succeeded p.phase) && (not (same_phase pod_failed p.phase) && not p.deleted)

unfoldable pub filter_active_pods : List Pod → List Pod
unfolding is_pod_active
filter_active_pods [] = []
filter_active_pods (p ∷ ps) =
    let rest = filter_active_pods ps in if is_pod_active p then p ∷ rest else rest

module _ {Spec : Type 0} where
  -- `createQueueJobSchedulingSpec`.
  unfoldable pub create_queue_job_scheduling_spec : QueueJob Spec → SchedulingSpec
  create_queue_job_scheduling_spec qj = record {
    name = qj.name;
    namespace = qj.namespace;
    owner = some (some qj.uid);
    min_available = qj.sched_spec.min_available;
    node_selector = qj.sched_spec.node_selector;
  }

  -- `createQueueJobPod`. `name_of` makes the pod's name of the job's name and the index, with a
  -- fresh UUID (`fmt.Sprintf`, `uuid.NewUUID`).
  unfoldable pub create_queue_job_pod : (String → ℕ → String) → QueueJob Spec → ℕ → NewPod Spec
  create_queue_job_pod name_of qj ix = record {
    name = name_of qj.name ix;
    namespace = qj.namespace;
    owner = some (some qj.uid);
    labels = qj.template_labels;
    spec = qj.template_spec;
  }
