-- ===== src/Api/Objects.antt =====
-- The Kubernetes objects, as far as the scheduler reads them. What the code asks of a library
-- about an object (`meta.Accessor`, `metav1.GetControllerOf`, `MetaNamespaceKeyFunc`) is a field
-- that holds the answer, since those libraries are not this repository's.
use Prim.Native.String.{◌++◌}
use kube_arbitrator.Common.{Bool, List, Option, none, some, String}
use kube_arbitrator.Common.Int.{ℤ}
use kube_arbitrator.Common.Map.{Map}
use kube_arbitrator.Api.Resource.{ResourceList}

-- `v1.PodPhase`: its five constants, and any other text.
pub data PodPhase : Type 0 where
  pod_pending pod_running pod_succeeded pod_failed pod_unknown : PodPhase
  other_phase : String → PodPhase

-- `owner` is `none` where `meta.Accessor` fails, `some none` where there is no controller
-- reference, and else holds the controller's UID. `namespace_key` is what `MetaNamespaceKeyFunc`
-- returns, `none` for an error. `deleted` says that `DeletionTimestamp` is set.
pub record Pod : Type 0 where
  pub uid : String
  pub name : String
  pub namespace : String
  pub namespace_key : Option String
  pub owner : Option (Option String)
  pub scheduler_name : String
  pub node_name : String
  pub phase : PodPhase
  pub deleted : Bool
  pub priority : Option ℤ
  pub requests : List ResourceList

-- `v1.Node`.
pub record Node : Type 0 where
  pub name : String
  pub labels : Map String String
  pub allocatable : ResourceList
  pub capacity : ResourceList

-- `arbv1.SchedulingSpec`.
pub record SchedulingSpec : Type 0 where
  pub name : String
  pub namespace : String
  pub owner : Option (Option String)
  pub min_available : ℤ
  pub node_selector : Map String String

-- `policyv1.PodDisruptionBudget`; `min_available` is `Spec.MinAvailable.IntVal`, and
-- `none` where the pointer `Spec.MinAvailable` is nil.
pub record PodDisruptionBudget : Type 0 where
  pub name : String
  pub owner : Option (Option String)
  pub min_available : Option ℤ

-- `utils.GetController`.
unfoldable pub get_controller : Option (Option String) → String
get_controller none = ""
get_controller (some (some uid)) = uid
get_controller (some none) = ""

-- `PodKey`: the namespace key, or the two names joined where there is none.
unfoldable pub pod_key : Pod → String
pod_key pod = elim pod.namespace_key [ some key ↦ key | none ↦ pod.namespace ++ "/" ++ pod.name ]
