-- ===== src/Api/NodeInfo/Accounts.antt =====
-- What the accounts of a node stand for.
use kube_arbitrator.Common.{
  ◌≡◌, ◌≢◌, ◌⊎◌, ite, Bool, true, false, none, some, String, string_key, arith,
}
use kube_arbitrator.Common.Lists.{All}
use kube_arbitrator.Common.Map.{lookup}
use kube_arbitrator.Api.Resource.{Resource, empty_resource, add}
use kube_arbitrator.Api.Resource.Order.{Fits}
use kube_arbitrator.Api.Objects.{Node, pod_key}
use kube_arbitrator.Api.Status.{TaskStatus_discrete, releasing, pipelined}
use kube_arbitrator.Api.TaskInfo.{TaskInfo, TasksMap}
use kube_arbitrator.Api.Requested.{Distinct, requested}
use kube_arbitrator.Api.NodeInfo.{NodeInfo}

abbrev pub any_task : TaskInfo → Bool
any_task t = true

-- A task with a place of its own; a pipelined task waits for one that is being released.
abbrev pub is_placed : TaskInfo → Bool
is_placed t = ite (TaskStatus_discrete t.status pipelined) false true

abbrev pub is_pipelined : TaskInfo → Bool
is_pipelined t = ite (TaskStatus_discrete t.status pipelined) true false

abbrev pub is_releasing : TaskInfo → Bool
is_releasing t = ite (TaskStatus_discrete t.status releasing) true false

-- No task of the map waits for resources that are being released.
abbrev pub NonePipelined : TasksMap → Type 0
NonePipelined = All (λ (e : String × TaskInfo). e.1.status ≢ pipelined)

-- Every task stands under the key of its pod, once.
pub record IsKeyed (tasks : TasksMap) : Type 0 where
  pub distinct : Distinct tasks
  pub keyed : (k : String) (t : TaskInfo) → lookup k tasks ≡ some t → pod_key t.pod ≡ k

-- The accounts of a node of size `cap`: every task is used, the placed ones come off the idle
-- resource, and the pipelined ones come off what is being released.
pub record IsBalanced (cap : Resource) (ni : NodeInfo) : Type 0 where
  pub known : (n : Node) × (ni.node ≡ some n)
  pub tasks_ok : IsKeyed ni.tasks
  pub used_sum : ni.used ≡ requested any_task ni.tasks
  pub idle_sum : add ni.idle (requested is_placed ni.tasks) ≡ cap
  pub releasing_sum :
      add ni.releasing (requested is_pipelined ni.tasks) ≡ requested is_releasing ni.tasks

-- A node that is known by its pods only has no accounts yet.
pub record IsBlank (ni : NodeInfo) : Type 0 where
  pub unknown : ni.node ≡ none
  pub tasks_ok : IsKeyed ni.tasks
  pub unused : ni.used ≡ empty_resource
  pub none_idle : ni.idle ≡ empty_resource
  pub none_releasing : ni.releasing ≡ empty_resource

-- The placed tasks of a balanced node fit into it together, and into its size each.
pub IsBalanced-Fits :
    {cap : Resource} {ni : NodeInfo} → IsBalanced cap ni → Fits (requested is_placed ni.tasks) cap
unfolding add
IsBalanced-Fits b = ground arith

-- The state of a node in the cache: no task is pipelined, and the accounts are those of some size,
-- or none yet.
pub record IsSettled (ni : NodeInfo) : Type 0 where
  pub none_pipelined : NonePipelined ni.tasks
  pub accounts : IsBlank ni ⊎ ((cap : Resource) × IsBalanced cap ni)
