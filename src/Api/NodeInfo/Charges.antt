-- ===== src/Api/NodeInfo/Charges.antt =====
-- What a placement takes off the accounts of a node.
use kube_arbitrator.Common.{◌≡◌, ◌≢◌, refl, none, some, string_key, ok, arith}
use kube_arbitrator.Common.Map.{lookup}
use kube_arbitrator.Api.Resource.{Resource, empty_resource, add, sub}
use kube_arbitrator.Api.Objects.{pod_key}
use kube_arbitrator.Api.Status.{releasing}
use kube_arbitrator.Api.TaskInfo.{TaskInfo}
use kube_arbitrator.Api.NodeInfo.{NodeInfo, note_releasing, add_task, pipeline_task}

-- A node is charged for a task whose pod it does not hold yet.
unfoldable pub node_charge : NodeInfo → TaskInfo → Resource
node_charge ni task = elim (lookup (pod_key task.pod) ni.tasks) [
  | some held ↦ empty_resource
  | none ↦ elim ni.node [ none ↦ empty_resource | some n ↦ task.resreq ]
]

-- The accounts of `ni'` are those of `ni` after `c` was allocated and `w` was promised of what is
-- being released.
pub record IsCharged (ni ni' : NodeInfo) (c w : Resource) : Type 0 where
  pub same_node : ni'.node ≡ ni.node
  pub idle_sum : add ni'.idle c ≡ ni.idle
  pub releasing_sum : add ni'.releasing w ≡ ni.releasing
  pub used_sum : ni'.used ≡ add ni.used (add c w)

pub IsCharged-none : (ni : NodeInfo) → IsCharged ni ni empty_resource empty_resource
unfolding add
IsCharged-none ni = record {
  same_node = refl;
  idle_sum = ground arith;
  releasing_sum = ground arith;
  used_sum = ground arith;
}

pub IsCharged-trans :
    {ni ni' ni'' : NodeInfo} {c c' w w' : Resource}
    → IsCharged ni ni' c w
    → IsCharged ni' ni'' c' w'
    → IsCharged ni ni'' (add c c') (add w w')
unfolding add
IsCharged-trans h k = record {
  same_node = ground (arith, h.same_node, k.same_node);
  idle_sum = ground (arith, h.idle_sum, k.idle_sum);
  releasing_sum = ground (arith, h.releasing_sum, k.releasing_sum);
  used_sum = ground (arith, h.used_sum, k.used_sum);
}

pub add_task-IsCharged :
    (ni ni' : NodeInfo) (task : TaskInfo)
    → task.status ≢ releasing
    → add_task ni task ≡ ok ni'
    → IsCharged ni ni' (node_charge ni task) empty_resource
unfolding add_task note_releasing node_charge sub add
add_task-IsCharged ni ni' task staying h = record {
  same_node = ground (arith, h);
  idle_sum = ground (arith, h);
  releasing_sum = ground (arith, h);
  used_sum = ground (arith, h);
}

pub pipeline_task-IsCharged :
    (ni ni' : NodeInfo) (task : TaskInfo)
    → pipeline_task ni task ≡ ok ni'
    → IsCharged ni ni' empty_resource (node_charge ni task)
unfolding pipeline_task node_charge sub add
pipeline_task-IsCharged ni ni' task h = record {
  same_node = ground (arith, h);
  idle_sum = ground (arith, h);
  releasing_sum = ground (arith, h);
  used_sum = ground (arith, h);
}
