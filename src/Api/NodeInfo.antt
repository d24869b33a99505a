-- ===== src/Api/NodeInfo.antt =====
-- `NodeInfo` of pkg/scheduler/api/node_info.go: the tasks on a node and what they leave of it.
-- A field `node` of `none` is the nil pointer: a node that is known by its pods only.
pub mod Accounts
pub mod Changes
pub mod Charges
pub mod Clone
pub mod SetNode
pub mod Settled
use kube_arbitrator.Common.{
  Bool, true, false, [], ◌∷◌, Option, none, some, String, string_key, ite, Outcome, ok, ◌>>=◌,
}
use kube_arbitrator.Common.Map.{lookup, insert, remove}
use kube_arbitrator.Api.Resource.{
  Resource, empty_resource, new_resource, add, sub, clone as clone_resource,
}
use kube_arbitrator.Api.Objects.{Node, pod_key}
use kube_arbitrator.Api.Status.{TaskStatus_discrete, releasing as releasing_status}
use kube_arbitrator.Api.TaskInfo.{TaskInfo, TasksMap, clone as clone_task}

pub record NodeInfo : Type 0 where
  pub name : String
  pub node : Option Node
  pub releasing : Resource
  pub idle : Resource
  pub used : Resource
  pub allocatable : Resource
  pub capability : Resource
  pub tasks : TasksMap

-- `NewNodeInfo`.
unfoldable pub new_node_info : Option Node → NodeInfo
new_node_info none = record {
  name = "";
  node = none;
  releasing = empty_resource;
  idle = empty_resource;
  used = empty_resource;
  allocatable = empty_resource;
  capability = empty_resource;
  tasks = [];
}
new_node_info (some node) = record {
  name = node.name;
  node = some node;
  releasing = empty_resource;
  idle = new_resource node.allocatable;
  used = empty_resource;
  allocatable = new_resource node.allocatable;
  capability = new_resource node.capacity;
  tasks = [];
}

-- The loop of `Clone`: the tasks are keyed anew by their pods.
unfoldable pub clone_tasks : TasksMap → TasksMap → TasksMap
clone_tasks pods [] = pods
clone_tasks pods ((k, p) ∷ ts) = clone_tasks (insert (pod_key p.pod) (clone_task p) pods) ts

-- `Clone`.
unfoldable pub clone : NodeInfo → NodeInfo
unfolding clone_tasks
clone ni = record {
  name = ni.name;
  node = ni.node;
  idle = clone_resource ni.idle;
  used = clone_resource ni.used;
  releasing = clone_resource ni.releasing;
  allocatable = clone_resource ni.allocatable;
  capability = clone_resource ni.capability;
  tasks = clone_tasks [] ni.tasks;
}

-- `if task.Status == Releasing { ni.Releasing.Add(task.Resreq) }`.
unfoldable pub note_releasing : Resource → TaskInfo → Resource
note_releasing r task = ite (TaskStatus_discrete task.status releasing_status) (add r task.resreq) r

-- The loop of `SetNode` over the tasks that were there before the node.
unfoldable pub charge_tasks : NodeInfo → TasksMap → Outcome NodeInfo
unfolding note_releasing
charge_tasks ni [] = ok ni
charge_tasks ni ((k, task) ∷ ts) = do
  idle ← sub ni.idle task.resreq
  charge_tasks
      (record ni {
        releasing = note_releasing ni.releasing task;
        idle = idle;
        used = add ni.used task.resreq;
      })
      ts

-- `SetNode`.
unfoldable pub set_node : NodeInfo → Node → Outcome NodeInfo
unfolding charge_tasks
set_node ni node = do
  charged ← elim ni.node [
    | none ↦ charge_tasks (record ni { idle = new_resource node.allocatable }) ni.tasks
    | some n ↦ ok ni
  ]
  ok (record charged {
    name = node.name;
    node = some node;
    allocatable = new_resource node.allocatable;
    capability = new_resource node.capacity;
  })

-- `PipelineTask`.
unfoldable pub pipeline_task : NodeInfo → TaskInfo → Outcome NodeInfo
pipeline_task ni task = elim (lookup (pod_key task.pod) ni.tasks) [
  | some t ↦ ok ni
  | none ↦ do
    charged ← elim ni.node [
      | none ↦ ok ni
      | some n ↦ do
        releasing ← sub ni.releasing task.resreq
        ok (record ni { releasing = releasing; used = add ni.used task.resreq })
    ]
    ok (record charged { tasks = insert (pod_key task.pod) task charged.tasks })
]

-- `AddTask`.
unfoldable pub add_task : NodeInfo → TaskInfo → Outcome NodeInfo
unfolding note_releasing
add_task ni task = elim (lookup (pod_key task.pod) ni.tasks) [
  | some t ↦ ok ni
  | none ↦ do
    charged ← elim ni.node [
      | none ↦ ok ni
      | some n ↦ do
        idle ← sub ni.idle task.resreq
        ok (record ni {
          releasing = note_releasing ni.releasing task;
          idle = idle;
          used = add ni.used task.resreq;
        })
    ]
    ok (record charged { tasks = insert (pod_key task.pod) task charged.tasks })
]

-- `RemoveTask`. The accounts follow the stored task, not the argument.
unfoldable pub remove_task : NodeInfo → TaskInfo → Outcome NodeInfo
remove_task ni ti = elim (lookup (pod_key ti.pod) ni.tasks) [
  | none ↦ ok ni
  | some task ↦ do
    charged ← elim ni.node [
      | none ↦ ok ni
      | some n ↦ do
        releasing ←
            ite (TaskStatus_discrete task.status releasing_status) (sub ni.releasing task.resreq)
              (ok ni.releasing)
        used ← sub ni.used task.resreq
        ok (record ni { releasing = releasing; idle = add ni.idle task.resreq; used = used })
    ]
    ok (record charged { tasks = remove (pod_key ti.pod) charged.tasks })
]
