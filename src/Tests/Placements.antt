-- ===== src/Tests/Placements.antt =====
-- The accounts of a node before and after a run of the allocate action.
use kube_arbitrator.Common.{ℕ, ◌≡◌, refl, ◌∷◌, [], some, string_key, String_discrete, arith}
use kube_arbitrator.Common.Lists.{get_elem?}
use kube_arbitrator.Common.Map.{lookup, insert, remove}
use kube_arbitrator.Api.Objects.{pod_key, get_controller}
use kube_arbitrator.Api.Resource.{add, sub, less_equal, new_resource}
use kube_arbitrator.Api.Resource.Order.{Fits}
use kube_arbitrator.Api.Requested.{requested}
use kube_arbitrator.Api.Status.{get_task_status, allocated_status, TaskStatus_discrete}
use kube_arbitrator.Api.TaskInfo.{TaskInfo, new_task_info}
use kube_arbitrator.Api.JobInfo.{add_task_info, delete_task_info, set_scheduling_spec, clone}
use kube_arbitrator.Api.NodeInfo.{
  NodeInfo, add_task, remove_task, set_node, new_node_info, note_releasing, clone as clone_node,
}
use kube_arbitrator.Api.NodeInfo.Accounts.{IsBalanced, is_placed, is_pipelined, is_releasing}
use kube_arbitrator.Api.NodeInfo.Changes.{IsKeyed-insert}
use kube_arbitrator.Api.NodeInfo.Charges.{IsCharged}
use kube_arbitrator.Cache.Pods.{handle_add_pod}
use kube_arbitrator.Cache.Nodes.{handle_add_node}
use kube_arbitrator.Cache.Specs.{handle_add_spec}
use kube_arbitrator.Cache.Calls.{snapshot}
use kube_arbitrator.Cache.Events.{run}
use kube_arbitrator.Framework.Session
use kube_arbitrator.Framework.Session.{gang_ready}
use kube_arbitrator.Actions.Allocate.Steps.{execute-Places}
use kube_arbitrator.Actions.Allocate.Gangs.{AllWhole, execute-AllWhole}
use kube_arbitrator.Actions.Allocate.Accounts.{allocated_on, pipelined_on, execute-IsCharged}
use kube_arbitrator.Queue.Container.{go_heap}
use kube_arbitrator.Tests.Actions.{allocated, allocates}
use kube_arbitrator.Tests.Calls.{opened, leaving}
use kube_arbitrator.Tests.Data.{resource, node_of_size}
use kube_arbitrator.Tests.Sessions.{millionths}

-- A node of size five, with a pod of size two that is being deleted.
abbrev held : NodeInfo
held = record (new_node_info (some (node_of_size 5))) {
  idle = resource 3;
  used = resource 2;
  releasing = resource 2;
  tasks = ("ns/p1", new_task_info leaving) ∷ [];
}

held-IsBalanced : IsBalanced (resource 5) held
unfolding new_node_info requested add new_task_info get_task_status new_resource lookup insert
    pod_key get_controller
held-IsBalanced = record {
  known = (node_of_size 5, refl);
  tasks_ok =
      IsKeyed-insert (new_task_info leaving) [] (record { distinct = tt; keyed = λ k t e. cc });
  used_sum = ground arith;
  idle_sum = ground arith;
  releasing_sum = ground arith;
}

held_lem : get_elem? opened.nodes 0 ≡ some held
unfolding run handle_add_spec handle_add_pod new_task_info delete_task_info lookup insert
    String_discrete set_scheduling_spec remove_task get_task_status add_task handle_add_node
    set_node sub add new_resource add_task_info new_node_info note_releasing get_controller pod_key
    less_equal allocated_status remove TaskStatus_discrete Session.open_with clone clone_node
    snapshot
held_lem = refl

execute-IsCharged_example :
    let ps =
      execute-Places millionths (go_heap ℕ) (go_heap TaskInfo) 5 opened allocated allocates in
    ((ni' : NodeInfo) × (get_elem? allocated.nodes 0 ≡ some ni')
      × IsCharged held ni' (allocated_on millionths 0 ps) (pipelined_on millionths 0 ps))
    × Fits (add (requested is_placed held.tasks) (allocated_on millionths 0 ps)) (resource 5)
    × Fits
        (add (requested is_pipelined held.tasks) (pipelined_on millionths 0 ps))
        (requested is_releasing held.tasks)
execute-IsCharged_example =
    execute-IsCharged millionths (go_heap ℕ) (go_heap TaskInfo) 5 opened allocated allocates 0
      (resource 5) held held_lem held-IsBalanced

opened-ready : opened.job_ready_fns ≡ gang_ready ∷ []
unfolding Session.open_with
opened-ready = refl

execute-AllWhole_example :
    AllWhole millionths
      (execute-Places millionths (go_heap ℕ) (go_heap TaskInfo) 5 opened allocated allocates)
execute-AllWhole_example =
    execute-AllWhole millionths (go_heap ℕ) (go_heap TaskInfo) 5 opened allocated allocates
      opened-ready
