-- ===== src/Tests/Nodes.antt =====
-- Tests of nodes: what they take, give back and refuse.
use kube_arbitrator.Common.{
  ℕ, ◌≡◌, ◌↔◌, refl, [], ◌∷◌, none, some, string_key, String_discrete, ok, panic,
  insufficient_resource, arith,
}
use kube_arbitrator.Common.Map.{lookup, insert, remove}
use kube_arbitrator.Api.Resource.{new_resource, add}
use kube_arbitrator.Api.Objects.{pod_key}
use kube_arbitrator.Api.Status.{TaskStatus, running, releasing}
use kube_arbitrator.Api.Requested.{requested}
use kube_arbitrator.Api.NodeInfo.{NodeInfo, new_node_info, set_node, remove_task}
use kube_arbitrator.Api.NodeInfo.Accounts.{IsKeyed, IsBalanced, IsBlank, is_placed}
use kube_arbitrator.Api.NodeInfo.Changes.{remove_task-IsBalanced, IsKeyed-insert}
use kube_arbitrator.Api.NodeInfo.SetNode.{set_node-of_Fits, set_node-of_no_room, set_node-of_known}
use kube_arbitrator.Tests.Data.{resource, requests, node_of_size, task_of}

-- A node of size five with one task of size two.
abbrev node_with : TaskStatus → ℕ → NodeInfo
node_with status idle = record (new_node_info (some (node_of_size 5))) {
  idle = resource idle;
  used = resource 2;
  releasing = elim status [ releasing ↦ resource 2 | _ ↦ resource 0 ];
  tasks = ("ns/p1", task_of "p1" status) ∷ [];
}

one_task-IsKeyed : (s : TaskStatus) → IsKeyed (("ns/p1", task_of "p1" s) ∷ [])
unfolding lookup insert pod_key
one_task-IsKeyed s =
    IsKeyed-insert (task_of "p1" s) [] (record { distinct = tt; keyed = λ k t e. cc })

node_running-IsBalanced : IsBalanced (resource 5) (node_with running 3)
unfolding new_node_info requested add
node_running-IsBalanced = record {
  known = (node_of_size 5, refl);
  tasks_ok = one_task-IsKeyed running;
  used_sum = ground arith;
  idle_sum = ground arith;
  releasing_sum = ground arith;
}

node_releasing-IsBalanced : IsBalanced (resource 5) (node_with releasing 3)
unfolding new_node_info requested add
node_releasing-IsBalanced = record {
  known = (node_of_size 5, refl);
  tasks_ok = one_task-IsKeyed releasing;
  used_sum = ground arith;
  idle_sum = ground arith;
  releasing_sum = ground arith;
}

no_p2 :
    (s : TaskStatus) (t : TaskStatus)
    → lookup (pod_key (task_of "p2" t).pod) (node_with s 3).tasks ≡ none
unfolding lookup String_discrete pod_key new_node_info
no_p2 s t = refl

node_full-IsBalanced : IsBalanced (resource 3) (node_with running 1)
unfolding new_node_info requested add
node_full-IsBalanced = record {
  known = (node_of_size 5, refl);
  tasks_ok = one_task-IsKeyed running;
  used_sum = ground arith;
  idle_sum = ground arith;
  releasing_sum = ground arith;
}

remove_task-IsBalanced_example :
    (ni' : NodeInfo) × (remove_task (node_with running 3) (task_of "p1" running) ≡ ok ni')
    × IsBalanced (resource 5) ni'
    × (ni'.idle ≡ add (node_with running 3).idle (resource 2))
    × (ni'.tasks ≡ remove (pod_key (task_of "p1" running).pod) (node_with running 3).tasks)
unfolding lookup String_discrete pod_key requested remove new_node_info add
remove_task-IsBalanced_example =
    remove_task-IsBalanced (resource 5) (node_with running 3) (task_of "p1" running)
      (task_of "p1" running) node_running-IsBalanced refl (λ e. cc)
      (record { milli_cpu_le = ground arith; memory_le = ground arith; gpu_le = ground arith })

-- A node that is known by its one pod only.
abbrev node_unseen : NodeInfo
node_unseen = record (new_node_info none) { tasks = ("ns/p1", task_of "p1" running) ∷ [] }

node_unseen-IsBlank : IsBlank node_unseen
unfolding new_node_info
node_unseen-IsBlank = record {
  unknown = refl;
  tasks_ok = one_task-IsKeyed running;
  unused = refl;
  none_idle = refl;
  none_releasing = refl;
}

set_node-of_Fits_example :
    (ni' : NodeInfo) × (set_node node_unseen (node_of_size 5) ≡ ok ni')
    × IsBalanced (new_resource (requests 5)) ni'
    × (ni'.tasks ≡ node_unseen.tasks)
    × (ni'.allocatable ≡ new_resource (requests 5))
unfolding requested add new_resource
set_node-of_Fits_example =
    set_node-of_Fits node_unseen (node_of_size 5) node_unseen-IsBlank (λ e. cc, tt)
      (record { milli_cpu_le = omega arith; memory_le = omega arith; gpu_le = omega arith })

set_node-of_no_room_example : set_node node_unseen (node_of_size 1) ≡ panic insufficient_resource
unfolding requested add new_resource
set_node-of_no_room_example =
    set_node-of_no_room node_unseen (node_of_size 1) node_unseen-IsBlank (λ e. cc, tt)
      (λ fits. omega (arith, fits.milli_cpu_le))

set_node-of_known_example :
    (ni' : NodeInfo) × (set_node (node_with running 3) (node_of_size 9) ≡ ok ni')
    × (ni'.allocatable ≡ new_resource (requests 9))
    × (ni'.idle ≡ (node_with running 3).idle)
    × (ni'.tasks ≡ (node_with running 3).tasks)
    × IsBalanced (resource 5) ni'
    × ((add ni'.idle (requested is_placed ni'.tasks) ≡ ni'.allocatable)
        ↔ (resource 5 ≡ new_resource (requests 9)))
set_node-of_known_example =
    set_node-of_known (resource 5) (node_with running 3) (node_of_size 9) node_running-IsBalanced
