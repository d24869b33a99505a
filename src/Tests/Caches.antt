-- ===== src/Tests/Caches.antt =====
-- Tests of the cache: a short history, the deletion of a pod, a snapshot.
use kube_arbitrator.Common.{
  ◌≡◌, refl, [], ◌∷◌, List, String_discrete, string_key, Outcome, ok, panic, map, none, some, arith,
}
use kube_arbitrator.Common.Map.{lookup, insert, remove}
use kube_arbitrator.Common.Lists.{All}
use kube_arbitrator.Api.Objects.{Pod, pod_pending, pod_key, get_controller}
use kube_arbitrator.Api.Resource.{add, sub, less_equal, new_resource}
use kube_arbitrator.Api.Status.{
  get_task_status, allocated_status, validate_status_update, running, TaskStatus_discrete, pending,
  binding as binding_status,
}
use kube_arbitrator.Api.TaskInfo.{TaskInfo, new_task_info}
use kube_arbitrator.Api.JobInfo.{
  add_task_info, delete_task_info, update_task_status, set_scheduling_spec, new_job_info,
}
use kube_arbitrator.Api.JobInfo.Invariant.{IsIndexed}
use kube_arbitrator.Api.Requested.{requested}
use kube_arbitrator.Api.NodeInfo.Accounts.{IsBalanced}
use kube_arbitrator.Api.NodeInfo.{
  NodeInfo, add_task, remove_task, set_node, new_node_info, note_releasing,
}
use kube_arbitrator.Cache.Store.{Cache, pod_object, node_object, spec_object, empty_cache}
use kube_arbitrator.Cache.Pods.{handle_add_pod, delete_pod}
use kube_arbitrator.Cache.Nodes.{handle_add_node}
use kube_arbitrator.Cache.Specs.{handle_add_spec}
use kube_arbitrator.Cache.InPlace.{evict_in_place}
use kube_arbitrator.Cache.Calls.{evict, bind, snapshot}
use kube_arbitrator.Cache.Bind.{bind-IsBalanced}
use kube_arbitrator.Cache.Events.{Event, run, spec_added, pod_added, node_added, evict_called}
use kube_arbitrator.Cache.Sound.{IsSound, empty_cache-IsSound}
use kube_arbitrator.Cache.Unshared.{AllUnshared, NoCall-AllUnshared}
use kube_arbitrator.Cache.Reach.{run-IsSound}
use kube_arbitrator.Cache.Keep.Pods.{delete_pod-IsSound}
use kube_arbitrator.Cache.Snapshot.{snapshot_lem}
use kube_arbitrator.Tests.Data.{resource, pod_named, task_of, node_of_size, spec_of_two}

-- A scheduling spec, a pod whose node is not known yet, the node, and an eviction.
abbrev history : List Event
history =
    spec_added (spec_object spec_of_two)
    ∷ pod_added (pod_object (pod_named "p1"))
    ∷ node_added (node_object (node_of_size 5))
    ∷ evict_called (task_of "p1" running)
    ∷ []

abbrev or_empty : Outcome Cache → Cache
or_empty (ok sc) = sc
or_empty (panic p) = empty_cache

abbrev after : Cache
after = or_empty (run empty_cache history)

after_lem : run empty_cache history ≡ ok after
unfolding run handle_add_spec handle_add_pod new_task_info delete_task_info lookup insert
    String_discrete set_scheduling_spec remove_task get_task_status add_task handle_add_node
    set_node sub add new_resource evict add_task_info update_task_status new_node_info
    note_releasing get_controller pod_key less_equal allocated_status validate_status_update remove
    TaskStatus_discrete evict_in_place
after_lem = refl

-- The evicted task stands on its own node only.
history-AllUnshared : AllUnshared empty_cache history
unfolding AllUnshared handle_add_spec handle_add_pod new_task_info delete_task_info lookup insert
    String_discrete set_scheduling_spec remove_task get_task_status add_task handle_add_node
    set_node sub add new_resource evict add_task_info update_task_status new_node_info
    note_releasing get_controller pod_key less_equal allocated_status validate_status_update remove
    TaskStatus_discrete evict_in_place
history-AllUnshared = (tt, (tt, (tt, (tt, tt))))

after-IsSound : IsSound after
after-IsSound =
    run-IsSound empty_cache after history empty_cache-IsSound history-AllUnshared after_lem

run-IsSound_example : IsSound after
run-IsSound_example =
    run-IsSound empty_cache after history empty_cache-IsSound history-AllUnshared after_lem

delete_pod-IsSound_example :
    (sc' : Cache) × (delete_pod after (pod_named "p1") ≡ ok sc') × IsSound sc'
delete_pod-IsSound_example = delete_pod-IsSound after (pod_named "p1") after-IsSound

snapshot_lem_example :
    ((snapshot after).nodes ≡ map (λ e. e.1) after.nodes) × All IsIndexed (snapshot after).jobs
snapshot_lem_example = snapshot_lem after after-IsSound

-- A pod that waits for a node, and the task of it.
abbrev waiting : Pod
waiting = record (pod_named "p2") { node_name = ""; phase = pod_pending }

abbrev task_waiting : TaskInfo
task_waiting = record (task_of "p2" pending) { node_name = ""; pod = waiting }

abbrev cache_waiting : Cache
cache_waiting = record empty_cache {
  jobs = ("job", add_task_info (new_job_info "job") task_waiting) ∷ [];
  nodes = ("n1", new_node_info (some (node_of_size 5))) ∷ [];
}

cache_waiting_lem :
    run empty_cache
      (node_added (node_object (node_of_size 5)) ∷ pod_added (pod_object waiting) ∷ [])
    ≡ ok cache_waiting
unfolding run handle_add_pod new_task_info delete_task_info lookup insert String_discrete
    get_task_status handle_add_node get_controller add_task_info new_node_info new_resource add
    remove
cache_waiting_lem = refl

empty_node-IsBalanced : IsBalanced (resource 5) (new_node_info (some (node_of_size 5)))
unfolding new_node_info requested add lookup new_resource
empty_node-IsBalanced = record {
  known = (node_of_size 5, refl);
  tasks_ok = record { distinct = tt; keyed = λ k t e. cc };
  used_sum = refl;
  idle_sum = refl;
  releasing_sum = refl;
}

bind-IsBalanced_example :
    (sc' : Cache) × (ni' : NodeInfo) × (bind cache_waiting task_waiting "n1" ≡ ok (sc', none))
    × (sc'.binds ≡ (waiting, "n1") ∷ [])
    × (lookup "n1" sc'.nodes ≡ some ni')
    × IsBalanced (resource 5) ni'
    × (add ni'.idle (resource 2) ≡ (new_node_info (some (node_of_size 5))).idle)
    × (ni'.tasks
        ≡ insert
            (pod_key waiting)
            (record task_waiting { status = binding_status })
            (new_node_info (some (node_of_size 5))).tasks)
unfolding lookup String_discrete add_task_info insert new_node_info new_resource
bind-IsBalanced_example =
    bind-IsBalanced (resource 5) cache_waiting task_waiting task_waiting "n1"
      (add_task_info (new_job_info "job") task_waiting) (new_node_info (some (node_of_size 5)))
      (run-IsSound empty_cache cache_waiting
        (node_added (node_object (node_of_size 5)) ∷ pod_added (pod_object waiting) ∷ [])
        empty_cache-IsSound (NoCall-AllUnshared empty_cache _ (tt, (tt, tt))) cache_waiting_lem)
      refl refl refl empty_node-IsBalanced refl
      (record { milli_cpu_le = omega arith; memory_le = omega arith; gpu_le = omega arith })
