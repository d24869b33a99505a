-- ===== src/Tests/Choices.antt =====
-- A test of the decorate and the allocate action: a job that asks for a zone, and nodes of two zones.
use kube_arbitrator.Common.{
  text_same, sym, ◌∙◌, map, ℕ, ◌≡◌, refl, subst, [], ◌∷◌, List, true, false, none, some, String,
  Outcome, ok, panic, Option, arith,
}
use Prim.Native.Nat.{zero, suc}
use kube_arbitrator.Common.{String_discrete, string_key}
use kube_arbitrator.Common.Lists.{length}
use kube_arbitrator.Common.Map.{lookup, insert, remove}
use kube_arbitrator.Api.Objects.{pod_key, get_controller}
use kube_arbitrator.Api.Resource.{add, sub, less_equal, new_resource, get}
use kube_arbitrator.Api.Status.{
  get_task_status, allocated_status, validate_status_update, TaskStatus_discrete,
}
use kube_arbitrator.Api.TaskInfo.{TaskInfo, new_task_info}
use kube_arbitrator.Api.JobInfo.{
  JobInfo, add_task_info, delete_task_info, update_task_status, set_scheduling_spec, clone,
  tasks_with,
}
use kube_arbitrator.Api.NodeInfo.{
  add_task, remove_task, set_node, new_node_info, note_releasing, pipeline_task,
  clone as clone_node,
}
use kube_arbitrator.Cache.Pods.{handle_add_pod}
use kube_arbitrator.Cache.Nodes.{handle_add_node}
use kube_arbitrator.Cache.Specs.{handle_add_spec}
use kube_arbitrator.Cache.Calls.{snapshot}
use kube_arbitrator.Cache.Events.{Event, run, spec_added, pod_added, node_added}
use kube_arbitrator.Plugins.Gang
use kube_arbitrator.Plugins.Drf
use kube_arbitrator.Plugins.Priority
use kube_arbitrator.Framework.Calls
use kube_arbitrator.Queue
use kube_arbitrator.Queue.{Heap}
use kube_arbitrator.Queue.Container.{go_heap, heap_push, heap_pop}
use kube_arbitrator.Framework.Session
use kube_arbitrator.Actions.Allocate
use kube_arbitrator.Tests.Sessions.{millionths}
use kube_arbitrator.Framework.Order.{registered}
use kube_arbitrator.Cache.Store.{Cache, pod_object, node_object, spec_object, empty_cache}
use kube_arbitrator.Actions.Decorate
use kube_arbitrator.Actions.Decorate.{Matcher}
use kube_arbitrator.Actions.Allocate.Steps.{Places}
use kube_arbitrator.Tests.Data.{node_of_size, spec_of_two}
use kube_arbitrator.Tests.Calls.{waiting}
use kube_arbitrator.Api.JobInfo.{new_job_info}
use kube_arbitrator.Common.{◌∙◌, ◌&&◌, text_same, map, subst, sym}
use kube_arbitrator.Common.Lists.{get_elem?}
use kube_arbitrator.Api.Objects.{Node}
use kube_arbitrator.Api.NodeInfo.{NodeInfo}
use kube_arbitrator.Framework.Owned.{IsOwned}
use kube_arbitrator.Api.JobInfo.Owner.{Owns}
use kube_arbitrator.Actions.Allocate.Chosen.{AllOnChosen}
use kube_arbitrator.Actions.Allocate.Queued.{execute-AllOnChosen}

-- Each entry of the selector is one of the labels.
abbrev agrees : Matcher
agrees [] labels = true
agrees ((k, v) ∷ selector) labels =
    agrees selector labels && (elim (lookup k labels) [ none ↦ false | some w ↦ text_same v w ])

abbrev other_zone : Node
other_zone = record (node_of_size 5) { name = "n2"; labels = ("zone", "b") ∷ [] }

abbrev history : List Event
history =
    node_added (node_object other_zone)
    ∷ node_added (node_object (node_of_size 5))
    ∷ spec_added (spec_object spec_of_two)
    ∷ pod_added (pod_object waiting)
    ∷ []

abbrev cache_or_empty : Outcome Cache → Cache
cache_or_empty (ok sc) = sc
cache_or_empty (panic p) = empty_cache

abbrev zones : Session.Session millionths
zones = Session.open_with millionths (cache_or_empty (run empty_cache history)) registered

abbrev jobs_or_none : Outcome (List JobInfo) → List JobInfo
jobs_or_none (ok jobs) = jobs
jobs_or_none (panic p) = []

abbrev prepared : List JobInfo
prepared = jobs_or_none (Decorate.execute agrees zones.jobs zones.nodes)

abbrev or_zones : Option (Outcome (Session.Session millionths)) → Session.Session millionths
or_zones (some (ok s)) = s
or_zones (some (panic p)) = zones
or_zones none = zones

abbrev served : Session.Session millionths
served = or_zones (
    Allocate.execute millionths (go_heap ℕ) (go_heap TaskInfo) 5 (record zones { jobs = prepared }))

prepares : Decorate.execute agrees zones.jobs zones.nodes ≡ ok prepared
unfolding run handle_add_spec handle_add_pod new_task_info delete_task_info lookup insert
    String_discrete set_scheduling_spec remove_task get_task_status add_task handle_add_node
    set_node sub add new_resource add_task_info new_node_info note_releasing get_controller pod_key
    less_equal allocated_status remove TaskStatus_discrete Session.open_with clone clone_node
    snapshot update_task_status validate_status_update Drf.on_allocate Drf.attr_of Drf.update_share
    Drf.calculate_share get Session.job_of Session.job_ready Gang.job_ready Gang.ready_task_num
    pipeline_task Calls.assign Calls.pipeline Calls.allocate tasks_with Allocate.execute
    Queue.push_all heap_push heap_pop Queue.pop Queue.empty Session.job_order_fn
    Session.task_order_fn Priority.job_order Gang.job_order Drf.job_order Priority.task_order
    Decorate.execute Decorate.fetch_match_nodes
prepares = refl

serves :
    Allocate.execute millionths (go_heap ℕ) (go_heap TaskInfo) 5 (record zones { jobs = prepared })
    ≡ some (ok served)
unfolding run handle_add_spec handle_add_pod new_task_info delete_task_info lookup insert
    String_discrete set_scheduling_spec remove_task get_task_status add_task handle_add_node
    set_node sub add new_resource add_task_info new_node_info note_releasing get_controller pod_key
    less_equal allocated_status remove TaskStatus_discrete Session.open_with clone clone_node
    snapshot update_task_status validate_status_update Drf.on_allocate Drf.attr_of Drf.update_share
    Drf.calculate_share get Session.job_of Session.job_ready Gang.job_ready Gang.ready_task_num
    pipeline_task Calls.assign Calls.pipeline Calls.allocate tasks_with Allocate.execute
    Queue.push_all heap_push heap_pop Queue.pop Queue.empty Session.job_order_fn
    Session.task_order_fn Priority.job_order Gang.job_order Drf.job_order Priority.task_order
    Decorate.execute Decorate.fetch_match_nodes
serves = refl

-- Of two nodes with room, the task is placed on the one in the zone.
charged_lem :
    map {B = String × ℕ} (λ (ni : NodeInfo). (ni.name, length ni.tasks)) served.nodes
    ≡ ("n2", 0) ∷ ("n1", 1) ∷ []
unfolding run handle_add_spec handle_add_pod new_task_info delete_task_info lookup insert
    String_discrete set_scheduling_spec remove_task get_task_status add_task handle_add_node
    set_node sub add new_resource add_task_info new_node_info note_releasing get_controller pod_key
    less_equal allocated_status remove TaskStatus_discrete Session.open_with clone clone_node
    snapshot update_task_status validate_status_update Drf.on_allocate Drf.attr_of Drf.update_share
    Drf.calculate_share get Session.job_of Session.job_ready Gang.job_ready Gang.ready_task_num
    pipeline_task Calls.assign Calls.pipeline Calls.allocate tasks_with Allocate.execute
    Queue.push_all heap_push heap_pop Queue.pop Queue.empty Session.job_order_fn
    Session.task_order_fn Priority.job_order Gang.job_order Drf.job_order Priority.task_order
    Decorate.execute Decorate.fetch_match_nodes
charged_lem = refl

only : (job j : JobInfo) (i : ℕ) → get_elem? (job ∷ []) i ≡ some j → (i ≡ 0) × (j ≡ job)
only job j zero h = (refl, ground (arith, h))
only job j (suc i) h = cc

key_of : (id k : String) (i : ℕ) → lookup k ((id, 0) ∷ []) ≡ some i → id ≡ k
unfolding lookup
key_of id k i h = ground arith

single-IsOwned :
    (s : Session.Session millionths) (id : String) (job : JobInfo)
    → s.job_index ≡ (id, 0) ∷ []
    → s.jobs ≡ job ∷ []
    → job.uid ≡ id
    → Owns job.uid job
    → IsOwned millionths s
unfolding lookup
single-IsOwned s id job index jobs uid owns = record {
  named = λ k i j l at.
      let (zero_th, same) = only job j i (rw jobs at at) in
      rw same (uid ∙ key_of id k i (rw index at l));
  placed = λ i j at.
      let (zero_th, same) = only job j i (rw jobs at at) in
      rw (index, same, uid, zero_th) (ground arith);
  owns = λ i j at.
      let (zero_th, same) = only job j i (rw jobs at at) in
      subst (λ (x : JobInfo). Owns x.uid x) (sym same) owns;
}

abbrev first : List JobInfo → JobInfo
first [] = new_job_info ""
first (job ∷ jobs) = job

zones-IsOwned : IsOwned millionths (record zones { jobs = prepared })
unfolding run handle_add_spec handle_add_pod new_task_info delete_task_info lookup insert
    String_discrete set_scheduling_spec remove_task get_task_status add_task handle_add_node
    set_node sub add new_resource add_task_info new_node_info note_releasing get_controller pod_key
    less_equal allocated_status remove TaskStatus_discrete Session.open_with clone clone_node
    snapshot Decorate.execute Decorate.fetch_match_nodes
zones-IsOwned =
    single-IsOwned (record zones { jobs = prepared }) "job" (first prepared) refl refl refl
      ((refl, tt), tt)

execute-AllOnChosen_example :
    (ps : Places millionths (record zones { jobs = prepared }) served) × AllOnChosen millionths
      agrees ps
execute-AllOnChosen_example =
    execute-AllOnChosen millionths agrees (go_heap ℕ) (go_heap TaskInfo) 5 zones served prepared
      prepares zones-IsOwned serves
