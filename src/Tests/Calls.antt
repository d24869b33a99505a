-- ===== src/Tests/Calls.antt =====
-- Tests of the session's calls, in a session with a waiting pod and one that is being deleted.
use kube_arbitrator.Common.{
  ◌≡◌, refl, [], ◌∷◌, List, true, false, none, some, String_discrete, string_key, Outcome, ok,
  panic, Option,
}
use kube_arbitrator.Common.Map.{lookup, insert, remove}
use kube_arbitrator.Api.Objects.{Pod, pod_pending, pod_key, get_controller}
use kube_arbitrator.Api.Resource.{add, sub, less_equal, new_resource, get}
use kube_arbitrator.Api.Status.{
  get_task_status, allocated_status, validate_status_update, TaskStatus_discrete, pending,
}
use kube_arbitrator.Api.TaskInfo.{TaskInfo, new_task_info}
use kube_arbitrator.Api.JobInfo.{
  JobInfo, add_task_info, delete_task_info, update_task_status, set_scheduling_spec, new_job_info,
  clone,
}
use kube_arbitrator.Api.NodeInfo.{
  add_task, remove_task, set_node, new_node_info, note_releasing, pipeline_task,
  clone as clone_node,
}
use kube_arbitrator.Cache.Store.{Cache, pod_object, node_object, spec_object, empty_cache}
use kube_arbitrator.Cache.Pods.{handle_add_pod}
use kube_arbitrator.Cache.Nodes.{handle_add_node}
use kube_arbitrator.Cache.Specs.{handle_add_spec}
use kube_arbitrator.Cache.Calls.{snapshot}
use kube_arbitrator.Cache.Events.{Event, run, spec_added, pod_added, node_added}
use kube_arbitrator.Cache.Sound.{IsSound, empty_cache-IsSound}
use kube_arbitrator.Cache.Reach.{run-IsSound}
use kube_arbitrator.Cache.Unshared.{NoCall-AllUnshared}
use kube_arbitrator.Plugins.Gang
use kube_arbitrator.Plugins.Drf
use kube_arbitrator.Framework.Session
use kube_arbitrator.Framework.Calls
use kube_arbitrator.Framework.Order.{registered}
use kube_arbitrator.Tests.Data.{pod_named, task_of, node_of_size, spec_of_two}
use kube_arbitrator.Tests.Sessions.{millionths}

abbrev pub waiting : Pod
waiting = record (pod_named "p2") { node_name = ""; phase = pod_pending }

abbrev pub leaving : Pod
leaving = record (pod_named "p1") { deleted = true }

abbrev task_waiting : TaskInfo
task_waiting = record (task_of "p2" pending) { node_name = ""; pod = waiting }

abbrev history : List Event
history =
    spec_added (spec_object spec_of_two)
    ∷ node_added (node_object (node_of_size 5))
    ∷ pod_added (pod_object leaving)
    ∷ pod_added (pod_object waiting)
    ∷ []

abbrev pub or_empty : Outcome Cache → Cache
or_empty (ok sc) = sc
or_empty (panic p) = empty_cache

abbrev pub before : Cache
before = or_empty (run empty_cache history)

abbrev pub opened : Session.Session millionths
opened = Session.open_with millionths before registered

abbrev or_opened : Outcome (Session.Session millionths) → Session.Session millionths
or_opened (ok ssn) = ssn
or_opened (panic p) = opened

abbrev assigned : Session.Session millionths
assigned = or_opened (Calls.assign millionths opened task_waiting "n1")

abbrev pipelined : Session.Session millionths
pipelined = or_opened (Calls.pipeline millionths opened task_waiting "n1")

abbrev or_new : Option JobInfo → JobInfo
or_new none = new_job_info ""
or_new (some job) = job

abbrev job_assigned : JobInfo
job_assigned = or_new (Session.job_of millionths assigned "job")

before_lem : run empty_cache history ≡ ok before
unfolding run handle_add_spec handle_add_pod new_task_info delete_task_info lookup insert
    String_discrete set_scheduling_spec remove_task get_task_status add_task handle_add_node
    set_node sub add new_resource add_task_info new_node_info note_releasing get_controller pod_key
    less_equal allocated_status remove TaskStatus_discrete
before_lem = refl

pipelined_lem : Calls.pipeline millionths opened task_waiting "n1" ≡ ok pipelined
unfolding run handle_add_spec handle_add_pod new_task_info delete_task_info lookup insert
    String_discrete set_scheduling_spec remove_task get_task_status add_task handle_add_node
    set_node sub add new_resource add_task_info new_node_info note_releasing get_controller pod_key
    less_equal allocated_status remove TaskStatus_discrete Calls.pipeline Session.open_with clone
    clone_node snapshot update_task_status validate_status_update pipeline_task Drf.on_allocate
    Drf.attr_of Drf.update_share Drf.calculate_share get
pipelined_lem = refl

assigned_lem : Calls.assign millionths opened task_waiting "n1" ≡ ok assigned
unfolding run handle_add_spec handle_add_pod new_task_info delete_task_info lookup insert
    String_discrete set_scheduling_spec remove_task get_task_status add_task handle_add_node
    set_node sub add new_resource add_task_info new_node_info note_releasing get_controller pod_key
    less_equal allocated_status remove TaskStatus_discrete Calls.assign Session.open_with clone
    clone_node snapshot update_task_status validate_status_update Drf.on_allocate Drf.attr_of
    Drf.update_share Drf.calculate_share get
assigned_lem = refl

found_lem : Session.job_of millionths assigned "job" ≡ some job_assigned
unfolding run handle_add_spec handle_add_pod new_task_info delete_task_info lookup insert
    String_discrete set_scheduling_spec remove_task get_task_status add_task handle_add_node
    set_node sub add new_resource add_task_info new_node_info note_releasing get_controller pod_key
    less_equal allocated_status remove TaskStatus_discrete Calls.assign Session.open_with clone
    clone_node snapshot update_task_status validate_status_update Drf.on_allocate Drf.attr_of
    Drf.update_share Drf.calculate_share get Session.job_of
found_lem = refl

-- One of two tasks is placed.
unready_lem : Session.job_ready millionths assigned job_assigned ≡ false
unfolding run handle_add_spec handle_add_pod new_task_info delete_task_info lookup insert
    String_discrete set_scheduling_spec remove_task get_task_status add_task handle_add_node
    set_node sub add new_resource add_task_info new_node_info note_releasing get_controller pod_key
    less_equal allocated_status remove TaskStatus_discrete Calls.assign Session.open_with clone
    clone_node snapshot update_task_status validate_status_update Drf.on_allocate Drf.attr_of
    Drf.update_share Drf.calculate_share get Session.job_of Session.job_ready Gang.job_ready
    Gang.ready_task_num
unready_lem = refl

opened-IsSound : IsSound opened.cache
unfolding Session.open_with
opened-IsSound =
    run-IsSound empty_cache before history empty_cache-IsSound
      (NoCall-AllUnshared empty_cache _ (tt, (tt, (tt, (tt, tt))))) before_lem
