-- ===== src/Tests/Actions.antt =====
-- Tests of the actions and of the scheduler's round, with the queue over container/heap.
use kube_arbitrator.Common.{
  text_same, ap, sym, ◌∙◌, ◌≢◌, ◌+◌, ◌<◌, ◌++◌, ◌⊎◌, Panic, map, ℕ, ◌≡◌, refl, subst, [], ◌∷◌, List,
  true, false, none, some, String, Outcome, ok, panic, Option, arith,
}
use mathlib.Core.List.{eq-or-mem_of_mem-cons, not-mem-nil}
use mathlib.Core.Logic.Or
use mathlib.Core.HLevel.{⊥_prop}
use Prim.Native.Nat.{zero, suc}
use kube_arbitrator.Common.{String_discrete, string_key}
use kube_arbitrator.Common.Lists.{length}
use kube_arbitrator.Common.Map.{lookup, insert, remove}
use kube_arbitrator.Api.Objects.{Pod, pod_key, get_controller}
use kube_arbitrator.Api.Resource.{add, sub, less_equal, new_resource, get}
use kube_arbitrator.Api.Status.{
  get_task_status, allocated_status, validate_status_update, TaskStatus_discrete,
}
use kube_arbitrator.Api.TaskInfo.{TaskInfo, new_task_info}
use kube_arbitrator.Api.JobInfo.{
  add_task_info, delete_task_info, update_task_status, set_scheduling_spec, clone, tasks_with,
}
use kube_arbitrator.Api.NodeInfo.{
  add_task, remove_task, set_node, new_node_info, note_releasing, pipeline_task,
  clone as clone_node,
}
use kube_arbitrator.Cache.Pods.{handle_add_pod}
use kube_arbitrator.Cache.Nodes.{handle_add_node}
use kube_arbitrator.Cache.Specs.{handle_add_spec}
use kube_arbitrator.Cache.Calls.{snapshot, evict}
use kube_arbitrator.Cache.Events.{Event, run, spec_added, pod_added, node_added}
use kube_arbitrator.Plugins.Gang
use kube_arbitrator.Plugins.Drf
use kube_arbitrator.Plugins.Priority
use kube_arbitrator.Framework.Calls
use kube_arbitrator.Queue
use kube_arbitrator.Queue.{Heap}
use kube_arbitrator.Queue.Container.{go_heap, heap_push, heap_pop}
use kube_arbitrator.Framework.Session
use kube_arbitrator.Actions.Allocate
use kube_arbitrator.Actions.Preempt
use kube_arbitrator.Tests.Sessions.{millionths}
use kube_arbitrator.Framework.Order.{registered}
use kube_arbitrator.Cache.Store.{Cache, pod_object, node_object, spec_object, empty_cache}
use kube_arbitrator.Cache.Sound.{IsSound, empty_cache-IsSound}
use kube_arbitrator.Cache.Reach.{run-IsSound}
use kube_arbitrator.Cache.Unshared.{NoCall-AllUnshared}
use kube_arbitrator.Api.Objects.{SchedulingSpec}
use kube_arbitrator.Common.Int.{pos}
use kube_arbitrator.Actions.Decorate
use kube_arbitrator.Actions.Decorate.{Matcher}
use kube_arbitrator.Actions.Allocate.Steps.{Places, execute-Places}
use kube_arbitrator.Actions.Allocate.Ends.{execute-ends}
use kube_arbitrator.Actions.Preempt.Steps.{Evictions, execute-Evictions}
use kube_arbitrator.Actions.Preempt.Ends.{execute-enough, pending_tasks}
use kube_arbitrator.Scheduler.{
  Action, decorate, allocate, preempt, run_once, get_action, registered_actions, new_scheduler,
  scheduler, not_supported,
}
use kube_arbitrator.Scheduler.Ends.{run_once-ends}
use kube_arbitrator.Scheduler.Rounds.{run_once-IsSound, new_scheduler-cases}
use kube_arbitrator.Actions.Preempt.{next_preemptee}
use kube_arbitrator.Actions.Preempt.Search.{NoneLeft, next_preemptee_panics}
use kube_arbitrator.Tests.Data.{pod_named, node_of_size, spec_of_two}
use kube_arbitrator.Tests.Calls.{opened, waiting, or_empty}

abbrev pub or_same : Option (Outcome (Session.Session millionths)) → Session.Session millionths
or_same (some (ok s)) = s
or_same (some (panic p)) = opened
or_same none = opened

abbrev pub allocated : Session.Session millionths
allocated = or_same (Allocate.execute millionths (go_heap ℕ) (go_heap TaskInfo) 5 opened)

pub allocates :
    Allocate.execute millionths (go_heap ℕ) (go_heap TaskInfo) 5 opened ≡ some (ok allocated)
unfolding run handle_add_spec handle_add_pod new_task_info delete_task_info lookup insert
    String_discrete set_scheduling_spec remove_task get_task_status add_task handle_add_node
    set_node sub add new_resource add_task_info new_node_info note_releasing get_controller pod_key
    less_equal allocated_status remove TaskStatus_discrete Session.open_with clone clone_node
    snapshot update_task_status validate_status_update Drf.on_allocate Drf.attr_of Drf.update_share
    Drf.calculate_share get Session.job_of Session.job_ready Gang.job_ready Gang.ready_task_num
    pipeline_task Calls.assign Calls.pipeline Calls.allocate tasks_with Allocate.execute
    Queue.push_all heap_push heap_pop Queue.pop Queue.empty Session.job_order_fn
    Session.task_order_fn Priority.job_order Gang.job_order Drf.job_order Priority.task_order
allocates = refl

execute-Places_example : Places millionths opened allocated
execute-Places_example =
    execute-Places millionths (go_heap ℕ) (go_heap TaskInfo) 5 opened allocated allocates

execute-ends_example :
    (fuel : ℕ) × (o : Outcome (Session.Session millionths)) × (Allocate.execute millionths
        (go_heap ℕ)
        (go_heap TaskInfo)
        fuel
        opened
      ≡ some o)
execute-ends_example = execute-ends millionths (go_heap ℕ) (go_heap TaskInfo) opened

-- A node of which the running pods of one job hold everything, and a waiting pod of another job.
abbrev other_pod : String → Pod
other_pod name = record (pod_named name) { owner = some (some "other") }

abbrev spec_of_one : SchedulingSpec
spec_of_one = record spec_of_two {
  name = "other";
  owner = some (some "other");
  min_available = pos 1;
}

abbrev crowd : List Event
crowd =
    spec_added (spec_object spec_of_one)
    ∷ spec_added (spec_object spec_of_two)
    ∷ node_added (node_object (node_of_size 4))
    ∷ pod_added (pod_object (other_pod "q1"))
    ∷ pod_added (pod_object (other_pod "q2"))
    ∷ pod_added (pod_object waiting)
    ∷ []

abbrev crowded : Cache
crowded = or_empty (run empty_cache crowd)

abbrev crowded_session : Session.Session millionths
crowded_session = Session.open_with millionths crowded registered

abbrev preempted : Session.Session millionths
preempted = or_same (Preempt.execute millionths (go_heap ℕ) (go_heap TaskInfo) 5 crowded_session)

abbrev any_node : Matcher
any_node selector labels = true

abbrev finished : Session.Session millionths
finished = or_same (
    run_once millionths any_node (go_heap ℕ) (go_heap TaskInfo) 9 registered
      (decorate ∷ allocate ∷ preempt ∷ []) crowded)

crowded_lem : run empty_cache crowd ≡ ok crowded
unfolding run handle_add_spec handle_add_pod new_task_info delete_task_info lookup insert
    String_discrete set_scheduling_spec remove_task get_task_status add_task handle_add_node
    set_node sub add new_resource add_task_info new_node_info note_releasing get_controller pod_key
    less_equal allocated_status remove TaskStatus_discrete
crowded_lem = refl

preempts :
    Preempt.execute millionths (go_heap ℕ) (go_heap TaskInfo) 5 crowded_session
    ≡ some (ok preempted)
unfolding run handle_add_spec handle_add_pod new_task_info delete_task_info lookup insert
    String_discrete set_scheduling_spec remove_task get_task_status add_task handle_add_node
    set_node sub add new_resource add_task_info new_node_info note_releasing get_controller pod_key
    less_equal allocated_status remove TaskStatus_discrete Session.open_with clone clone_node
    snapshot update_task_status validate_status_update Drf.on_allocate Drf.attr_of Drf.update_share
    Drf.calculate_share get Session.job_of Session.job_ready Gang.job_ready Gang.ready_task_num
    pipeline_task Calls.assign Calls.pipeline Calls.allocate tasks_with Allocate.execute
    Preempt.execute evict Calls.preempt Calls.fire_preempt Session.preemptable Session.allows
    Gang.preemptable Drf.preemptable Drf.on_evict Preempt.tasks_in Queue.push_all heap_push heap_pop
    Queue.pop Queue.empty Session.job_order_fn Session.task_order_fn Priority.job_order
    Gang.job_order Drf.job_order Priority.task_order
preempts = refl

finishes :
    run_once millionths any_node
      (go_heap ℕ)
      (go_heap TaskInfo)
      9
      registered
      (decorate ∷ allocate ∷ preempt ∷ [])
      crowded
    ≡ some (ok finished)
unfolding run handle_add_spec handle_add_pod new_task_info delete_task_info lookup insert
    String_discrete set_scheduling_spec remove_task get_task_status add_task handle_add_node
    set_node sub add new_resource add_task_info new_node_info note_releasing get_controller pod_key
    less_equal allocated_status remove TaskStatus_discrete Session.open_with clone clone_node
    snapshot update_task_status validate_status_update Drf.on_allocate Drf.attr_of Drf.update_share
    Drf.calculate_share get Session.job_of Session.job_ready Gang.job_ready Gang.ready_task_num
    pipeline_task Calls.assign Calls.pipeline Calls.allocate tasks_with Allocate.execute
    Preempt.execute evict Calls.preempt Calls.fire_preempt Session.preemptable Session.allows
    Gang.preemptable Drf.preemptable Drf.on_evict Preempt.tasks_in Queue.push_all heap_push heap_pop
    Queue.pop Queue.empty Session.job_order_fn Session.task_order_fn Priority.job_order
    Gang.job_order Drf.job_order Priority.task_order run_once Decorate.execute
    Decorate.fetch_match_nodes Session.close_session
finishes = refl

execute-Evictions_example : Evictions millionths crowded_session preempted
execute-Evictions_example =
    execute-Evictions millionths (go_heap ℕ) (go_heap TaskInfo) 5 crowded_session preempted preempts

few : length crowded_session.jobs + pending_tasks crowded_session.jobs < 5
unfolding run handle_add_spec handle_add_pod new_task_info delete_task_info lookup insert
    String_discrete set_scheduling_spec remove_task get_task_status add_task handle_add_node
    set_node sub add new_resource add_task_info new_node_info note_releasing get_controller pod_key
    less_equal allocated_status remove TaskStatus_discrete Session.open_with clone clone_node
    snapshot update_task_status validate_status_update Drf.on_allocate Drf.attr_of Drf.update_share
    Drf.calculate_share get Session.job_of Session.job_ready Gang.job_ready Gang.ready_task_num
    pipeline_task Calls.assign Calls.pipeline Calls.allocate tasks_with Allocate.execute
    Preempt.execute evict Calls.preempt Calls.fire_preempt Session.preemptable Session.allows
    Gang.preemptable Drf.preemptable Drf.on_evict Preempt.tasks_in Queue.push_all heap_push heap_pop
    Queue.pop Queue.empty Session.job_order_fn Session.task_order_fn Priority.job_order
    Gang.job_order Drf.job_order Priority.task_order
few = omega arith

execute-enough_example :
    (o : Outcome (Session.Session millionths)) × (Preempt.execute millionths
        (go_heap ℕ)
        (go_heap TaskInfo)
        5
        crowded_session
      ≡ some o)
execute-enough_example =
    execute-enough millionths (go_heap ℕ) (go_heap TaskInfo) 5 crowded_session few

crowded-IsSound : IsSound crowded
crowded-IsSound =
    run-IsSound empty_cache crowded crowd empty_cache-IsSound
      (NoCall-AllUnshared empty_cache _ (tt, (tt, (tt, (tt, (tt, (tt, tt))))))) crowded_lem

run_once-IsSound_example : IsSound finished.cache
run_once-IsSound_example =
    run_once-IsSound millionths any_node (go_heap ℕ) (go_heap TaskInfo) 9 registered
      (decorate ∷ allocate ∷ preempt ∷ []) crowded finished crowded-IsSound finishes

run_once-ends_example :
    (fuel : ℕ) × (o : Outcome (Session.Session millionths)) × (run_once millionths any_node
        (go_heap ℕ)
        (go_heap TaskInfo)
        fuel
        registered
        (decorate ∷ allocate ∷ preempt ∷ [])
        crowded
      ≡ some o)
run_once-ends_example =
    run_once-ends millionths any_node (go_heap ℕ) (go_heap TaskInfo) registered
      (decorate ∷ allocate ∷ preempt ∷ []) crowded

new_scheduler-cases_example :
    ((actions : List Action) × (map
          (λ n. get_action n registered_actions)
          ("allocate" ∷ "backfill" ∷ [])
        ≡ map some actions)
      × (new_scheduler registered_actions ("allocate" ∷ "backfill" ∷ []) ≡ scheduler actions))
    ⊎ ((before after : List String) × (name : String) × (actions : List Action) × (("allocate"
            ∷ "backfill" ∷ [])
          ≡ before ++ name ∷ after)
        × (map (λ n. get_action n registered_actions) before ≡ map some actions)
        × (get_action name registered_actions ≡ none)
        × (new_scheduler registered_actions ("allocate" ∷ "backfill" ∷ []) ≡ not_supported name))
new_scheduler-cases_example = new_scheduler-cases registered_actions ("allocate" ∷ "backfill" ∷ [])

different : ◌≢◌ {A = String} "job" "other"
different e = let h : true ≡ false = ap (text_same "job") e in cc

none_left :
    NoneLeft millionths
      (go_heap ℕ)
      (go_heap TaskInfo)
      crowded_session
      (("other", []) ∷ [])
      "job"
      (0 ∷ [])
unfolding run handle_add_spec handle_add_pod new_task_info delete_task_info lookup insert
    String_discrete set_scheduling_spec remove_task get_task_status add_task handle_add_node
    set_node sub add new_resource add_task_info new_node_info note_releasing get_controller pod_key
    less_equal allocated_status remove TaskStatus_discrete Session.open_with clone clone_node
    snapshot
none_left zero m job at =
    let e : "other" ≡ job.uid = ap (λ o. elim o [ none ↦ "" | some x ↦ x.uid ]) at in
    (
      subst (λ u. lookup {V = List TaskInfo} u (("other", []) ∷ []) ≡ some []) e refl,
      λ k. different (k ∙ sym e),
    )
none_left (suc j) m job at =
    absurd (Or.elim ⊥_prop (eq-or-mem_of_mem-cons m) (λ e. omega (arith, e)) not-mem-nil)

-- The running tasks of the job that is left as a preemptee are used up.
next_preemptee_panics_example :
    (p : Panic) × (next_preemptee millionths
        (go_heap ℕ)
        (go_heap TaskInfo)
        1
        crowded_session
        (("other", []) ∷ [])
        "job"
        (0 ∷ [])
      ≡ panic p)
next_preemptee_panics_example =
    next_preemptee_panics millionths (go_heap ℕ) (go_heap TaskInfo) 1 crowded_session
      (("other", []) ∷ []) "job" (0 ∷ []) none_left
