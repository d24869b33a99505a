-- ===== src/Framework/Calls.antt =====
-- `Pipeline`, `Allocate`, `dispatch` and `Preempt` of pkg/scheduler/framework/session.go. The task
-- that the source changes in place is seen by the session's job and, once it was added, by the
-- session's node: each change is written to these places too. Where the caller gets an error
-- value, that of `Bind` or `Evict`, it stands beside the session.
use kube_arbitrator.Common.{
  List, [], ◌∷◌, Option, none, some, String, string_key, Outcome, ok, panic, nil_dereference, ◌>>=◌,
  if◌then◌else◌,
}
use kube_arbitrator.Common.Lists.{get_elem?, set}
use kube_arbitrator.Common.Map.{lookup, insert}
use kube_arbitrator.Api.Objects.{pod_key}
use kube_arbitrator.Api.Status.{
  TaskStatus, Error, allocated as allocated_state, pipelined as pipelined_state,
  binding as binding_state,
}
use kube_arbitrator.Api.TaskInfo.{TaskInfo, TasksMap}
use kube_arbitrator.Api.JobInfo.{JobInfo, tasks_with, add_task_index, update_task_status}
use kube_arbitrator.Api.NodeInfo.{NodeInfo, add_task, pipeline_task}
use kube_arbitrator.Cache.Calls.{bind, evict}
use kube_arbitrator.Plugins.Drf
use kube_arbitrator.Framework.Session
use kube_arbitrator.Framework.Session.{EventHandler, drf_handler}

module _ (fl : Drf.Float64) where
  -- The job that `ssn.JobIndex[id]` points to becomes `job`.
  unfoldable pub put_job : Session.Session fl → String → JobInfo → Session.Session fl
  put_job ssn id job = elim (lookup id ssn.job_index) [
    | none ↦ ssn
    | some i ↦ record ssn { jobs = set ssn.jobs i job }
  ]

  -- `ssn.NodeIndex[name]`.
  unfoldable pub node_of : Session.Session fl → String → Option NodeInfo
  node_of ssn name = elim (lookup name ssn.node_index) [
    | none ↦ none
    | some i ↦ get_elem? ssn.nodes i
  ]

  unfoldable pub put_node : Session.Session fl → String → NodeInfo → Session.Session fl
  put_node ssn name ni = elim (lookup name ssn.node_index) [
    | none ↦ ssn
    | some i ↦ record ssn { nodes = set ssn.nodes i ni }
  ]

  -- `job.UpdateTaskStatus(task, status)`, if the job is found.
  unfoldable pub mark_task :
      Session.Session fl → TaskInfo → TaskStatus → Outcome (Session.Session fl × TaskInfo)
  unfolding Session.job_of put_job
  mark_task ssn task status = elim (Session.job_of fl ssn task.job) [
    | none ↦ ok (ssn, task)
    | some job ↦ do
      (job', task', e) ← update_task_status job task status
      ok (put_job ssn task.job job', task')
  ]

  -- What the job shows after `task.NodeName = hostname`.
  unfoldable pub move_task : Session.Session fl → TaskInfo → Session.Session fl
  unfolding Session.job_of put_job
  move_task ssn task = elim (Session.job_of fl ssn task.job) [
    | none ↦ ssn
    | some job ↦
        put_job ssn task.job
          (add_task_index (record job { tasks = insert task.uid task job.tasks }) task)
  ]

  -- What the node shows after a change of the status of a task that it holds.
  unfoldable pub show_on_node : Session.Session fl → TaskInfo → Session.Session fl
  unfolding node_of put_node
  show_on_node ssn task = elim (node_of ssn task.node_name) [
    | none ↦ ssn
    | some ni ↦ elim (lookup (pod_key task.pod) ni.tasks) [
      | none ↦ ssn
      | some held ↦
          put_node ssn task.node_name
            (record ni { tasks = insert (pod_key task.pod) task ni.tasks })
    ]
  ]

  -- The loops that call `AllocateFunc`.
  unfoldable pub fire_allocate :
      Session.Session fl → List EventHandler → TaskInfo → Outcome (Session.Session fl)
  fire_allocate ssn [] task = ok ssn
  fire_allocate ssn (drf_handler ∷ ehs) task = do
    drf ← Drf.on_allocate fl ssn.drf task
    fire_allocate (record ssn { drf = drf }) ehs task

  -- The loop of `Preempt`.
  unfoldable pub fire_preempt :
      Session.Session fl → List EventHandler → TaskInfo → TaskInfo → Outcome (Session.Session fl)
  fire_preempt ssn [] preemptor preemptee = ok ssn
  fire_preempt ssn (drf_handler ∷ ehs) preemptor preemptee = do
    grown ← Drf.on_allocate fl ssn.drf preemptor
    drf ← Drf.on_evict fl grown preemptee
    fire_preempt (record ssn { drf = drf }) ehs preemptor preemptee

  -- `Pipeline`.
  unfoldable pub pipeline : Session.Session fl → TaskInfo → String → Outcome (Session.Session fl)
  unfolding mark_task move_task node_of put_node fire_allocate
  pipeline ssn task hostname = do
    (marked, task') ← mark_task ssn task pipelined_state
    let there : TaskInfo = record task' { node_name = hostname }
    let moved = move_task marked there
    placed ← elim (node_of moved hostname) [
      | none ↦ ok moved
      | some ni ↦ do ni' ← pipeline_task ni there; ok (put_node moved hostname ni')
    ]
    fire_allocate placed placed.event_handlers there

  -- `dispatch`.
  unfoldable pub dispatch :
      Session.Session fl → TaskInfo → Outcome (Session.Session fl × Option Error)
  unfolding mark_task show_on_node
  dispatch ssn task = do
    (sc, e) ← bind ssn.cache task task.node_name
    elim e [
      | some err ↦ ok (record ssn { cache = sc }, some err)
      | none ↦ do
        (marked, task') ← mark_task (record ssn { cache = sc }) task binding_state
        ok (show_on_node marked task', none)
    ]

  -- The loop of `Allocate` over the allocated tasks of the job. `dispatch` takes the visited task
  -- out of the map that is ranged over, and no other, so that the loop visits those that were there
  -- at its start. Errors are not looked at.
  unfoldable pub dispatch_all : Session.Session fl → TasksMap → Outcome (Session.Session fl)
  unfolding dispatch
  dispatch_all ssn [] = ok ssn
  dispatch_all ssn ((uid, task) ∷ ts) = do (ssn', e) ← dispatch ssn task; dispatch_all ssn' ts

  -- `Allocate` up to the test whether the job is ready.
  unfoldable pub assign : Session.Session fl → TaskInfo → String → Outcome (Session.Session fl)
  unfolding mark_task move_task node_of put_node fire_allocate
  assign ssn task hostname = do
    (marked, task') ← mark_task ssn task allocated_state
    let there : TaskInfo = record task' { node_name = hostname }
    let moved = move_task marked there
    placed ← elim (node_of moved hostname) [
      | none ↦ ok moved
      | some ni ↦ do ni' ← add_task ni there; ok (put_node moved hostname ni')
    ]
    fire_allocate placed placed.event_handlers there

  -- `Allocate`. A job that is not in the index is the nil pointer, which is dereferenced.
  unfoldable pub allocate : Session.Session fl → TaskInfo → String → Outcome (Session.Session fl)
  unfolding assign dispatch_all Session.job_of tasks_with
  allocate ssn task hostname = do
    assigned ← assign ssn task hostname
    elim (Session.job_of fl assigned task.job) [
      | none ↦ panic nil_dereference
      | some job ↦
          if Session.job_ready fl assigned job
          then dispatch_all assigned (tasks_with allocated_state job.task_status_index)
          else ok assigned
    ]

  -- `Preempt`.
  unfoldable pub preempt :
      Session.Session fl → TaskInfo → TaskInfo → Outcome (Session.Session fl × Option Error)
  unfolding fire_preempt
  preempt ssn preemptor preemptee = do
    (sc, e) ← evict ssn.cache preemptee
    let evicted : Session.Session fl = record ssn { cache = sc }
    elim e [
      | some err ↦ ok (evicted, some err)
      | none ↦ do
        done ← fire_preempt evicted evicted.event_handlers preemptor preemptee
        ok (done, none)
    ]
