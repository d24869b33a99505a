-- ===== src/Framework/Frame.antt =====
-- What the session's calls leave alone. A relation between sessions that holds for each of the single
-- changes that the calls are made of holds for the calls. `N` is what a change of a node keeps.
pub mod Places
pub mod Dispatch
use kube_arbitrator.Common.{
  ◌≡◌, refl, ap, subst, List, [], ◌∷◌, Option, none, some, String, string_key, Outcome, ok, panic,
  nil_dereference, ◌>>=◌, >>=-eq-ok, ok_inj, arith, if◌then◌else◌, Option-cases, Bool-cases, inl,
  inr,
}
use kube_arbitrator.Common.Map.{lookup, insert}
use kube_arbitrator.Api.Objects.{pod_key}
use kube_arbitrator.Api.Status.{
  TaskStatus, Error, pipelined, allocated, binding, validate_status_update,
}
use kube_arbitrator.Api.TaskInfo.{TaskInfo, TasksMap}
use kube_arbitrator.Api.JobInfo.{
  JobInfo, update_task_status, add_task_index, add_task_info, delete_task_info, tasks_with,
}
use kube_arbitrator.Api.JobInfo.Owner.{Owns, update_task_status-Owns, add_task_index-Owns}
use kube_arbitrator.Api.NodeInfo.{NodeInfo, add_task, pipeline_task}
use kube_arbitrator.Cache.Store.{Cache}
use kube_arbitrator.Cache.Calls.{bind}
use kube_arbitrator.Plugins.Drf
use kube_arbitrator.Framework.Session
use kube_arbitrator.Framework.Session.{EventHandler, drf_handler}
use kube_arbitrator.Framework.Calls

-- The UID, the candidates and the selector of a job stay, and its tasks name `id` as their job if they did.
abbrev pub SameJob : String → JobInfo → JobInfo → Type 0
SameJob id ps ps' =
    (ps'.uid ≡ ps.uid)
    × (ps'.candidates ≡ ps.candidates)
    × (ps'.node_selector ≡ ps.node_selector)
    × (Owns id ps → Owns id ps')

deleted :
    (ps ps' : JobInfo) (pi : TaskInfo)
    → delete_task_info ps pi ≡ ok ps'
    → (ps'.uid ≡ ps.uid) × (ps'.candidates ≡ ps.candidates) × (ps'.node_selector ≡ ps.node_selector)
unfolding delete_task_info
deleted ps ps' pi h = (ground (arith, h), ground (arith, h), ground (arith, h))

-- `UpdateTaskStatus` does not change these.
update_task_status-SameJob :
    (ps ps' : JobInfo) (task task' : TaskInfo) (s : TaskStatus) (e : Option Error)
    → update_task_status ps task s ≡ ok (ps', task', e)
    → SameJob task.job ps ps'
unfolding update_task_status validate_status_update add_task_info
update_task_status-SameJob ps ps' task task' s e h =
    let (rest, d, h₁) = >>=-eq-ok (delete_task_info ps task) _ h in
    let (u, c, n) = deleted ps rest task d in
    (
      ground (arith, u, h₁),
      ground (arith, c, h₁),
      ground (arith, n, h₁),
      λ own. update_task_status-Owns task.job ps ps' task task' s e refl own h,
    )

-- The changes of a node by the calls: the tasks it shows, and `AddTask` and `PipelineTask`.
pub record IsNodeFrame (N : NodeInfo → NodeInfo → Type 0) : Type 0 where
  pub shown : (ni : NodeInfo) (ts : TasksMap) → N ni (record ni { tasks = ts })
  pub added : (ni ni' : NodeInfo) (task : TaskInfo) → add_task ni task ≡ ok ni' → N ni ni'
  pub piped : (ni ni' : NodeInfo) (task : TaskInfo) → pipeline_task ni task ≡ ok ni' → N ni ni'

-- None of them touches the node object.
abbrev pub SameNode : NodeInfo → NodeInfo → Type 0
SameNode ni ni' = ni'.node ≡ ni.node

pub SameNode-IsNodeFrame : IsNodeFrame SameNode
unfolding add_task pipeline_task
SameNode-IsNodeFrame = record {
  shown = λ ni ts. refl;
  added = λ ni ni' task h. ground (arith, h);
  piped = λ ni ni' task h. ground (arith, h);
}

module _ (fl : Drf.Float64) (N : NodeInfo → NodeInfo → Type 0)
    (R : Session.Session fl → Session.Session fl → Type 0) where
  -- The single changes: a job by one of the same UID, a node, the DRF plugin's data.
  pub record IsFrame : Type 0 where
    pub same : (s : Session.Session fl) → R s s
    pub trans : (s t u : Session.Session fl) → R s t → R t u → R s u
    pub job :
        (s : Session.Session fl) (id : String) (job job' : JobInfo)
        → Session.job_of fl s id ≡ some job
        → SameJob id job job'
        → R s (Calls.put_job fl s id job')
    pub node :
        (s : Session.Session fl) (name : String) (ni ni' : NodeInfo)
        → Calls.node_of fl s name ≡ some ni
        → N ni ni'
        → R s (Calls.put_node fl s name ni')
    pub drf : (s : Session.Session fl) (d : Drf.DrfPlugin fl) → R s (record s { drf = d })

  module _ (frame : IsFrame) where
    marked :
        (s t : Session.Session fl) (task task' : TaskInfo) (status : TaskStatus)
        (found : Option JobInfo)
        → Session.job_of fl s task.job ≡ found
        → ◌≡◌ {A = Outcome (Session.Session fl × TaskInfo)}
            (elim found as (λ o. Outcome (Session.Session fl × TaskInfo)) [
              | none ↦ ok (s, task)
              | some job ↦ update_task_status job task status >>= λ (job', t, e).
                  ok (Calls.put_job fl s task.job job', t)
            ])
            (ok (t, task'))
        → R s t
    marked s t task task' status none at h = subst (R s) (ap (λ r. r.0) (ok_inj h)) (frame.same s)
    marked s t task task' status (some job) at h =
        let ((job', task₁, e), u, rest) = >>=-eq-ok (update_task_status job task status) _ h in
        subst (R s) (ap (λ r. r.0) (ok_inj rest)) (
          frame.job s task.job job job' at
            (update_task_status-SameJob job job' task task₁ status e u))

    pub mark_task-frame :
        (s t : Session.Session fl) (task task' : TaskInfo) (status : TaskStatus)
        → Calls.mark_task fl s task status ≡ ok (t, task')
        → R s t
    unfolding Calls.mark_task
    mark_task-frame s t task task' status h =
        marked s t task task' status (Session.job_of fl s task.job) refl h

    pub move_task-frame :
        (s : Session.Session fl) (task : TaskInfo) → R s (Calls.move_task fl s task)
    unfolding Calls.move_task
    move_task-frame s task = elim (Option-cases (Session.job_of fl s task.job)) [
      | inl e ↦ rw (e, Calls.move_task) (frame.same s)
      | inr (job, e) ↦
          rw (e, Calls.move_task)
            (frame.job s task.job job _ e (
              unfold add_task_index in
              (
                refl,
                refl,
                refl,
                λ own.
                    add_task_index-Owns task.job
                      (record job { tasks = insert task.uid task job.tasks }) task refl own,
              )))
    ]

    pub show_on_node-frame :
        ((ni : NodeInfo) (ts : TasksMap) → N ni (record ni { tasks = ts }))
        → (s : Session.Session fl) (task : TaskInfo) → R s (Calls.show_on_node fl s task)
    unfolding Calls.show_on_node
    show_on_node-frame shown s task = elim (Option-cases (Calls.node_of fl s task.node_name)) [
      | inl e ↦ rw (e, Calls.show_on_node) (frame.same s)
      | inr (ni, e) ↦ elim (Option-cases (lookup (pod_key task.pod) ni.tasks)) [
        | inl l ↦ rw (e, l, Calls.show_on_node) (frame.same s)
        | inr (held, l) ↦
            rw (e, l, Calls.show_on_node) (frame.node s task.node_name ni _ e (shown ni _))
      ]
    ]

    pub fire_allocate-frame :
        (s t : Session.Session fl) (ehs : List EventHandler) (task : TaskInfo)
        → Calls.fire_allocate fl s ehs task ≡ ok t
        → R s t
    unfolding Calls.fire_allocate
    fire_allocate-frame s t [] task h = subst (R s) (ok_inj h) (frame.same s)
    fire_allocate-frame s t (drf_handler ∷ ehs) task h =
        let (d, e, rest) = >>=-eq-ok (Drf.on_allocate fl s.drf task) _ h in
        frame.trans s (record s { drf = d }) t (frame.drf s d)
          (fire_allocate-frame (record s { drf = d }) t ehs task rest)
