-- ===== src/Cache/Keep/Calls.antt =====
-- `Bind` and `Evict` keep the cache sound.
use kube_arbitrator.Common.{
  List, [], ◌∷◌, ◌++◌, none, String, string_key, ok, Option-cases, inl, inr,
}
use kube_arbitrator.Common.Map.{lookup, insert}
use kube_arbitrator.Api.Objects.{Pod}
use kube_arbitrator.Api.Status.{binding as binding_status, releasing as releasing_status}
use kube_arbitrator.Api.TaskInfo.{TaskInfo}
use kube_arbitrator.Api.JobInfo.{JobInfo}
use kube_arbitrator.Api.JobInfo.Accounts.{update_task_status-IsAccounted}
use kube_arbitrator.Api.NodeInfo.{NodeInfo, add_task}
use kube_arbitrator.Api.NodeInfo.Accounts.{IsSettled}
use kube_arbitrator.Api.NodeInfo.Settled.{remove_task-IsSettled, add_task-IsSettled}
use kube_arbitrator.Cache.Store.{Cache, logged}
use kube_arbitrator.Cache.Calls.{find_job_and_task, bind_to, bind, evict_from, evict}
use kube_arbitrator.Cache.Sound.{
  JobOk, IsSound, Keeps, Keeps-ok, Keeps-logged, insert_job-IsSound, insert_node-IsSound,
}

-- What is logged as a request changes neither jobs nor nodes.
IsSound-binds :
    {sc : Cache} (bs : List (Pod × String)) → IsSound sc → IsSound (record sc { binds = bs })
IsSound-binds bs s = record {
  jobs_distinct = s.jobs_distinct;
  nodes_distinct = s.nodes_distinct;
  jobs_ok = s.jobs_ok;
  nodes_ok = s.nodes_ok;
}

IsSound-evictions :
    {sc : Cache} (ps : List Pod) → IsSound sc → IsSound (record sc { evictions = ps })
IsSound-evictions ps s = record {
  jobs_distinct = s.jobs_distinct;
  nodes_distinct = s.nodes_distinct;
  jobs_ok = s.jobs_ok;
  nodes_ok = s.nodes_ok;
}

bind_to-Keeps :
    (sc : Cache) (id : String) (job : JobInfo) (task : TaskInfo) (hostname : String) (ni : NodeInfo)
    → IsSound sc
    → JobOk job
    → IsSettled ni
    → Keeps (logged (bind_to sc id job task hostname ni))
unfolding bind_to
bind_to-Keeps sc id job task hostname ni s j n =
    let (job', updated, j') = update_task_status-IsAccounted job task binding_status j in
    let task' : TaskInfo = record task { status = binding_status } in
    let marked : Cache = record sc { jobs = insert id job' sc.jobs } in
    rw updated (
      Keeps-logged (add_task ni task')
        (λ node. ok (
          record marked {
            nodes = insert hostname node marked.nodes;
            binds = marked.binds ++ (task'.pod, hostname) ∷ [];
          },
          none,
        ))
        (λ node e. Keeps-ok (
          IsSound-binds _ (
            insert_node-IsSound hostname (insert_job-IsSound id s j')
              (add_task-IsSettled ni node task' n (λ p. cc) e)))))

pub bind-Keeps :
    (sc : Cache) (task_info : TaskInfo) (hostname : String)
    → IsSound sc
    → Keeps (logged (bind sc task_info hostname))
unfolding bind find_job_and_task
bind-Keeps sc task_info hostname s = elim (Option-cases (lookup task_info.job sc.jobs)) [
  | inl l ↦ rw (l, bind) (Keeps-ok s)
  | inr (job, l) ↦ elim (Option-cases (lookup task_info.uid job.tasks)) [
    | inl t ↦ rw (l, t, bind) (Keeps-ok s)
    | inr (task, t) ↦ elim (Option-cases (lookup hostname sc.nodes)) [
      | inl h ↦ rw (l, t, h, bind) (Keeps-ok s)
      | inr (ni, h) ↦
          rw (l, t, h, bind)
            (bind_to-Keeps sc task_info.job job task hostname ni s (s.jobs_ok task_info.job job l)
              (s.nodes_ok hostname ni h))
    ]
  ]
]

evict_from-Keeps :
    (sc : Cache) (id : String) (job : JobInfo) (task : TaskInfo) (ni : NodeInfo)
    → IsSound sc
    → JobOk job
    → IsSettled ni
    → Keeps (logged (evict_from sc id job task ni))
unfolding evict_from
evict_from-Keeps sc id job task ni s j n =
    let (without, removed, w, _) = remove_task-IsSettled ni task n in
    let (job', updated, j') = update_task_status-IsAccounted job task releasing_status j in
    let task' : TaskInfo = record task { status = releasing_status } in
    let marked : Cache = record sc {
      jobs = insert id job' sc.jobs;
      nodes = insert task.node_name without sc.nodes;
    } in
    rw (removed, updated)
      (Keeps-logged (add_task without task')
        (λ node. ok (
          record marked {
            nodes = insert task.node_name node marked.nodes;
            evictions = marked.evictions ++ task'.pod ∷ [];
          },
          none,
        ))
        (λ node e. Keeps-ok (
          IsSound-evictions _ (
            insert_node-IsSound task.node_name
              (insert_node-IsSound task.node_name (insert_job-IsSound id s j') w)
              (add_task-IsSettled without node task' w (λ p. cc) e)))))

pub evict-Keeps :
    (sc : Cache) (task_info : TaskInfo) → IsSound sc → Keeps (logged (evict sc task_info))
unfolding evict find_job_and_task
evict-Keeps sc task_info s = elim (Option-cases (lookup task_info.job sc.jobs)) [
  | inl l ↦ rw (l, evict) (Keeps-ok s)
  | inr (job, l) ↦ elim (Option-cases (lookup task_info.uid job.tasks)) [
    | inl t ↦ rw (l, t, evict) (Keeps-ok s)
    | inr (task, t) ↦ elim (Option-cases (lookup task.node_name sc.nodes)) [
      | inl h ↦ rw (l, t, h, evict) (Keeps-ok s)
      | inr (ni, h) ↦
          rw (l, t, h, evict)
            (evict_from-Keeps sc task_info.job job task ni s (s.jobs_ok task_info.job job l)
              (s.nodes_ok task.node_name ni h))
    ]
  ]
]
