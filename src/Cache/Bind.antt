-- ===== src/Cache/Bind.antt =====
-- What `Bind` of pkg/scheduler/cache/cache.go does where there is room.
use kube_arbitrator.Common.{◌≡◌, refl, [], ◌∷◌, ◌++◌, none, some, String, string_key, ok}
use kube_arbitrator.Common.Map.{lookup, insert, lookup-insert_self}
use kube_arbitrator.Api.Objects.{pod_key}
use kube_arbitrator.Api.Resource.{Resource, add}
use kube_arbitrator.Api.Resource.Order.{Fits}
use kube_arbitrator.Api.Status.{binding as binding_status}
use kube_arbitrator.Api.TaskInfo.{TaskInfo}
use kube_arbitrator.Api.JobInfo.{JobInfo}
use kube_arbitrator.Api.JobInfo.Accounts.{update_task_status-IsAccounted}
use kube_arbitrator.Api.NodeInfo.{NodeInfo}
use kube_arbitrator.Api.NodeInfo.Accounts.{IsBalanced}
use kube_arbitrator.Api.NodeInfo.Changes.{add_task-IsBalanced}
use kube_arbitrator.Cache.Store.{Cache}
use kube_arbitrator.Cache.Calls.{find_job_and_task, bind_to, bind}
use kube_arbitrator.Cache.Sound.{IsSound}

-- In a sound cache, let a task of a job in the cache fit into what a balanced node in the cache has
-- idle, and let no task stand under the key of its pod on that node. Then Bind returns no error and
-- does not panic, it issues the one request to bind the task's pod to that node, and the node
-- stays balanced for its size with the task on it as binding, off whose idle resource the request comes.
pub bind-IsBalanced :
    (cap : Resource) (sc : Cache) (task_info task : TaskInfo) (hostname : String) (job : JobInfo)
    (ni : NodeInfo)
    → IsSound sc
    → lookup task_info.job sc.jobs ≡ some job
    → lookup task_info.uid job.tasks ≡ some task
    → lookup hostname sc.nodes ≡ some ni
    → IsBalanced cap ni
    → lookup (pod_key task.pod) ni.tasks ≡ none
    → Fits task.resreq ni.idle
    → (sc' : Cache) × (ni' : NodeInfo) × (bind sc task_info hostname ≡ ok (sc', none))
      × (sc'.binds ≡ sc.binds ++ (task.pod, hostname) ∷ [])
      × (lookup hostname sc'.nodes ≡ some ni')
      × IsBalanced cap ni'
      × (add ni'.idle task.resreq ≡ ni.idle)
      × (ni'.tasks ≡ insert (pod_key task.pod) (record task { status = binding_status }) ni.tasks)
unfolding bind find_job_and_task bind_to
bind-IsBalanced cap sc task_info task hostname job ni s found_job found_task found_node b absent
      fits =
    let task' : TaskInfo = record task { status = binding_status } in
    let (job', updated, _) =
      update_task_status-IsAccounted job task binding_status
        (s.jobs_ok task_info.job job found_job) in
    let (ni', added, b', idle, tasks) = add_task-IsBalanced cap ni task' b absent (λ e. cc) fits in
    (
      record sc {
        jobs = insert task_info.job job' sc.jobs;
        nodes = insert hostname ni' sc.nodes;
        binds = sc.binds ++ (task.pod, hostname) ∷ [];
      },
      ni',
      rw (found_job, found_task, found_node, updated, added, bind) refl,
      refl,
      lookup-insert_self hostname ni' sc.nodes,
      b',
      idle,
      tasks,
    )
