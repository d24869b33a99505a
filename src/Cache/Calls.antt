-- ===== src/Cache/Calls.antt =====
-- `Evict`, `Bind` and `Snapshot` of pkg/scheduler/cache/cache.go, the two calls for a task that no node holds,
-- or only the one that `Evict` takes it from.
use kube_arbitrator.Common.{List, [], ◌∷◌, ◌++◌, none, some, String, string_key, ok, ◌>>=◌}
use kube_arbitrator.Common.Map.{Map, lookup, insert}
use kube_arbitrator.Api.Status.{
  Error, no_job, no_task, no_host, binding as binding_status, releasing as releasing_status,
}
use kube_arbitrator.Api.TaskInfo.{TaskInfo}
use kube_arbitrator.Api.JobInfo.{JobInfo, update_task_status, clone as clone_job}
use kube_arbitrator.Api.NodeInfo.{NodeInfo, add_task, remove_task, clone as clone_node}
use kube_arbitrator.Cache.Store.{Cache, Attempt}

-- The results of `findJobAndTask`.
pub data Found : Type 0 where
  found : JobInfo → TaskInfo → Found
  missing : Error → Found

-- `findJobAndTask`.
unfoldable pub find_job_and_task : Cache → TaskInfo → Found
find_job_and_task sc task_info = elim (lookup task_info.job sc.jobs) [
  | none ↦ missing no_job
  | some job ↦ elim (lookup task_info.uid job.tasks) [
    | none ↦ missing no_task
    | some task ↦ found job task
  ]
]

-- `Evict` after the lookups: the task leaves the node, is marked, and comes back as releasing.
-- The source returns between the two steps on the nodes if the status change fails. The status changes in
-- place: what other nodes that hold the task show of it is in `Cache/InPlace`.
unfoldable pub evict_from : Cache → String → JobInfo → TaskInfo → NodeInfo → Attempt
evict_from sc job_id job task node = do
  without ← remove_task node task
  (job', task', e) ← update_task_status job task releasing_status
  let marked = record sc {
    jobs = insert job_id job' sc.jobs;
    nodes = insert task.node_name without sc.nodes;
  }
  elim e [
    | some err ↦ ok (marked, some err)
    | none ↦ do
      node' ← add_task without task'
      ok (
        record marked {
          nodes = insert task.node_name node' marked.nodes;
          evictions = marked.evictions ++ task'.pod ∷ [];
        },
        none,
      )
  ]

-- `Evict`.
unfoldable pub evict : Cache → TaskInfo → Attempt
unfolding find_job_and_task evict_from
evict sc task_info = elim (find_job_and_task sc task_info) [
  | missing e ↦ ok (sc, some e)
  | found job task ↦ elim (lookup task.node_name sc.nodes) [
    | none ↦ ok (sc, some no_host)
    | some node ↦ evict_from sc task_info.job job task node
  ]
]

-- `Bind` after the lookups. The status changes in place: what nodes that hold the task already show of it is
-- in `Cache/InPlace`.
unfoldable pub bind_to : Cache → String → JobInfo → TaskInfo → String → NodeInfo → Attempt
bind_to sc job_id job task hostname node = do
  (job', task', e) ← update_task_status job task binding_status
  let marked = record sc { jobs = insert job_id job' sc.jobs }
  elim e [
    | some err ↦ ok (marked, some err)
    | none ↦ do
      node' ← add_task node task'
      ok (
        record marked {
          nodes = insert hostname node' marked.nodes;
          binds = marked.binds ++ (task'.pod, hostname) ∷ [];
        },
        none,
      )
  ]

-- `Bind`.
unfoldable pub bind : Cache → TaskInfo → String → Attempt
unfolding find_job_and_task bind_to
bind sc task_info hostname = elim (find_job_and_task sc task_info) [
  | missing e ↦ ok (sc, some e)
  | found job task ↦ elim (lookup hostname sc.nodes) [
    | none ↦ ok (sc, some no_host)
    | some node ↦ bind_to sc task_info.job job task hostname node
  ]
]

-- `ClusterInfo` of pkg/scheduler/api/cluster_info.go.
pub record ClusterInfo : Type 0 where
  pub jobs : List JobInfo
  pub nodes : List NodeInfo

unfoldable pub clone_nodes : Map String NodeInfo → List NodeInfo
clone_nodes [] = []
clone_nodes ((n, value) ∷ m) = clone_node value ∷ clone_nodes m

-- A job without a scheduling spec and a disruption budget is left out.
unfoldable pub clone_jobs : Map String JobInfo → List JobInfo
clone_jobs [] = []
clone_jobs ((id, value) ∷ m) =
    let rest = clone_jobs m in
    elim value.sched_spec [
      | some s ↦ clone_job value ∷ rest
      | none ↦ elim value.pdb [ some p ↦ clone_job value ∷ rest | none ↦ rest ]
    ]

-- `Snapshot`.
unfoldable pub snapshot : Cache → ClusterInfo
unfolding clone_nodes clone_jobs
snapshot sc = record { nodes = clone_nodes sc.nodes; jobs = clone_jobs sc.jobs }
