-- ===== src/Actions/Allocate.antt =====
-- The allocate action, pkg/scheduler/actions/allocate/allocate.go. Pointers to jobs and nodes are
-- positions in the session's lists.
pub mod Counts
pub mod Rounds
pub mod Steps
pub mod Ends
pub mod Candidates
pub mod Chosen
pub mod OfJob
pub mod Queued
pub mod Accounts
pub mod Gangs
use kube_arbitrator.Common.{
  ℕ, suc, Bool, true, false, List, [], ◌∷◌, Option, none, some, String, string_key, Outcome, ok,
  panic, nil_dereference, empty_queue, ◌>>=◌, if◌then◌else◌,
}
use kube_arbitrator.Common.Lists.{get_elem?}
use kube_arbitrator.Common.Map.{Map, lookup, insert}
use kube_arbitrator.Common.Loop.{Next, stop, again, loop}
use kube_arbitrator.Api.Resource.{less_equal}
use kube_arbitrator.Api.Status.{pending}
use kube_arbitrator.Api.TaskInfo.{TaskInfo, TasksMap}
use kube_arbitrator.Api.JobInfo.{JobInfo, tasks_with}
use kube_arbitrator.Api.NodeInfo.{NodeInfo}
use kube_arbitrator.Plugins.Drf
use kube_arbitrator.Queue
use kube_arbitrator.Queue.{Heap}
use kube_arbitrator.Framework.Session
use kube_arbitrator.Framework.Calls

-- The positions of a list, from `i` on: what `range` visits of a slice of pointers.
abbrev pub positions {ℓ} : {A : Type ℓ} → ℕ → List A → List ℕ
positions i [] = []
positions i (x ∷ xs) = i ∷ positions (suc i) xs

-- The values of a map, in the order in which `range` visits them.
abbrev pub values : TasksMap → List TaskInfo
values [] = []
values ((k, t) ∷ m) = t ∷ values m

module _ (fl : Drf.Float64) where
  -- What a pointer to a job, or to a node, shows.
  unfoldable pub job_at : Session.Session fl → ℕ → Outcome JobInfo
  job_at ssn i = elim (get_elem? ssn.jobs i) [ none ↦ panic nil_dereference | some job ↦ ok job ]

  unfoldable pub node_at : Session.Session fl → ℕ → Outcome NodeInfo
  node_at ssn k = elim (get_elem? ssn.nodes k) [ none ↦ panic nil_dereference | some ni ↦ ok ni ]

  -- The `lessFn` of the queues: `ssn.JobOrderFn` and `ssn.TaskOrderFn`.
  unfoldable pub job_less : Session.Session fl → ℕ → ℕ → Outcome Bool
  unfolding job_at
  job_less ssn i j = do l ← job_at ssn i; r ← job_at ssn j; Session.job_order_fn fl ssn l r

  abbrev pub task_less : Session.Session fl → TaskInfo → TaskInfo → Outcome Bool
  task_less ssn l r = ok (Session.task_order_fn fl ssn l r)

  -- The nodes for a job: nil candidates stand for all nodes.
  abbrev pub nodes_for : Session.Session fl → JobInfo → List ℕ
  nodes_for ssn job = elim job.candidates [ none ↦ positions 0 ssn.nodes | some ks ↦ ks ]

  -- `assigned = true`, after a call.
  abbrev pub assigned_by : Outcome (Session.Session fl) → Outcome (Session.Session fl × Bool)
  assigned_by call = do ssn ← call; ok (ssn, true)

  -- The loop over the nodes, and whether the task was assigned. `Allocate` and `Pipeline` return no
  -- error, so that the source's `continue` is not reached.
  unfoldable pub try_nodes :
      Session.Session fl → TaskInfo → List ℕ → Outcome (Session.Session fl × Bool)
  unfolding node_at
  try_nodes ssn task [] = ok (ssn, false)
  try_nodes ssn task (k ∷ ks) = do
    node ← node_at ssn k
    let rest = try_nodes ssn task ks
    if less_equal task.resreq node.idle
        then assigned_by (Calls.allocate fl ssn task node.name)
        else (if less_equal task.resreq node.releasing
            then assigned_by (Calls.pipeline fl ssn task node.name)
            else rest)

  -- The variables of the loop.
  pub record Vars : Type 0 where
    pub ssn : Session.Session fl
    pub jobs : List ℕ
    pub pending_tasks : Map String (List TaskInfo)

module _ (fl : Drf.Float64) (job_heap : Heap ℕ) (task_heap : Heap TaskInfo) where
  -- `pendingTasks[job.UID]`, made first where it is missing.
  unfoldable pub tasks_of : Vars fl → JobInfo → Outcome (List TaskInfo)
  unfolding tasks_with
  tasks_of v job = elim (lookup job.uid v.pending_tasks) [
    | some tasks ↦ ok tasks
    | none ↦
        Queue.push_all task_heap (task_less fl v.ssn) (Queue.new_priority_queue task_heap)
          (values (tasks_with pending job.task_status_index))
  ]

  -- A round after the job was popped and its tasks were found: one task at most.
  unfoldable pub place_one :
      Vars fl
      → ℕ
      → JobInfo
      → List TaskInfo
      → Option TaskInfo
      → Outcome (Next (Vars fl) (Session.Session fl))
  unfolding try_nodes job_less
  place_one v i job tasks none =
      ok (again (record v { pending_tasks = insert job.uid tasks v.pending_tasks }))
  place_one v i job tasks (some task) = do
    (ssn, assigned) ← try_nodes fl v.ssn task (nodes_for fl v.ssn job)
    jobs ← if assigned then Queue.push job_heap (job_less fl ssn) v.jobs i else ok v.jobs
    ok (
        again
          (record { ssn = ssn; jobs = jobs; pending_tasks = insert job.uid tasks v.pending_tasks }))

  unfoldable pub take_job : Vars fl → Option ℕ → Outcome (Next (Vars fl) (Session.Session fl))
  unfolding tasks_of place_one
  take_job v none = panic empty_queue
  take_job v (some i) = do
    job ← job_at fl v.ssn i
    tasks ← tasks_of v job
    (task, rest) ← Queue.pop task_heap (task_less fl v.ssn) tasks
    place_one v i job rest task

  unfoldable pub round : Vars fl → Outcome (Next (Vars fl) (Session.Session fl))
  unfolding take_job
  round v = if Queue.empty job_heap v.jobs then ok (stop v.ssn) else do
    (i, jobs) ← Queue.pop job_heap (job_less fl v.ssn) v.jobs
    take_job (record v { jobs = jobs }) i

  -- `Execute`, once the jobs are in their queue.
  unfoldable pub start :
      ℕ → Session.Session fl → Outcome (List ℕ) → Option (Outcome (Session.Session fl))
  unfolding round loop
  start fuel ssn (panic p) = some (panic p)
  start fuel ssn (ok jobs) = loop round fuel (record { ssn = ssn; jobs = jobs; pending_tasks = [] })

  -- `Execute`.
  unfoldable pub execute : ℕ → Session.Session fl → Option (Outcome (Session.Session fl))
  unfolding start job_less
  execute fuel ssn = start fuel ssn (
      Queue.push_all job_heap (job_less fl ssn) (Queue.new_priority_queue job_heap)
        (positions 0 ssn.jobs))
