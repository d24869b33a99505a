-- ===== src/Framework/Commit.antt =====
-- What the session's calls send to the cache.
use kube_arbitrator.Common.{false, ◌≡◌, refl, ◌∙◌, some, String, string_key, ok, arith}
use kube_arbitrator.Api.Status.{TaskStatus}
use kube_arbitrator.Api.TaskInfo.{TaskInfo}
use kube_arbitrator.Api.JobInfo.{JobInfo}
use kube_arbitrator.Api.NodeInfo.{NodeInfo}
use kube_arbitrator.Plugins.Drf
use kube_arbitrator.Framework.Session
use kube_arbitrator.Framework.Session.{EventHandler, drf_handler}
use kube_arbitrator.Framework.Calls
use kube_arbitrator.Framework.Frame.{IsFrame, SameNode, SameNode-IsNodeFrame, mark_task-frame}
use kube_arbitrator.Framework.Frame.Places.{pipeline-frame, assign-frame}

module _ (fl : Drf.Float64) where
  pub put_job-cache :
      (ssn : Session.Session fl) (id : String) (job : JobInfo)
      → (Calls.put_job fl ssn id job).cache ≡ ssn.cache
  unfolding Calls.put_job
  put_job-cache ssn id job = ground arith

  pub put_node-cache :
      (ssn : Session.Session fl) (name : String) (ni : NodeInfo)
      → (Calls.put_node fl ssn name ni).cache ≡ ssn.cache
  unfolding Calls.put_node
  put_node-cache ssn name ni = ground arith

  abbrev pub SameCache : Session.Session fl → Session.Session fl → Type 0
  SameCache s t = t.cache ≡ s.cache

  pub cache-IsFrame : IsFrame fl SameNode SameCache
  cache-IsFrame = record {
    same = λ s. refl;
    trans = λ s t u h k. k ∙ h;
    job = λ s id job job' at e. put_job-cache s id job';
    node = λ s name ni ni' at e. put_node-cache s name ni';
    drf = λ s d. refl;
  }

  pub mark_task-cache :
      (ssn ssn' : Session.Session fl) (task task' : TaskInfo) (status : TaskStatus)
      → Calls.mark_task fl ssn task status ≡ ok (ssn', task')
      → ssn'.cache ≡ ssn.cache
  mark_task-cache = mark_task-frame fl SameNode SameCache cache-IsFrame

  -- Where `Pipeline` returns, it has not touched the cache: a pipelined task is bound to nothing.
  pub pipeline-cache :
      (ssn ssn' : Session.Session fl) (task : TaskInfo) (hostname : String)
      → Calls.pipeline fl ssn task hostname ≡ ok ssn'
      → ssn'.cache ≡ ssn.cache
  pipeline-cache = pipeline-frame fl SameNode SameCache cache-IsFrame SameNode-IsNodeFrame

  pub assign-cache :
      (ssn ssn' : Session.Session fl) (task : TaskInfo) (hostname : String)
      → Calls.assign fl ssn task hostname ≡ ok ssn'
      → ssn'.cache ≡ ssn.cache
  assign-cache = assign-frame fl SameNode SameCache cache-IsFrame SameNode-IsNodeFrame

  -- Gang scheduling: where the assignment of a task leaves its job short of being ready, `Allocate`
  -- returns the session with the task assigned, and has not touched the cache. No task of the job is
  -- bound.
  pub allocate-unready :
      (ssn assigned : Session.Session fl) (task : TaskInfo) (hostname : String) (job : JobInfo)
      → Calls.assign fl ssn task hostname ≡ ok assigned
      → Session.job_of fl assigned task.job ≡ some job
      → Session.job_ready fl assigned job ≡ false
      → (Calls.allocate fl ssn task hostname ≡ ok assigned) × (assigned.cache ≡ ssn.cache)
  unfolding Calls.allocate
  allocate-unready ssn assigned task hostname job a j unready =
      (ground (arith, a, j, unready), assign-cache ssn assigned task hostname a)
