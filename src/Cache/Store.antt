-- ===== src/Cache/Store.antt =====
-- The state of `SchedulerCache` in pkg/scheduler/cache/cache.go. The mutex makes each handler and
-- call one step. The requests that `Bind` and `Evict` send to the API server from a goroutine are
-- recorded in the order in which they are issued; their outcome is not read by the source.
use kube_arbitrator.Common.{List, [], Option, none, some, String, string_key, Outcome, ok, ◌>>=◌}
use kube_arbitrator.Common.Map.{Map, lookup}
use kube_arbitrator.Api.Objects.{Pod, Node, SchedulingSpec, PodDisruptionBudget}
use kube_arbitrator.Api.Status.{Error}
use kube_arbitrator.Api.JobInfo.{JobInfo, new_job_info}
use kube_arbitrator.Api.NodeInfo.{NodeInfo, new_node_info}

pub record Cache : Type 0 where
  pub jobs : Map String JobInfo
  pub nodes : Map String NodeInfo
  pub binds : List (Pod × String)
  pub evictions : List Pod

abbrev pub empty_cache : Cache
empty_cache = record { jobs = []; nodes = []; binds = []; evictions = [] }

-- What an informer hands over: `tombstone` is `cache.DeletedFinalStateUnknown`.
pub data Object : Type 0 where
  pod_object : Pod → Object
  node_object : Node → Object
  spec_object : SchedulingSpec → Object
  pdb_object : PodDisruptionBudget → Object
  tombstone : Object → Object
  other_object : Object

-- A call that returns an `error` value leaves the state that it has reached.
abbrev pub Attempt : Type 0
Attempt = Outcome (Cache × Option Error)

-- The handlers log an error and return.
abbrev pub logged : Attempt → Outcome Cache
logged m = do (sc, e) ← m; ok sc

-- `sc.Jobs[id]`, made first where it is missing.
unfoldable pub job_or_new : String → Map String JobInfo → JobInfo
job_or_new id jobs = elim (lookup id jobs) [ none ↦ new_job_info id | some job ↦ job ]

-- `sc.Nodes[name]`, made first where it is missing.
unfoldable pub node_or_new : String → Map String NodeInfo → NodeInfo
unfolding new_node_info
node_or_new name nodes = elim (lookup name nodes) [ none ↦ new_node_info none | some ni ↦ ni ]
