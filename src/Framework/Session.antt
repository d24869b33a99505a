-- ===== src/Framework/Session.antt =====
-- A session, pkg/scheduler/framework/session.go: a snapshot of the cache with the functions that
-- the plugins have registered. The source registers closures over the session and over the plugin
-- objects. Here a registered function is a constructor that names it, and its state is in the
-- session. Pointers to jobs and nodes are positions in the session's two lists. The session's ID, which
-- is only logged, and `Backlog`, which nothing sets, are left out.
use kube_arbitrator.Common.{
  ℕ, suc, Bool, true, false, List, [], ◌∷◌, ◌++◌, Option, none, some, String, string_key, Outcome,
  ok, ◌>>=◌, text_lt, if◌then◌else◌,
}
use kube_arbitrator.Common.Int.{ℤ, pos, ltb_ℤ, eqb_ℤ}
use kube_arbitrator.Common.Lists.{get_elem?}
use kube_arbitrator.Common.Map.{Map, lookup, insert}
use kube_arbitrator.Api.TaskInfo.{TaskInfo}
use kube_arbitrator.Api.JobInfo.{JobInfo}
use kube_arbitrator.Api.NodeInfo.{NodeInfo}
use kube_arbitrator.Cache.Store.{Cache}
use kube_arbitrator.Cache.Calls.{snapshot}
use kube_arbitrator.Plugins.Priority
use kube_arbitrator.Plugins.Gang
use kube_arbitrator.Plugins.Drf

-- The plugins that pkg/scheduler/factory.go registers.
pub data Plugin : Type 0 where
  priority_plugin gang_plugin drf_plugin : Plugin

pub data TaskOrderFn : Type 0 where
  by_task_priority : TaskOrderFn

pub data JobOrderFn : Type 0 where
  by_job_priority by_gang by_drf : JobOrderFn

pub data PreemptableFn : Type 0 where
  gang_allows drf_allows : PreemptableFn

pub data JobReadyFn : Type 0 where
  gang_ready : JobReadyFn

pub data EventHandler : Type 0 where
  drf_handler : EventHandler

module _ (fl : Drf.Float64) where
  pub record Session : Type 0 where
    pub cache : Cache
    pub jobs : List JobInfo
    pub job_index : Map String ℕ
    pub nodes : List NodeInfo
    pub node_index : Map String ℕ
    pub plugins : List Plugin
    pub drf : Drf.DrfPlugin fl
    pub event_handlers : List EventHandler
    pub job_order_fns : List JobOrderFn
    pub task_order_fns : List TaskOrderFn
    pub preemptable_fns : List PreemptableFn
    pub job_ready_fns : List JobReadyFn

  -- The loops that fill the indices, from position `i` on.
  unfoldable pub index_jobs : ℕ → Map String ℕ → List JobInfo → Map String ℕ
  index_jobs i index [] = index
  index_jobs i index (job ∷ jobs) = index_jobs (suc i) (insert job.uid i index) jobs

  unfoldable pub index_nodes : ℕ → Map String ℕ → List NodeInfo → Map String ℕ
  index_nodes i index [] = index
  index_nodes i index (ni ∷ nodes) = index_nodes (suc i) (insert ni.name i index) nodes

  -- `openSession`.
  unfoldable pub open_session : Cache → Session
  unfolding index_jobs index_nodes snapshot
  open_session sc = record {
    cache = sc;
    jobs = (snapshot sc).jobs;
    job_index = index_jobs 0 [] (snapshot sc).jobs;
    nodes = (snapshot sc).nodes;
    node_index = index_nodes 0 [] (snapshot sc).nodes;
    plugins = [];
    drf = Drf.new_drf fl;
    event_handlers = [];
    job_order_fns = [];
    task_order_fns = [];
    preemptable_fns = [];
    job_ready_fns = [];
  }

  -- `OnSessionOpen` of each plugin, with the session's `Add…Fn` methods.
  abbrev pub open_priority : Session → Session
  open_priority ssn = record ssn {
    task_order_fns = ssn.task_order_fns ++ by_task_priority ∷ [];
    job_order_fns = ssn.job_order_fns ++ by_job_priority ∷ [];
  }

  abbrev pub open_gang : Session → Session
  open_gang ssn = record ssn {
    preemptable_fns = ssn.preemptable_fns ++ gang_allows ∷ [];
    job_order_fns = ssn.job_order_fns ++ by_gang ∷ [];
    job_ready_fns = ssn.job_ready_fns ++ gang_ready ∷ [];
  }

  abbrev pub open_drf : Session → Session
  open_drf ssn = record ssn {
    drf = Drf.on_session_open fl ssn.drf ssn.nodes ssn.jobs;
    preemptable_fns = ssn.preemptable_fns ++ drf_allows ∷ [];
    job_order_fns = ssn.job_order_fns ++ by_drf ∷ [];
    event_handlers = ssn.event_handlers ++ drf_handler ∷ [];
  }

  -- The call of `plugin.OnSessionOpen` in `OpenSession`.
  unfoldable pub on_session_open : Session → Plugin → Session
  unfolding Drf.on_session_open
  on_session_open ssn priority_plugin = open_priority ssn
  on_session_open ssn gang_plugin = open_gang ssn
  on_session_open ssn drf_plugin = open_drf ssn

  unfoldable pub open_plugins : Session → List Plugin → Session
  unfolding on_session_open
  open_plugins ssn [] = ssn
  open_plugins ssn (p ∷ ps) = open_plugins (on_session_open ssn p) ps

  -- `OpenSession`, for the registered plugin builders.
  unfoldable pub open_with : Cache → List Plugin → Session
  unfolding open_session open_plugins
  open_with sc builders =
      let ssn : Session = open_session sc in
      open_plugins (record ssn { plugins = builders }) builders

  -- `ssn.JobIndex[id]`.
  unfoldable pub job_of : Session → String → Option JobInfo
  job_of ssn id = elim (lookup id ssn.job_index) [ none ↦ none | some i ↦ get_elem? ssn.jobs i ]

  -- A registered job order function.
  unfoldable pub compare_jobs : Session → JobOrderFn → JobInfo → JobInfo → Outcome ℤ
  compare_jobs ssn by_job_priority l r = ok (Priority.job_order l r)
  compare_jobs ssn by_gang l r = ok (Gang.job_order l r)
  compare_jobs ssn by_drf l r = Drf.job_order fl ssn.drf l r

  -- `JobOrderFn`.
  unfoldable pub order_jobs : Session → List JobOrderFn → JobInfo → JobInfo → Outcome Bool
  order_jobs ssn [] l r = ok (text_lt l.uid r.uid)
  order_jobs ssn (jof ∷ fns) l r = do
    j ← compare_jobs ssn jof l r
    let rest = order_jobs ssn fns l r
    if eqb_ℤ j (pos 0) then rest else ok (ltb_ℤ j (pos 0))

  unfoldable pub job_order_fn : Session → JobInfo → JobInfo → Outcome Bool
  unfolding order_jobs compare_jobs
  job_order_fn ssn l r = order_jobs ssn ssn.job_order_fns l r

  -- A registered task order function.
  unfoldable pub compare_tasks : TaskOrderFn → TaskInfo → TaskInfo → ℤ
  compare_tasks by_task_priority l r = Priority.task_order l r

  -- `TaskOrderFn`.
  unfoldable pub order_tasks : List TaskOrderFn → TaskInfo → TaskInfo → Bool
  order_tasks [] l r = text_lt l.uid r.uid
  order_tasks (tof ∷ fns) l r =
      let rest = order_tasks fns l r in
      let j = compare_tasks tof l r in if eqb_ℤ j (pos 0) then rest else ltb_ℤ j (pos 0)

  unfoldable pub task_order_fn : Session → TaskInfo → TaskInfo → Bool
  unfolding order_tasks compare_tasks
  task_order_fn ssn l r = order_tasks ssn.task_order_fns l r

  -- A registered preemptable function.
  unfoldable pub allows : Session → PreemptableFn → TaskInfo → TaskInfo → Outcome Bool
  unfolding job_of
  allows ssn gang_allows preemptor preemptee = Gang.preemptable (job_of ssn preemptee.job)
  allows ssn drf_allows preemptor preemptee = Drf.preemptable fl ssn.drf preemptor preemptee

  -- The loop of `Preemptable`.
  unfoldable pub all_allow : Session → List PreemptableFn → TaskInfo → TaskInfo → Outcome Bool
  all_allow ssn [] preemptor preemptee = ok true
  all_allow ssn (fn ∷ fns) preemptor preemptee = do
    good ← allows ssn fn preemptor preemptee
    let rest = all_allow ssn fns preemptor preemptee
    if good then rest else ok false

  -- `Preemptable`.
  unfoldable pub preemptable : Session → TaskInfo → TaskInfo → Outcome Bool
  unfolding all_allow
  preemptable ssn preemptor preemptee = elim ssn.preemptable_fns [
    | [] ↦ ok false
    | fn ∷ fns ↦ all_allow ssn ssn.preemptable_fns preemptor preemptee
  ]

  -- `JobReady`.
  unfoldable pub all_ready : List JobReadyFn → JobInfo → Bool
  all_ready [] job = true
  all_ready (gang_ready ∷ fns) job =
      let rest = all_ready fns job in if Gang.job_ready job then rest else false

  unfoldable pub job_ready : Session → JobInfo → Bool
  unfolding all_ready
  job_ready ssn job = all_ready ssn.job_ready_fns job

  -- `CloseSession`: the plugins clean up, and `closeSession` drops the session's data. It leaves
  -- the task order, preemptable and ready functions.
  unfoldable pub close_session : Session → Session
  close_session ssn = record ssn {
    drf = Drf.on_session_close fl ssn.drf;
    jobs = [];
    job_index = [];
    nodes = [];
    node_index = [];
    plugins = [];
    event_handlers = [];
    job_order_fns = [];
  }
