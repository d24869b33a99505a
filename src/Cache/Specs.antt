-- ===== src/Cache/Specs.antt =====
-- The handlers for scheduling specs and pod disruption budgets of
-- pkg/scheduler/cache/event_handlers.go.
use kube_arbitrator.Common.{
  [], ◌∷◌, Option, none, some, string_key, Outcome, ok, ◌>>=◌, text_is_empty, if◌then◌else◌,
}
use kube_arbitrator.Common.Map.{lookup, insert, remove}
use kube_arbitrator.Api.Objects.{SchedulingSpec, PodDisruptionBudget, get_controller}
use kube_arbitrator.Api.Status.{no_job, no_controller}
use kube_arbitrator.Api.TaskInfo.{TasksMap}
use kube_arbitrator.Api.JobInfo.{set_scheduling_spec, set_pdb}
use kube_arbitrator.Cache.Store.{
  Cache, Attempt, logged, Object, spec_object, pdb_object, tombstone, job_or_new,
}
use kube_arbitrator.Cache.Pods.{delete_from_node}

-- `setSchedulingSpec`.
unfoldable pub store_spec : Cache → SchedulingSpec → Attempt
unfolding get_controller job_or_new
store_spec sc ss =
    let job = get_controller ss.owner in
    if text_is_empty job
    then ok (sc, some no_controller)
    else ok (
      record sc { jobs = insert job (set_scheduling_spec (job_or_new job sc.jobs) ss) sc.jobs },
      none,
    )

-- `updateSchedulingSpec`.
unfoldable pub update_spec : Cache → SchedulingSpec → SchedulingSpec → Attempt
unfolding store_spec
update_spec sc old_spec new_spec = store_spec sc new_spec

-- The loop of `deleteSchedulingSpec` over the job's tasks.
unfoldable pub evacuate : Cache → TasksMap → Outcome Cache
unfolding delete_from_node
evacuate sc [] = ok sc
evacuate sc ((k, task) ∷ ts) = do sc' ← delete_from_node sc task; evacuate sc' ts

-- `deleteSchedulingSpec`.
unfoldable pub delete_spec : Cache → SchedulingSpec → Attempt
unfolding get_controller evacuate
delete_spec sc ss = elim (lookup (get_controller ss.owner) sc.jobs) [
  | none ↦ ok (sc, some no_job)
  | some job ↦ do
    sc' ← evacuate sc job.tasks
    ok (record sc' { jobs = remove (get_controller ss.owner) sc'.jobs }, none)
]

-- `setPDB`.
unfoldable pub store_pdb : Cache → PodDisruptionBudget → Attempt
unfolding get_controller job_or_new
store_pdb sc pdb =
    let job = get_controller pdb.owner in
    if text_is_empty job then ok (sc, some no_controller) else do
      job' ← set_pdb (job_or_new job sc.jobs) pdb
      ok (record sc { jobs = insert job job' sc.jobs }, none)

-- `updatePDB`.
unfoldable pub update_pdb : Cache → PodDisruptionBudget → PodDisruptionBudget → Attempt
unfolding store_pdb
update_pdb sc old_pdb new_pdb = store_pdb sc new_pdb

-- `deletePDB`, which does nothing.
unfoldable pub delete_pdb : Cache → PodDisruptionBudget → Attempt
delete_pdb sc pdb = ok (sc, none)

abbrev pub as_spec : Object → Option SchedulingSpec
as_spec (spec_object ss) = some ss
as_spec _ = none

abbrev pub deleted_spec : Object → Option SchedulingSpec
deleted_spec (spec_object ss) = some ss
deleted_spec (tombstone obj) = as_spec obj
deleted_spec _ = none

abbrev pub as_pdb : Object → Option PodDisruptionBudget
as_pdb (pdb_object pdb) = some pdb
as_pdb _ = none

abbrev pub deleted_pdb : Object → Option PodDisruptionBudget
deleted_pdb (pdb_object pdb) = some pdb
deleted_pdb (tombstone obj) = as_pdb obj
deleted_pdb _ = none

-- `AddSchedulingSpec`.
unfoldable pub handle_add_spec : Cache → Object → Outcome Cache
unfolding store_spec
handle_add_spec sc obj = elim (as_spec obj) [ none ↦ ok sc | some ss ↦ logged (store_spec sc ss) ]

-- `UpdateSchedulingSpec`.
unfoldable pub handle_update_spec : Cache → Object → Object → Outcome Cache
unfolding update_spec
handle_update_spec sc old_obj new_obj = elim (as_spec old_obj) [
  | none ↦ ok sc
  | some old_spec ↦ elim (as_spec new_obj) [
    | none ↦ ok sc
    | some new_spec ↦ logged (update_spec sc old_spec new_spec)
  ]
]

-- `DeleteSchedulingSpec`.
unfoldable pub handle_delete_spec : Cache → Object → Outcome Cache
unfolding delete_spec
handle_delete_spec sc obj = elim (deleted_spec obj) [
  | none ↦ ok sc
  | some ss ↦ logged (delete_spec sc ss)
]

-- `AddPDB`.
unfoldable pub handle_add_pdb : Cache → Object → Outcome Cache
unfolding store_pdb
handle_add_pdb sc obj = elim (as_pdb obj) [ none ↦ ok sc | some pdb ↦ logged (store_pdb sc pdb) ]

-- `UpdatePDB`.
unfoldable pub handle_update_pdb : Cache → Object → Object → Outcome Cache
unfolding update_pdb
handle_update_pdb sc old_obj new_obj = elim (as_pdb old_obj) [
  | none ↦ ok sc
  | some old_pdb ↦ elim (as_pdb new_obj) [
    | none ↦ ok sc
    | some new_pdb ↦ logged (update_pdb sc old_pdb new_pdb)
  ]
]

-- `DeletePDB`.
unfoldable pub handle_delete_pdb : Cache → Object → Outcome Cache
unfolding delete_pdb
handle_delete_pdb sc obj = elim (deleted_pdb obj) [
  | none ↦ ok sc
  | some pdb ↦ logged (delete_pdb sc pdb)
]
