-- ===== src/Plugins/Drf.antt =====
-- The dominant resource fairness plugin, pkg/scheduler/plugins/drf/drf.go, over an abstract
-- float64, since shares are quotients that float64 rounds.
pub mod Laws
use kube_arbitrator.Common.{
  ℕ, Bool, true, false, ◌||◌, List, [], ◌∷◌, Option, none, some, String, string_key, Outcome, ok,
  panic, nil_dereference, ◌>>=◌, if◌then◌else◌, foldl,
}
use kube_arbitrator.Common.Int.{ℤ, pos, negsuc}
use kube_arbitrator.Common.Map.{Map, lookup, insert}
use kube_arbitrator.Api.Resource.{
  Resource, ResourceName, empty_resource, add, sub, get, resource_names, clone as clone_resource,
}
use kube_arbitrator.Api.Status.{TaskStatus, allocated_status}
use kube_arbitrator.Api.TaskInfo.{TaskInfo, TasksMap}
use kube_arbitrator.Api.JobInfo.{JobInfo}
use kube_arbitrator.Api.NodeInfo.{NodeInfo}

-- What the plugin uses of Go's float64, `0` and `0.000001` (`shareDelta`) among it. The laws are
-- the ones that the theorems need: equality of zero with itself, as of every float but NaN.
pub record Float64 : Type 1 where
  pub F : Type 0
  pub from_ℕ : ℕ → F
  pub div : F → F → F
  pub minus : F → F → F
  pub abs : F → F
  pub lt : F → F → Bool
  pub le : F → F → Bool
  pub eq : F → F → Bool
  pub share_delta : F
  pub eq_zero : Path Bool (eq (from_ℕ 0) (from_ℕ 0)) true

module _ (fl : Float64) where
  open fl use {F, from_ℕ, div, minus, abs, lt, le, eq, share_delta}

  -- `drfAttr`.
  pub record DrfAttr : Type 0 where
    pub share : F
    pub dominant_resource : String
    pub allocated : Resource

  -- `drfPlugin`. The map holds pointers in the source; each is reached through the map only.
  pub record DrfPlugin : Type 0 where
    pub total_resource : Resource
    pub job_opts : Map String DrfAttr

  -- `New`.
  abbrev pub new_drf : DrfPlugin
  new_drf = record { total_resource = empty_resource; job_opts = [] }

  -- The loop of `calculateShare`.
  unfoldable pub largest_share : List ResourceName → F → Resource → Resource → Outcome F
  largest_share [] res allocated total = ok res
  largest_share (rn ∷ rns) res allocated total = do
    a ← get allocated rn
    t ← get total rn
    let share = div (from_ℕ a) (from_ℕ t)
    largest_share rns (if lt res share then share else res) allocated total

  -- `calculateShare`.
  unfoldable pub calculate_share : Resource → Resource → Outcome F
  unfolding largest_share
  calculate_share allocated total = largest_share resource_names (from_ℕ 0) allocated total

  -- `updateShare`.
  unfoldable pub update_share : DrfPlugin → DrfAttr → Outcome DrfAttr
  update_share drf attr = do
    share ← calculate_share attr.allocated drf.total_resource
    ok (record attr { share = share })

  -- The inner loops of `OnSessionOpen`.
  unfoldable pub add_tasks : Resource → TasksMap → Resource
  add_tasks r [] = r
  add_tasks r ((k, t) ∷ ts) = add_tasks (add r t.resreq) ts

  unfoldable pub add_allocated : Resource → Map TaskStatus TasksMap → Resource
  unfolding add_tasks
  add_allocated r [] = r
  add_allocated r ((status, ts) ∷ index) =
      add_allocated (if allocated_status status then add_tasks r ts else r) index

  -- The loops of `OnSessionOpen` over the nodes and the jobs. The share of a new `drfAttr` is the
  -- zero value.
  unfoldable pub add_nodes : Resource → List NodeInfo → Resource
  add_nodes r [] = r
  add_nodes r (n ∷ ns) = add_nodes (add r n.allocatable) ns

  unfoldable pub add_jobs : Map String DrfAttr → List JobInfo → Map String DrfAttr
  unfolding add_allocated
  add_jobs opts [] = opts
  add_jobs opts (job ∷ jobs) =
      add_jobs
        (insert job.uid
          (record {
            share = from_ℕ 0;
            dominant_resource = "";
            allocated = add_allocated empty_resource job.task_status_index;
          })
          opts)
        jobs

  -- The data part of `OnSessionOpen`.
  unfoldable pub on_session_open : DrfPlugin → List NodeInfo → List JobInfo → DrfPlugin
  unfolding add_nodes add_jobs
  on_session_open drf nodes jobs = record {
    total_resource = add_nodes drf.total_resource nodes;
    job_opts = add_jobs drf.job_opts jobs;
  }

  -- A missing key reads as the nil pointer, which the code dereferences.
  unfoldable pub attr_of : DrfPlugin → String → Outcome DrfAttr
  attr_of drf id = elim (lookup id drf.job_opts) [
    | none ↦ panic nil_dereference
    | some attr ↦ ok attr
  ]

  -- The preemptable function.
  unfoldable pub preemptable : DrfPlugin → TaskInfo → TaskInfo → Outcome Bool
  unfolding attr_of calculate_share
  preemptable drf lv rv = do
    latt ← attr_of drf lv.job
    ratt ← attr_of drf rv.job
    let lalloc = add (clone_resource latt.allocated) lv.resreq
    ralloc ← sub (clone_resource ratt.allocated) rv.resreq
    ls ← calculate_share lalloc drf.total_resource
    rs ← calculate_share ralloc drf.total_resource
    ok (lt ls rs || le (abs (minus ls rs)) share_delta)

  -- The job order function.
  unfoldable pub job_order : DrfPlugin → JobInfo → JobInfo → Outcome ℤ
  unfolding attr_of
  job_order drf lv rv = do
    l ← attr_of drf lv.uid
    r ← attr_of drf rv.uid
    ok (if eq l.share r.share then pos 0 else (if lt l.share r.share then negsuc 0 else pos 1))

  -- `AllocateFunc` of the event handler.
  unfoldable pub on_allocate : DrfPlugin → TaskInfo → Outcome DrfPlugin
  on_allocate drf task = do
    attr ← attr_of drf task.job
    attr' ← update_share drf (record attr { allocated = add attr.allocated task.resreq })
    ok (record drf { job_opts = insert task.job attr' drf.job_opts })

  -- `EvictFunc` of the event handler.
  unfoldable pub on_evict : DrfPlugin → TaskInfo → Outcome DrfPlugin
  on_evict drf task = do
    attr ← attr_of drf task.job
    allocated ← sub attr.allocated task.resreq
    attr' ← update_share drf (record attr { allocated = allocated })
    ok (record drf { job_opts = insert task.job attr' drf.job_opts })

  -- `OnSessionClose`.
  abbrev pub on_session_close : DrfPlugin → DrfPlugin
  on_session_close drf = new_drf
