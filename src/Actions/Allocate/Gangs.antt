-- ===== src/Actions/Allocate/Gangs.antt =====
-- The allocate action binds tasks by whole gangs.
use kube_arbitrator.Common.{
  List, ◌++◌, Bool, false, refl, ap, suc, ◌+◌, if◌then◌else◌, Bool-cases, ℕ, ◌≡◌, ◌∙◌, [], ◌∷◌,
  some, true, string_key, ok, arith, ◌⊎◌, inl, inr,
}
use kube_arbitrator.Common.Lists.{length, length-append}
use kube_arbitrator.Common.Map.{Map}
use kube_arbitrator.Common.Int.{pos, leb_ℤ}
use kube_arbitrator.Api.Status.{
  TaskStatus, allocated as allocated_status, binding, bound, running, succeeded, pending,
  pipelined as pipelined_status, releasing, failed, unknown, allocated_status as counts_allocated,
}
use kube_arbitrator.Api.TaskInfo.{TaskInfo, TasksMap}
use kube_arbitrator.Api.JobInfo.{JobInfo}
use kube_arbitrator.Plugins.Gang
use kube_arbitrator.Plugins.Drf
use kube_arbitrator.Queue.{Heap}
use kube_arbitrator.Framework.Session
use kube_arbitrator.Framework.Session.{gang_ready}
use kube_arbitrator.Framework.Commit.{pipeline-cache}
use kube_arbitrator.Framework.Bindings.{
  IsGang, allocate-IsGang, pipeline-ready, allocate-ready, assign-ready,
}
use kube_arbitrator.Actions.Allocate.{execute, values}
use kube_arbitrator.Actions.Allocate.Steps.{
  Place, allocated, pipelined, Places, done, next, execute-Places,
}

-- The statuses of the tasks that a gang needs.
abbrev in_gang : TaskStatus → Bool
in_gang allocated_status = true
in_gang binding = true
in_gang bound = true
in_gang running = true
in_gang succeeded = true
in_gang pending = false
in_gang pipelined_status = false
in_gang releasing = false
in_gang failed = false
in_gang unknown = false

-- The tasks that the index lists under these.
abbrev pub ready_tasks : Map TaskStatus TasksMap → List TaskInfo
ready_tasks [] = []
ready_tasks ((s, ts) ∷ index) =
    if in_gang s then values ts ++ ready_tasks index else ready_tasks index

length-values : (ts : TasksMap) → length (values ts) ≡ length ts
length-values [] = refl
length-values (e ∷ ts) = ap suc (length-values ts)

in_gang_lem : (s : TaskStatus) → Gang.counts_as_ready s ≡ in_gang s
unfolding Gang.counts_as_ready counts_allocated
in_gang_lem s = ground arith

-- The gang plugin counts just these.
count_ready-ready_tasks :
    (n : ℕ) (index : Map TaskStatus TasksMap)
    → Gang.count_ready n index ≡ n + length (ready_tasks index)
unfolding Gang.count_ready
count_ready-ready_tasks n [] = omega arith
count_ready-ready_tasks n ((s, ts) ∷ index) = elim (Bool-cases (in_gang s)) [
  | inl e ↦
      rw (in_gang_lem s, e)
        (omega (
          arith,
          count_ready-ready_tasks (n + length ts) index,
          length-append (values ts) (ready_tasks index),
          length-values ts,
        ))
  | inr e ↦ rw (in_gang_lem s, e) (count_ready-ready_tasks n index)
]

module _ (fl : Drf.Float64) where
  abbrev GangOnly : Session.Session fl → Type 0
  GangOnly s = s.job_ready_fns ≡ gang_ready ∷ []

  -- As many tasks of the job are allocated, binding, bound, running or succeeded as it asks for.
  abbrev pub HasEnough : JobInfo → Type 0
  HasEnough job = leb_ℤ job.min_available (pos (length (ready_tasks job.task_status_index))) ≡ true

  job_ready-HasEnough :
      (s : Session.Session fl) (job : JobInfo)
      → GangOnly s
      → Session.job_ready fl s job ≡ true
      → HasEnough job
  unfolding Session.job_ready Gang.job_ready Gang.ready_task_num
  job_ready-HasEnough s job only h =
      ground (arith, only, h, count_ready-ready_tasks 0 job.task_status_index)

  -- A placement calls `Bind` for nothing, or for all allocated tasks of a job that has enough of them.
  abbrev pub Whole : {s t : Session.Session fl} → Place fl s t → Type 0
  Whole {s} {t} (allocated i k job node task at l n f call) =
      (t.cache ≡ s.cache) ⊎ ((g : IsGang fl s t task node.name) × HasEnough g.job)
  Whole {s} {t} (pipelined i k job node task at l n u f call) = t.cache ≡ s.cache

  abbrev pub AllWhole : {s t : Session.Session fl} → Places fl s t → Type 0
  AllWhole done = Unit
  AllWhole (next p rest) = Whole p × AllWhole rest

  place-Whole : (s t : Session.Session fl) (p : Place fl s t) → GangOnly s → Whole p
  place-Whole s t (allocated i k job node task at l n f call) only =
      elim (allocate-IsGang fl s t task node.name call) [
        | inl same ↦ inl same
        | inr g ↦ inr (
          g,
          job_ready-HasEnough g.assigned g.job
              (assign-ready fl s g.assigned task node.name g.assigns ∙ only) g.is_ready,
        )
      ]
  place-Whole s t (pipelined i k job node task at l n u f call) only =
      pipeline-cache fl s t task node.name call

  place-GangOnly : (s t : Session.Session fl) → Place fl s t → GangOnly s → GangOnly t
  place-GangOnly s t (allocated i k job node task at l n f call) only =
      allocate-ready fl s t task node.name call ∙ only
  place-GangOnly s t (pipelined i k job node task at l n u f call) only =
      pipeline-ready fl s t task node.name call ∙ only

  places-AllWhole : (s t : Session.Session fl) (ps : Places fl s t) → GangOnly s → AllWhole ps
  places-AllWhole s t done only = tt
  places-AllWhole s t (next {t = m} p rest) only =
      (place-Whole s m p only, places-AllWhole m t rest (place-GangOnly s m p only))

module _ (fl : Drf.Float64) (job_heap : Heap ℕ) (task_heap : Heap TaskInfo) where
  -- Gang scheduling: where the allocate action returns on a session in which the gang plugin alone says when
  -- a job is ready, each of its placements has either called `Bind` for no task, or for each task that the job lists as
  -- allocated, at a moment at which the job lists as many tasks as allocated, binding, bound, running or
  -- succeeded as its minimum asks for.
  pub execute-AllWhole :
      (fuel : ℕ) (ssn ssn' : Session.Session fl)
      (returned : execute fl job_heap task_heap fuel ssn ≡ some (ok ssn'))
      → ssn.job_ready_fns ≡ gang_ready ∷ []
      → AllWhole fl (execute-Places fl job_heap task_heap fuel ssn ssn' returned)
  execute-AllWhole fuel ssn ssn' returned only =
      places-AllWhole fl ssn ssn' (execute-Places fl job_heap task_heap fuel ssn ssn' returned) only
