-- ===== src/Plugins/Gang/Laws.antt =====
-- What the gang plugin counts, and what its preemptable function protects.
use kube_arbitrator.Common.{
  ℕ, zero, suc, ◌+◌, ◌≡◌, ◌↔◌, refl, ap, ◌∙◌, true, [], ◌∷◌, none, some, string_key, ok, ok_inj,
  arith, if◌then◌else◌,
}
use kube_arbitrator.Common.Int.{ℤ, pos, negsuc, leb_ℤ, pred_ℤ}
use kube_arbitrator.Common.Lists.{length}
use kube_arbitrator.Common.Map.{Map, lookup, insert, length-insert}
use kube_arbitrator.Api.Resource.{Resource}
use kube_arbitrator.Api.Status.{TaskStatus, TaskStatus_discrete, status_key}
use kube_arbitrator.Api.TaskInfo.{TaskInfo, TasksMap}
use kube_arbitrator.Api.Requested.{Distinct}
use kube_arbitrator.Api.JobInfo.{JobInfo, tasks_with, add_task_index, add_task_info, clone}
use kube_arbitrator.Api.JobInfo.Invariant.{IsConsistent, with_status}
use kube_arbitrator.Api.JobInfo.Clone.{Keyed, weigh, clone-weigh}
use kube_arbitrator.Plugins.Gang.{
  counts_as_ready, count_ready, ready_task_num, job_ready, preemptable,
}

count_ready-add :
    (n : ℕ) (index : Map TaskStatus TasksMap) → count_ready n index ≡ n + count_ready 0 index
unfolding count_ready
count_ready-add n [] = omega arith
count_ready-add n ((s, ts) ∷ index) = ground (
  arith,
  count_ready-add (n + length ts) index,
  count_ready-add n index,
  count_ready-add (0 + length ts) index,
)

-- Another inner map for a status changes the count by the difference in size.
count_ready-insert :
    (s : TaskStatus) (ts : TasksMap) (index : Map TaskStatus TasksMap)
    → count_ready 0 (insert s ts index)
        + (if counts_as_ready s then length (tasks_with s index) else 0)
      ≡ count_ready 0 index + (if counts_as_ready s then length ts else 0)
unfolding count_ready insert tasks_with lookup
count_ready-insert s ts [] = ground arith
count_ready-insert s ts ((s', old) ∷ index) = elim (TaskStatus_discrete s' s) [
  | yes same ↦
      ground
        (arith, same, count_ready-add (0 + length ts) index, count_ready-add (0 + length old) index)
  | no other ↦ ground (
    arith,
    other,
    count_ready-insert s ts index,
    count_ready-add (0 + length old) index,
    count_ready-add (0 + length old) (insert s ts index),
  )
]

-- One if the task counts as ready.
abbrev pub one_if_ready : TaskInfo → ℕ
one_if_ready t = if counts_as_ready t.status then 1 else 0

ready_task_num-add :
    (x y : Resource) (job : JobInfo) (t : TaskInfo)
    → IsConsistent x y job
    → lookup t.uid job.tasks ≡ none
    → ready_task_num (add_task_info job t) ≡ ready_task_num job + one_if_ready t
unfolding ready_task_num add_task_info add_task_index
ready_task_num-add x y job t c absent =
    let ts = tasks_with t.status job.task_status_index in
    ground (
      arith,
      count_ready-insert t.status (insert t.uid t ts) job.task_status_index,
      length-insert t.uid t ts (c.index t.status t.uid ∙ ap (with_status t.status) absent),
    )

ready_task_num-none : (job : JobInfo) → job.task_status_index ≡ [] → ready_task_num job ≡ 0
unfolding ready_task_num count_ready
ready_task_num-none job e = rw e

-- In a snapshot's job `readyTaskNum`, which adds up the sizes of the index, is the number of the
-- job's tasks that are allocated, binding, bound, running or succeeded.
pub ready_task_num-clone :
    (job : JobInfo)
    → Distinct job.tasks
    → Keyed job.tasks
    → ready_task_num (clone job) ≡ weigh one_if_ready job.tasks
ready_task_num-clone =
    clone-weigh ready_task_num one_if_ready ready_task_num-add ready_task_num-none

stays_ready :
    (m : ℤ) (n n' : ℕ)
    → n' + 1 ≡ n
    → (leb_ℤ m (pred_ℤ n) ≡ true) ↔ ((leb_ℤ m (pos n) ≡ true) × (leb_ℤ m (pos n') ≡ true))
stays_ready m zero n' e = absurd (omega arith)
stays_ready (pos m) (suc n) n' e = (λ h. (ground arith, ground arith), λ h. ground arith)
stays_ready (negsuc m) (suc n) n' e = (λ h. (ground arith, ground arith), λ h. ground arith)

preemptable-ready :
    (job : JobInfo)
    → preemptable (some job) ≡ ok (leb_ℤ job.min_available (pred_ℤ (ready_task_num job)))
unfolding preemptable
preemptable-ready job = refl

job_ready_lem : (job : JobInfo) → job_ready job ≡ leb_ℤ job.min_available (pos (ready_task_num job))
unfolding job_ready
job_ready_lem job = refl

-- The plugin gives a preemptee up exactly when its job is ready and would still be ready with one
-- ready task less.
pub preemptable_iff :
    (job job' : JobInfo)
    → job'.min_available ≡ job.min_available
    → ready_task_num job' + 1 ≡ ready_task_num job
    → (preemptable (some job) ≡ ok true) ↔ ((job_ready job ≡ true) × (job_ready job' ≡ true))
unfolding ready_task_num
preemptable_iff job job' same fewer =
    let h = stays_ready job.min_available (ready_task_num job) (ready_task_num job') fewer in
    rw (preemptable-ready, job_ready_lem job, job_ready_lem job', same)
      ((λ e. h.0 (ok_inj e)), λ r. ap ok (h.1 r))
