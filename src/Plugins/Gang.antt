-- ===== src/Plugins/Gang.antt =====
-- The gang plugin, pkg/scheduler/plugins/gang/gang.go.
pub mod Laws
use kube_arbitrator.Common.{
  ℕ, zero, suc, ◌+◌, ◌≤◌, ◌<◌, ◌≡◌, ◌↔◌, refl, Bool, true, false, not, ◌&&◌, ◌||◌, [], ◌∷◌, Option,
  none, some, Outcome, ok, panic, nil_dereference, ◌>>=◌, text_lt, arith, if◌then◌else◌,
}
use kube_arbitrator.Common.Int.{ℤ, pos, negsuc, pos_part, neg_part, leb_ℤ, pred_ℤ}
use kube_arbitrator.Common.Lists.{length}
use kube_arbitrator.Common.Map.{Map}
use kube_arbitrator.Api.Status.{TaskStatus, succeeded, allocated_status}
use kube_arbitrator.Api.TaskInfo.{TasksMap}
use kube_arbitrator.Api.JobInfo.{JobInfo}

-- `api.AllocatedStatus(status) || status == api.Succeeded`.
unfoldable pub counts_as_ready : TaskStatus → Bool
counts_as_ready succeeded = true
counts_as_ready s = allocated_status s

-- The loop of `readyTaskNum`.
unfoldable pub count_ready : ℕ → Map TaskStatus TasksMap → ℕ
count_ready occupied [] = occupied
count_ready occupied ((status, tasks) ∷ index) =
    count_ready (if counts_as_ready status then occupied + length tasks else occupied) index

-- `readyTaskNum`.
unfoldable pub ready_task_num : JobInfo → ℕ
unfolding count_ready counts_as_ready
ready_task_num job = count_ready 0 job.task_status_index

-- `jobReady`.
unfoldable pub job_ready : JobInfo → Bool
unfolding ready_task_num
job_ready job = leb_ℤ job.min_available (pos (ready_task_num job))

-- The preemptable function, given `ssn.JobIndex[preemptee.Job]`.
unfoldable pub preemptable : Option JobInfo → Outcome Bool
unfolding ready_task_num
preemptable none = panic nil_dereference
preemptable (some job) = ok (leb_ℤ job.min_available (pred_ℤ (ready_task_num job)))

-- The job order function.
unfoldable pub job_order : JobInfo → JobInfo → ℤ
unfolding job_ready
job_order lv rv =
    if job_ready lv && job_ready rv
    then pos 0
    else (if job_ready lv
        then pos 1
        else (if job_ready rv
            then negsuc 0
            else (if text_lt lv.uid rv.uid then negsuc 0 else pos 1)))
