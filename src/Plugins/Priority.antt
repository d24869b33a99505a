-- ===== src/Plugins/Priority.antt =====
-- The priority plugin, pkg/scheduler/plugins/priority/priority.go.
use kube_arbitrator.Common.{◌≡◌, arith, if◌then◌else◌}
use kube_arbitrator.Common.Int.{ℤ, pos, negsuc, ltb_ℤ, eqb_ℤ}
use kube_arbitrator.Api.TaskInfo.{TaskInfo}
use kube_arbitrator.Api.JobInfo.{JobInfo, clone}
use kube_arbitrator.Api.JobInfo.Clone.{clone_head}

-- The task order function.
unfoldable pub task_order : TaskInfo → TaskInfo → ℤ
task_order lv rv =
    if eqb_ℤ lv.priority rv.priority
    then pos 0
    else (if ltb_ℤ rv.priority lv.priority then negsuc 0 else pos 1)

-- The job order function.
unfoldable pub job_order : JobInfo → JobInfo → ℤ
job_order lv rv =
    if ltb_ℤ rv.priority lv.priority
    then negsuc 0
    else (if ltb_ℤ lv.priority rv.priority then pos 1 else pos 0)

-- Since clones do not carry a priority, the job order function does not tell the jobs of a
-- snapshot apart, whatever their priorities in the cache are.
pub job_order-clone : (l r : JobInfo) → job_order (clone l) (clone r) ≡ pos 0
unfolding job_order
job_order-clone l r = let h = clone_head l in let k = clone_head r in ground (arith, h.3, k.3)
