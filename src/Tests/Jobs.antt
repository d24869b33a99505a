-- ===== src/Tests/Jobs.antt =====
-- Tests of jobs, resources and statuses.
use kube_arbitrator.Common.{
  ◌≡◌, refl, none, some, String, string_key, ite, ok, panic, String_discrete, insufficient_resource,
}
use kube_arbitrator.Common.Map.{lookup, insert}
use kube_arbitrator.Api.Resource.{empty_resource, add, sub, new_resource}
use kube_arbitrator.Api.Objects.{get_controller}
use kube_arbitrator.Api.Status.{pending, running, releasing, allocated_status, get_task_status}
use kube_arbitrator.Api.TaskInfo.{new_task_info}
use kube_arbitrator.Api.JobInfo.{
  JobInfo, new_job_info, tasks_with, add_task_info, delete_task_info, update_task_status, clone,
}
use kube_arbitrator.Api.Requested.{requested}
use kube_arbitrator.Api.JobInfo.Invariant.{IsConsistent, indexed}
use kube_arbitrator.Api.JobInfo.Changes.{
  add_task_info-IsConsistent, update_task_status-IsConsistent,
}
use kube_arbitrator.Api.JobInfo.Clone.{clone-IsConsistent, clone_doubles}
use kube_arbitrator.Api.JobInfo.Stale.{delete_task_info_stale}
use kube_arbitrator.Tests.Data.{resource, pod_named, task_of}

abbrev job_of_none : JobInfo
job_of_none = new_job_info "job"

abbrev job_of_one : JobInfo
job_of_one = add_task_info job_of_none (task_of "p1" running)

job_of_none-IsConsistent : IsConsistent empty_resource empty_resource job_of_none
unfolding lookup tasks_with add requested
job_of_none-IsConsistent = record {
  accounts = record { distinct = tt; keyed = λ u t e. cc; total = refl; held = refl };
  index = λ s u. refl;
}

job_of_one-IsConsistent : IsConsistent empty_resource empty_resource job_of_one
job_of_one-IsConsistent =
    add_task_info-IsConsistent job_of_none (task_of "p1" running) job_of_none-IsConsistent
      (unfold lookup in refl)

stored : lookup "p1" job_of_one.tasks ≡ some (task_of "p1" running)
unfolding lookup add_task_info insert String_discrete
stored = refl

update_task_status-IsConsistent_example :
    (ps' : JobInfo) × (update_task_status job_of_one (task_of "p1" running) releasing
      ≡ ok (ps', task_of "p1" releasing, none))
    × IsConsistent empty_resource empty_resource ps'
    × ((u : String)
        → lookup u ps'.tasks
          ≡ ite (string_key.dec "p1" u) (some (task_of "p1" releasing)) (lookup u job_of_one.tasks))
update_task_status-IsConsistent_example =
    update_task_status-IsConsistent job_of_one (task_of "p1" running) releasing
      job_of_one-IsConsistent stored

delete_task_info_stale_example :
    (ps' : JobInfo) × (delete_task_info job_of_one (task_of "p1" pending) ≡ ok ps')
    × (lookup "p1" ps'.tasks ≡ none)
    × (indexed ps' running "p1" ≡ some (task_of "p1" running))
delete_task_info_stale_example =
    delete_task_info_stale job_of_one (task_of "p1" pending) (task_of "p1" running)
      job_of_one-IsConsistent stored (λ e. cc)

clone-IsConsistent_example :
    IsConsistent job_of_one.total_request job_of_one.allocated (clone job_of_one)
    × ((clone job_of_one).tasks ≡ job_of_one.tasks)
clone-IsConsistent_example =
    clone-IsConsistent job_of_one job_of_one-IsConsistent.accounts.distinct
      job_of_one-IsConsistent.accounts.keyed

clone_doubles_example :
    ((clone job_of_one).total_request ≡ add job_of_one.total_request job_of_one.total_request)
    × ((clone job_of_one).allocated ≡ add job_of_one.allocated job_of_one.allocated)
clone_doubles_example = clone_doubles job_of_one job_of_one-IsConsistent.accounts

-- The clone of a job with one task that requests two units holds four.
clone_holds_four : (clone job_of_one).allocated ≡ resource 4
unfolding clone add_task_info add insert allocated_status
clone_holds_four = refl

new_task_info_run : new_task_info (pod_named "p1") ≡ task_of "p1" running
unfolding new_task_info get_task_status get_controller add new_resource
new_task_info_run = refl

sub_run : sub (resource 1) (resource 2) ≡ panic insufficient_resource
unfolding sub
sub_run = refl
