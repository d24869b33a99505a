-- ===== src/Api/JobInfo/Accounts.antt =====
-- The accounts of a job under `AddTaskInfo`, `DeleteTaskInfo` and `UpdateTaskStatus`, whatever its
-- index by status.
use kube_arbitrator.Common.{
  ◌≡◌, refl, inl, inr, Bool, true, false, none, some, String, string_key, arith, if◌then◌else◌, ok,
  Option-cases, sym, ap, ◌∙◌,
}
use kube_arbitrator.Common.Map.{
  lookup, remove, lookup-insert, lookup-remove, lookup-remove_self, remove_absent,
}
use kube_arbitrator.Api.Resource.{Resource, add, sub}
use kube_arbitrator.Api.Status.{TaskStatus, status_key, allocated_status, validate_status_update}
use kube_arbitrator.Api.TaskInfo.{TaskInfo}
use kube_arbitrator.Api.Requested.{
  Distinct-insert, Distinct-remove, requested, requested-insert, requested-remove,
}
use kube_arbitrator.Api.JobInfo.{
  JobInfo, add_task_info, delete_task_index, release_task, delete_task_info, update_task_status,
}
use kube_arbitrator.Api.JobInfo.Invariant.{IsAccounted, any_task, is_allocated}

-- An account that grows with a task stays the sum.
account-add :
    (b : Bool) (r s x : Resource)
    → (if b then add (add s x) r else add s x) ≡ add (if b then add r s else s) x
unfolding add
account-add true r s x = ground arith
account-add false r s x = refl

-- An account that holds a task's request can give it back.
account-sub :
    (b : Bool) (r s x : Resource)
    → (if b
        then sub (add (if b then add r s else s) x) r
        else ok (add (if b then add r s else s) x))
      ≡ ok (add s x)
unfolding add sub
account-sub true r s x = ground arith
account-sub false r s x = refl

-- What is left of the accounts and the tasks when the task under `u` is taken out.
unfoldable pub rest : Resource → Resource → JobInfo → String → JobInfo
rest x y ps u = record ps {
  total_request = add (requested any_task (remove u ps.tasks)) x;
  allocated = add (requested is_allocated (remove u ps.tasks)) y;
  tasks = remove u ps.tasks;
}

-- The index changes and nothing else.
pub delete_task_index_frame :
    (ps : JobInfo) (pi : TaskInfo)
    → delete_task_index ps pi
      ≡ record ps { task_status_index = (delete_task_index ps pi).task_status_index }
unfolding delete_task_index
delete_task_index_frame ps pi = ground arith

module _ {x y : Resource} where
  pub add_task_info-IsAccounted :
      (ps : JobInfo) (pi : TaskInfo)
      → IsAccounted x y ps
      → lookup pi.uid ps.tasks ≡ none
      → IsAccounted x y (add_task_info ps pi)
  unfolding add_task_info
  add_task_info-IsAccounted ps pi c absent = record {
    distinct = Distinct-insert pi.uid pi ps.tasks c.distinct;
    keyed = λ u t h. ground (arith, lookup-insert pi.uid u pi ps.tasks, c.keyed u t);
    total =
        rw (requested-insert any_task pi.uid pi ps.tasks absent, c.total)
          (account-add true pi.resreq (requested any_task ps.tasks) x);
    held =
        rw (requested-insert is_allocated pi.uid pi ps.tasks absent, c.held)
          (account-add (allocated_status pi.status) pi.resreq (requested is_allocated ps.tasks) y);
  }

  pub release_task-rest :
      (ps : JobInfo) (t : TaskInfo) (u : String)
      → IsAccounted x y ps
      → lookup u ps.tasks ≡ some t
      → release_task ps t u ≡ ok (rest x y ps u)
  unfolding release_task rest
  release_task-rest ps t u c found = ground (
    arith,
    c.total,
    c.held,
    requested-remove any_task u t ps.tasks c.distinct found,
    requested-remove is_allocated u t ps.tasks c.distinct found,
    account-sub true t.resreq (requested any_task (remove u ps.tasks)) x,
    account-sub (allocated_status t.status) t.resreq (requested is_allocated (remove u ps.tasks)) y,
  )

  pub rest-IsAccounted :
      (ps : JobInfo) (u : String) → IsAccounted x y ps → IsAccounted x y (rest x y ps u)
  unfolding rest
  rest-IsAccounted ps u c = record {
    distinct = Distinct-remove u ps.tasks c.distinct;
    keyed = λ v w h. ground (arith, lookup-remove u v ps.tasks, c.keyed v w);
    total = refl;
    held = refl;
  }

  pub delete_task_index-IsAccounted :
      (ps : JobInfo) (pi : TaskInfo)
      → IsAccounted x y ps
      → IsAccounted x y (delete_task_index ps pi)
  delete_task_index-IsAccounted ps pi c =
      rw (delete_task_index_frame ps pi)
        (record { distinct = c.distinct; keyed = c.keyed; total = c.total; held = c.held })

  -- Whatever the status of the argument, a job with right accounts is deleted from without panic:
  -- exactly the tasks under other UIDs remain, with right accounts.
  pub delete_task_info-IsAccounted :
      (ps : JobInfo) (pi : TaskInfo)
      → IsAccounted x y ps
      → (ps' : JobInfo) × (delete_task_info ps pi ≡ ok ps')
        × IsAccounted x y ps'
        × (ps'.tasks ≡ remove pi.uid ps.tasks)
  unfolding delete_task_info rest
  delete_task_info-IsAccounted ps pi c = elim (Option-cases (lookup pi.uid ps.tasks)) [
    | inl e ↦ (
      delete_task_index ps pi,
      rw (e, delete_task_info) refl,
      delete_task_index-IsAccounted ps pi c,
      ap JobInfo.tasks (delete_task_index_frame ps pi) ∙ sym (remove_absent pi.uid ps.tasks e),
    )
    | inr (t, e) ↦ (
      delete_task_index (rest x y ps pi.uid) pi,
      rw (e, delete_task_info, release_task-rest ps t pi.uid c e) refl,
      delete_task_index-IsAccounted (rest x y ps pi.uid) pi (rest-IsAccounted ps pi.uid c),
      ap JobInfo.tasks (delete_task_index_frame (rest x y ps pi.uid) pi),
    )
  ]

  pub update_task_status-IsAccounted :
      (ps : JobInfo) (task : TaskInfo) (s : TaskStatus)
      → IsAccounted x y ps
      → (ps' : JobInfo) × (update_task_status ps task s
          ≡ ok (ps', record task { status = s }, none))
        × IsAccounted x y ps'
  unfolding update_task_status add_task_info validate_status_update
  update_task_status-IsAccounted ps task s c =
      let (ps₁, deleted, c₁, e₁) = delete_task_info-IsAccounted ps task c in
      let task' : TaskInfo = record task { status = s } in
      (
        add_task_info ps₁ task',
        rw (deleted, update_task_status) refl,
        add_task_info-IsAccounted ps₁ task' c₁ (rw e₁ (lookup-remove_self task.uid ps.tasks)),
      )
