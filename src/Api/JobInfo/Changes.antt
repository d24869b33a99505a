-- ===== src/Api/JobInfo/Changes.antt =====
-- `AddTaskInfo`, `DeleteTaskInfo` and `UpdateTaskStatus` keep a job consistent, and the last two
-- do not panic on a consistent job.
use kube_arbitrator.Common.{
  ◌≡◌, refl, ◌≢◌, ◌⊎◌, inl, inr, ite, if_pos, if_neg, none, some, String, string_key, arith, ok,
  Option-cases, sym, ap, ◌∙◌,
}
use kube_arbitrator.Common.Map.{
  lookup, insert, remove, lookup-insert, lookup-remove, lookup-remove_self, remove_absent,
}
use kube_arbitrator.Api.Resource.{Resource}
use kube_arbitrator.Api.Status.{TaskStatus, TaskStatus_discrete, status_key, validate_status_update}
use kube_arbitrator.Api.TaskInfo.{TaskInfo}
use kube_arbitrator.Api.JobInfo.{
  JobInfo, add_task_info, delete_task_index, delete_task_info, update_task_status,
}
use kube_arbitrator.Api.JobInfo.Invariant.{
  IsIndexed, IsConsistent, indexed, indexed-add, indexed-delete, with_status,
}
use kube_arbitrator.Api.JobInfo.Accounts.{
  rest, delete_task_index_frame, add_task_info-IsAccounted, release_task-rest, rest-IsAccounted,
  delete_task_index-IsAccounted,
}

-- The index is cleared of a UID that is listed under the argument's status only.
delete_task_index-IsIndexed :
    (ps : JobInfo) (pi : TaskInfo)
    → lookup pi.uid ps.tasks ≡ none
    → ((s : TaskStatus) (u : String)
        → (pi.status ≢ s) ⊎ (pi.uid ≢ u)
        → indexed ps s u ≡ with_status s (lookup u ps.tasks))
    → IsIndexed (delete_task_index ps pi)
delete_task_index-IsIndexed ps pi absent listed =
    rw (delete_task_index_frame ps pi) (λ s u. indexed-delete ps pi s u ∙ settle s u)
  where
    settle :
        (s : TaskStatus) (u : String)
        → ite
            (TaskStatus_discrete pi.status s)
            (ite (string_key.dec pi.uid u) none (indexed ps s u))
            (indexed ps s u)
          ≡ with_status s (lookup u ps.tasks)
    settle s u = elim (TaskStatus_discrete pi.status s) [
      | no other ↦ rw (if_neg _ other) (listed s u (inl other))
      | yes same ↦ rw (if_pos _ same) (elim (string_key.dec pi.uid u) [
        | no other ↦ rw (if_neg _ other) (listed s u (inr other))
        | yes here ↦ rw (if_pos _ here, ← here, absent) refl
      ])
    ]

module _ {x y : Resource} where
  pub add_task_info-IsConsistent :
      (ps : JobInfo) (pi : TaskInfo)
      → IsConsistent x y ps
      → lookup pi.uid ps.tasks ≡ none
      → IsConsistent x y (add_task_info ps pi)
  unfolding add_task_info
  add_task_info-IsConsistent ps pi c absent = record {
    accounts = unfold add_task_info in add_task_info-IsAccounted ps pi c.accounts absent;
    index = λ s u. ground (
      arith,
      indexed-add (record ps { tasks = insert pi.uid pi ps.tasks }) pi s u,
      lookup-insert pi.uid u pi ps.tasks,
      c.index s u,
    );
  }

  -- A task that is stored under the same status as the argument, or not at all, is taken out of
  -- the tasks, the index and the accounts.
  pub delete_task_info-IsConsistent :
      (ps : JobInfo) (pi : TaskInfo)
      → IsConsistent x y ps
      → ((t : TaskInfo) → lookup pi.uid ps.tasks ≡ some t → t.status ≡ pi.status)
      → (ps' : JobInfo) × (delete_task_info ps pi ≡ ok ps')
        × IsConsistent x y ps'
        × (ps'.tasks ≡ remove pi.uid ps.tasks)
  unfolding delete_task_info rest
  delete_task_info-IsConsistent ps pi c same = elim (Option-cases (lookup pi.uid ps.tasks)) [
    | inl e ↦ (
      delete_task_index ps pi,
      rw (e, delete_task_info) refl,
      record {
        accounts = delete_task_index-IsAccounted ps pi c.accounts;
        index = delete_task_index-IsIndexed ps pi e (λ s u _. c.index s u);
      },
      ap JobInfo.tasks (delete_task_index_frame ps pi) ∙ sym (remove_absent pi.uid ps.tasks e),
    )
    | inr (t, e) ↦ (
      delete_task_index (rest x y ps pi.uid) pi,
      rw (e, delete_task_info, release_task-rest ps t pi.uid c.accounts e) refl,
      record {
        accounts =
            delete_task_index-IsAccounted (rest x y ps pi.uid) pi
              (rest-IsAccounted ps pi.uid c.accounts);
        index =
            delete_task_index-IsIndexed (rest x y ps pi.uid) pi (lookup-remove_self pi.uid ps.tasks)
              (λ s u h. ground (arith, lookup-remove pi.uid u ps.tasks, c.index s u, same t e));
      },
      ap JobInfo.tasks (delete_task_index_frame (rest x y ps pi.uid) pi),
    )
  ]

  -- Of a stored task the status can always be changed: the call returns no error and does not
  -- panic, the job stays consistent, the task is stored with the new status, and no other task
  -- changes.
  pub update_task_status-IsConsistent :
      (ps : JobInfo) (task : TaskInfo) (s : TaskStatus)
      → IsConsistent x y ps
      → lookup task.uid ps.tasks ≡ some task
      → (ps' : JobInfo) × (update_task_status ps task s
          ≡ ok (ps', record task { status = s }, none))
        × IsConsistent x y ps'
        × ((u : String)
            → lookup u ps'.tasks
              ≡ ite
                  (string_key.dec task.uid u)
                  (some (record task { status = s }))
                  (lookup u ps.tasks))
  unfolding update_task_status add_task_info validate_status_update
  update_task_status-IsConsistent ps task s c stored =
      let (ps₁, deleted, c₁, e₁) = delete_task_info-IsConsistent ps task c (λ t h. ground arith) in
      let task' : TaskInfo = record task { status = s } in
      let absent : lookup task.uid ps₁.tasks ≡ none =
        rw e₁ (lookup-remove_self task.uid ps.tasks) in
      (
        add_task_info ps₁ task',
        rw (deleted, update_task_status) refl,
        add_task_info-IsConsistent ps₁ task' c₁ absent,
        λ u. rw e₁ (
            ground (
              arith,
              lookup-insert task.uid u task' (remove task.uid ps.tasks),
              lookup-remove task.uid u ps.tasks,
            )),
      )
