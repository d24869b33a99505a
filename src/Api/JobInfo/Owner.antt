-- ===== src/Api/JobInfo/Owner.antt =====
-- The tasks that a job's index by status lists are tasks of that job: the operations keep it so.
use kube_arbitrator.Common.{
  ◌≡◌, inl, inr, ap, subst, if_pos, if_neg, [], ◌∷◌, Option, some, String, string_key, ok, ok_inj,
  >>=-eq-ok, Option-cases, if◌then◌else◌,
}
use kube_arbitrator.Common.Lists.{All}
use kube_arbitrator.Common.Map.{Map, Key, lookup, insert, remove}
use kube_arbitrator.Api.Resource.{sub}
use kube_arbitrator.Api.Status.{
  TaskStatus, status_key, Error, allocated_status, validate_status_update,
}
use kube_arbitrator.Api.TaskInfo.{TaskInfo, TasksMap}
use kube_arbitrator.Api.JobInfo.{
  JobInfo, tasks_with, add_task_index, delete_task_index, shrink_index, release_task, add_task_info,
  delete_task_info, update_task_status,
}

-- Each task of the map names `id` as its job.
abbrev pub AreOf : String → TasksMap → Type 0
AreOf id = All (λ ((u, t) : String × TaskInfo). t.job ≡ id)

abbrev pub IndexOf : String → Map TaskStatus TasksMap → Type 0
IndexOf id = All (λ ((s, ts) : TaskStatus × TasksMap). AreOf id ts)

-- Each task that the index lists does.
abbrev pub Owns : String → JobInfo → Type 0
Owns id ps = IndexOf id ps.task_status_index

module _ {K V : Type 0} ⦃d : Key K⦄ (P : K × V → Type 0) where
  All-insert : (k : K) (v : V) (m : Map K V) → P (k, v) → All P m → All P (insert k v m)
  unfolding insert
  All-insert k v [] p all = (p, tt)
  All-insert k v ((j, w) ∷ m) p (q, all) = elim (d.dec j k) [
    | yes e ↦ rw (if_pos (d.dec j k) e) (p, all)
    | no n ↦ rw (if_neg (d.dec j k) n) (q, All-insert k v m p all)
  ]

  All-remove : (k : K) (m : Map K V) → All P m → All P (remove k m)
  unfolding remove
  All-remove k [] all = tt
  All-remove k ((j, w) ∷ m) (q, all) = elim (d.dec j k) [
    | yes e ↦ rw (if_pos (d.dec j k) e) (All-remove k m all)
    | no n ↦ rw (if_neg (d.dec j k) n) (q, All-remove k m all)
  ]

  All-lookup : (k : K) (v : V) (m : Map K V) → All P m → lookup k m ≡ some v → (j : K) × P (j, v)
  unfolding lookup
  All-lookup k v [] all h = cc
  All-lookup k v ((j, w) ∷ m) (q, all) h = elim (d.dec j k) [
    | yes e ↦
        let found : ◌≡◌ {A = Option V} (some w) (some v) = rw (if_pos (d.dec j k) e) at h in
        let same : w ≡ v = cc in (j, subst (λ x. P (j, x)) same q)
    | no n ↦ All-lookup k v m all (rw (if_neg (d.dec j k) n) at h)
  ]

module _ (id : String) where
  pub tasks_with-AreOf :
      (s : TaskStatus) (index : Map TaskStatus TasksMap)
      → IndexOf id index
      → AreOf id (tasks_with s index)
  unfolding tasks_with
  tasks_with-AreOf s index own = elim (Option-cases (lookup s index)) [
    | inl e ↦ rw (e, tasks_with) tt
    | inr (ts, e) ↦ rw (e, tasks_with) (All-lookup _ s ts index own e).1
  ]

  pub add_task_index-Owns :
      (ps : JobInfo) (pi : TaskInfo) → pi.job ≡ id → Owns id ps → Owns id (add_task_index ps pi)
  unfolding add_task_index
  add_task_index-Owns ps pi e own =
      All-insert _ pi.status _ ps.task_status_index
        (All-insert _ pi.uid pi _ e (tasks_with-AreOf pi.status ps.task_status_index own)) own

  shrink_index-Owns :
      (s : TaskStatus) (ts : TasksMap) (index : Map TaskStatus TasksMap)
      → AreOf id ts
      → IndexOf id index
      → IndexOf id (shrink_index s ts index)
  unfolding shrink_index
  shrink_index-Owns s [] index of own = All-remove _ s index own
  shrink_index-Owns s (e ∷ ts) index of own = All-insert _ s (e ∷ ts) index of own

  delete_task_index-Owns :
      (ps : JobInfo) (pi : TaskInfo) → Owns id ps → Owns id (delete_task_index ps pi)
  unfolding delete_task_index
  delete_task_index-Owns ps pi own = elim (Option-cases (lookup pi.status ps.task_status_index)) [
    | inl e ↦ rw (e, delete_task_index) own
    | inr (ts, e) ↦
        rw (e, delete_task_index)
          (shrink_index-Owns pi.status (remove pi.uid ts) ps.task_status_index
            (All-remove _ pi.uid ts (All-lookup _ pi.status ts ps.task_status_index own e).1) own)
  ]

  release_task-Owns :
      (ps ps' : JobInfo) (t : TaskInfo) (u : String)
      → Owns id ps
      → release_task ps t u ≡ ok ps'
      → Owns id ps'
  unfolding release_task
  release_task-Owns ps ps' t u own h =
      let (total, _, h₁) = >>=-eq-ok (sub ps.total_request t.resreq) _ h in
      let (held, _, h₂) =
        >>=-eq-ok (if allocated_status t.status then sub ps.allocated t.resreq else ok ps.allocated)
          _ h₁ in
      subst (Owns id) (ok_inj h₂) own

  delete_task_info-Owns :
      (ps ps' : JobInfo) (pi : TaskInfo)
      → Owns id ps
      → delete_task_info ps pi ≡ ok ps'
      → Owns id ps'
  unfolding delete_task_info
  delete_task_info-Owns ps ps' pi own h = elim (Option-cases (lookup pi.uid ps.tasks)) [
    | inl e ↦
        subst (Owns id) (ok_inj (rw (e, delete_task_info) at h)) (delete_task_index-Owns ps pi own)
    | inr (t, e) ↦
        let (rest, r, h₁) =
          >>=-eq-ok (release_task ps t pi.uid) _ (rw (e, delete_task_info) at h) in
        subst (Owns id) (ok_inj h₁)
          (delete_task_index-Owns rest pi (release_task-Owns ps rest t pi.uid own r))
  ]

  -- `UpdateTaskStatus` of a task of the job.
  pub update_task_status-Owns :
      (ps ps' : JobInfo) (task task' : TaskInfo) (s : TaskStatus) (e : Option Error)
      → task.job ≡ id
      → Owns id ps
      → update_task_status ps task s ≡ ok (ps', task', e)
      → Owns id ps'
  unfolding update_task_status add_task_info validate_status_update
  update_task_status-Owns ps ps' task task' s e of own h =
      let (rest, d, h₁) = >>=-eq-ok (delete_task_info ps task) _ h in
      let task₁ : TaskInfo = record task { status = s } in
      subst (Owns id) (ap (λ (r : JobInfo × TaskInfo × Option Error). r.0) (ok_inj h₁)) (
        add_task_index-Owns (record rest { tasks = insert task.uid task₁ rest.tasks }) task₁ of
          (delete_task_info-Owns ps rest task own d))
