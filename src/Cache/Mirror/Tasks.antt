-- ===== src/Cache/Mirror/Tasks.antt =====
-- What `addPod` and `deletePod` do to the tasks of the cache's jobs.
use kube_arbitrator.Common.{
  ◌≡◌, ◌≢◌, refl, sym, ap, ◌∙◌, inl, inr, ite, if_pos, if_neg, true, false, Option, none, some,
  String, string_key, ok, ok_inj, >>=-eq-ok, arith, Bool-cases, Option-cases, text_is_empty,
  if◌then◌else◌,
}
use kube_arbitrator.Common.Map.{lookup, insert, lookup-insert, lookup-remove}
use kube_arbitrator.Api.Objects.{Pod}
use kube_arbitrator.Api.TaskInfo.{TaskInfo, new_task_info}
use kube_arbitrator.Api.JobInfo.{JobInfo, add_task_info}
use kube_arbitrator.Api.NodeInfo.{add_task, remove_task}
use kube_arbitrator.Api.JobInfo.Accounts.{delete_task_info-IsAccounted}
use kube_arbitrator.Cache.Store.{Cache, job_or_new, node_or_new}
use kube_arbitrator.Cache.Pods.{
  add_to_job, add_to_node, add_pod, delete_from_job, delete_from_node, delete_pod, is_terminated,
}
use kube_arbitrator.Cache.Sound.{IsSound, job_or_new-JobOk}

-- The task under a UID in the job under an ID.
unfoldable pub task_at : Cache → String → String → Option TaskInfo
task_at sc id u = elim (lookup id sc.jobs) [ none ↦ none | some job ↦ lookup u job.tasks ]

-- The value `o` at the job and the UID of `pi`, and `t` at each other place.
abbrev pub replaced :
    TaskInfo → Option TaskInfo → String → String → Option TaskInfo → Option TaskInfo
replaced pi o id u t = ite (string_key.dec pi.job id) (ite (string_key.dec pi.uid u) o t) t

task_at-insert :
    (sc : Cache) (id k u : String) (job : JobInfo)
    → task_at (record sc { jobs = insert id job sc.jobs }) k u
      ≡ ite (string_key.dec id k) (lookup u job.tasks) (task_at sc k u)
unfolding task_at
task_at-insert sc id k u job = ground (arith, lookup-insert id k job sc.jobs)

task_at-job_or_new :
    (sc : Cache) (id u : String) → lookup u (job_or_new id sc.jobs).tasks ≡ task_at sc id u
unfolding task_at job_or_new lookup
task_at-job_or_new sc id u = ground arith

named :
    (pi : TaskInfo) (id : String)
    → text_is_empty pi.job ≡ true
    → text_is_empty id ≡ false
    → pi.job ≢ id
named pi id e n = λ h. ground arith

-- A job that is stored with one of its tasks changed.
task_at-changed :
    (sc : Cache) (pi : TaskInfo) (o : Option TaskInfo) (id u : String) (job : JobInfo)
    → lookup u job.tasks ≡ ite (string_key.dec pi.uid u) o (task_at sc pi.job u)
    → task_at (record sc { jobs = insert pi.job job sc.jobs }) id u
      ≡ replaced pi o id u (task_at sc id u)
task_at-changed sc pi o id u job h =
    task_at-insert sc pi.job id u job ∙ elim (string_key.dec pi.job id) [
      | no other ↦ rw (if_neg _ other, if_neg _ other) refl
      | yes here ↦ rw (if_pos _ here, if_pos _ here, h, here) refl
    ]

pub add_to_job-task_at :
    (sc sc' : Cache) (pi : TaskInfo) (id u : String)
    → IsSound sc
    → text_is_empty id ≡ false
    → add_to_job sc pi ≡ ok sc'
    → task_at sc' id u ≡ replaced pi (some pi) id u (task_at sc id u)
unfolding add_to_job add_task_info
add_to_job-task_at sc sc' pi id u s n h = elim (Bool-cases (text_is_empty pi.job)) [
  | inl e ↦ rw (if_neg _ (named pi id e n)) (ap (λ c. task_at c id u) (ok_inj (sym (rw e at h))))
  | inr e ↦
      let (job, deleted, _, tasks) =
        delete_task_info-IsAccounted (job_or_new pi.job sc.jobs) pi (job_or_new-JobOk pi.job s) in
      ap (λ c. task_at c id u) (ok_inj (sym (rw (e, deleted) at h)))
      ∙ task_at-changed sc pi (some pi) id u (add_task_info job pi) (
          ground (
            arith,
            tasks,
            lookup-insert pi.uid u pi job.tasks,
            lookup-remove pi.uid u (job_or_new pi.job sc.jobs).tasks,
            task_at-job_or_new sc pi.job u,
          ))
]

pub delete_from_job-task_at :
    (sc sc' : Cache) (pi : TaskInfo) (id u : String)
    → IsSound sc
    → text_is_empty id ≡ false
    → delete_from_job sc pi ≡ ok sc'
    → task_at sc' id u ≡ replaced pi none id u (task_at sc id u)
unfolding delete_from_job task_at
delete_from_job-task_at sc sc' pi id u s n h = elim (Bool-cases (text_is_empty pi.job)) [
  | inl e ↦ rw (if_neg _ (named pi id e n)) (ap (λ c. task_at c id u) (ok_inj (sym (rw e at h))))
  | inr e ↦ elim (Option-cases (lookup pi.job sc.jobs)) [
    | inl l ↦ ap (λ c. task_at c id u) (ok_inj (sym (rw (e, l) at h))) ∙ ground (arith, l)
    | inr (job, l) ↦
        let (job', deleted, _, tasks) =
          delete_task_info-IsAccounted job pi (s.jobs_ok pi.job job l) in
        ap (λ c. task_at c id u) (ok_inj (sym (rw (e, l, deleted) at h)))
        ∙ task_at-changed sc pi none id u job'
            (ground (arith, tasks, lookup-remove pi.uid u job.tasks))
  ]
]

add_to_node-jobs :
    (sc sc' : Cache) (pi : TaskInfo) → add_to_node sc pi ≡ ok sc' → sc'.jobs ≡ sc.jobs
unfolding add_to_node
add_to_node-jobs sc sc' pi h = elim (Bool-cases (text_is_empty pi.node_name)) [
  | inl e ↦ ap Cache.jobs (ok_inj (sym (rw e at h)))
  | inr e ↦
      let (without, _, h₁) =
        >>=-eq-ok (remove_task (node_or_new pi.node_name sc.nodes) pi) _ (rw e at h) in
      let (node, _, h₂) =
        >>=-eq-ok (if is_terminated pi.status then ok without else add_task without pi) _ h₁ in
      ap Cache.jobs (ok_inj (sym h₂))
]

delete_from_node-jobs :
    (sc sc' : Cache) (pi : TaskInfo) → delete_from_node sc pi ≡ ok sc' → sc'.jobs ≡ sc.jobs
unfolding delete_from_node
delete_from_node-jobs sc sc' pi h = elim (Bool-cases (text_is_empty pi.node_name)) [
  | inl e ↦ ap Cache.jobs (ok_inj (sym (rw e at h)))
  | inr e ↦ elim (Option-cases (lookup pi.node_name sc.nodes)) [
    | inl l ↦ ap Cache.jobs (ok_inj (sym (rw (e, l) at h)))
    | inr (ni, l) ↦
        let (node, _, h₁) = >>=-eq-ok (remove_task ni pi) _ (rw (e, l) at h) in
        ap Cache.jobs (ok_inj (sym h₁))
  ]
]

-- `addPod` puts the pod's task in its job, and `deletePod` takes it out; no other task changes.
pub add_pod-task_at :
    (sc sc' : Cache) (pod : Pod) (id u : String)
    → IsSound sc
    → text_is_empty id ≡ false
    → add_pod sc pod ≡ ok sc'
    → task_at sc' id u
      ≡ replaced (new_task_info pod) (some (new_task_info pod)) id u (task_at sc id u)
unfolding add_pod task_at
add_pod-task_at sc sc' pod id u s n h =
    let (sc₁, h₁, h₂) = >>=-eq-ok (add_to_job sc (new_task_info pod)) _ h in
    rw (add_to_node-jobs sc₁ sc' (new_task_info pod) h₂)
      (add_to_job-task_at sc sc₁ (new_task_info pod) id u s n h₁)

pub delete_pod-task_at :
    (sc sc' : Cache) (pod : Pod) (id u : String)
    → IsSound sc
    → text_is_empty id ≡ false
    → delete_pod sc pod ≡ ok sc'
    → task_at sc' id u ≡ replaced (new_task_info pod) none id u (task_at sc id u)
unfolding delete_pod task_at
delete_pod-task_at sc sc' pod id u s n h =
    let (sc₁, h₁, h₂) = >>=-eq-ok (delete_from_job sc (new_task_info pod)) _ h in
    rw (delete_from_node-jobs sc₁ sc' (new_task_info pod) h₂)
      (delete_from_job-task_at sc sc₁ (new_task_info pod) id u s n h₁)
