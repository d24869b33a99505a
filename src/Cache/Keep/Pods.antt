-- ===== src/Cache/Keep/Pods.antt =====
-- The pod handlers keep the cache sound; the deletion of a pod always returns.
use kube_arbitrator.Common.{
  ◌≡◌, ◌≢◌, refl, string_key, arith, ok, subst, Option-cases, Bool-cases, inl, inr, text_is_empty,
  if◌then◌else◌,
}
use kube_arbitrator.Common.Map.{lookup, insert, lookup-remove_self}
use kube_arbitrator.Api.Objects.{Pod}
use kube_arbitrator.Api.Status.{get_task_status, pipelined}
use kube_arbitrator.Api.TaskInfo.{TaskInfo, new_task_info}
use kube_arbitrator.Api.JobInfo.{JobInfo, add_task_info, delete_task_info}
use kube_arbitrator.Api.JobInfo.Accounts.{delete_task_info-IsAccounted, add_task_info-IsAccounted}
use kube_arbitrator.Api.NodeInfo.{NodeInfo, add_task}
use kube_arbitrator.Api.NodeInfo.Accounts.{IsSettled}
use kube_arbitrator.Api.NodeInfo.Settled.{remove_task-IsSettled, add_task-IsSettled}
use kube_arbitrator.Cache.Store.{Cache, job_or_new, node_or_new}
use kube_arbitrator.Cache.Pods.{
  add_to_job, add_to_node, add_pod, delete_from_job, delete_from_node, delete_pod, update_pod,
  is_terminated,
}
use kube_arbitrator.Cache.Sound.{
  JobOk, IsSound, Keeps, Keeps-ok, Keeps-bind, insert_job-IsSound, insert_node-IsSound,
  job_or_new-JobOk, node_or_new-IsSettled,
}

-- The status of a pod is never `Pipelined`, which only a session gives.
new_task_info-placed : (pod : Pod) → (new_task_info pod).status ≢ pipelined
unfolding new_task_info get_task_status
new_task_info-placed pod = λ e. ground arith

-- A job that the UID was deleted from takes the task again.
restored-JobOk :
    (job : JobInfo) (pi : TaskInfo)
    → JobOk job
    → (job' : JobInfo) × (delete_task_info job pi ≡ ok job') × JobOk (add_task_info job' pi)
restored-JobOk job pi j =
    let (job', e, j', tasks) = delete_task_info-IsAccounted job pi j in
    (job', e, add_task_info-IsAccounted job' pi j' (rw tasks (lookup-remove_self pi.uid job.tasks)))

-- The job's part of `addPod` always returns.
add_to_job-IsSound :
    (sc : Cache) (pi : TaskInfo)
    → IsSound sc
    → (sc' : Cache) × (add_to_job sc pi ≡ ok sc') × IsSound sc' × (sc'.nodes ≡ sc.nodes)
unfolding add_to_job
add_to_job-IsSound sc pi s = elim (Bool-cases (text_is_empty pi.job)) [
  | inl e ↦ (sc, rw e refl, s, refl)
  | inr e ↦
      let job = job_or_new pi.job sc.jobs in
      let (job', deleted, j) = restored-JobOk job pi (job_or_new-JobOk pi.job s) in
      (
        record sc { jobs = insert pi.job (add_task_info job' pi) sc.jobs },
        rw (e, deleted) refl,
        insert_job-IsSound pi.job s j,
        refl,
      )
]

taken-IsSettled :
    (without node : NodeInfo) (pi : TaskInfo)
    → IsSettled without
    → pi.status ≢ pipelined
    → (if is_terminated pi.status then ok without else add_task without pi) ≡ ok node
    → IsSettled node
taken-IsSettled without node pi s placed e = elim (Bool-cases (is_terminated pi.status)) [
  | inl over ↦ subst IsSettled (ground arith) s
  | inr live ↦ add_task-IsSettled without node pi s placed (ground arith)
]

-- The node's part of `addPod` may panic, where the node is too small.
add_to_node-Keeps :
    (sc : Cache) (pi : TaskInfo) → IsSound sc → pi.status ≢ pipelined → Keeps (add_to_node sc pi)
unfolding add_to_node
add_to_node-Keeps sc pi s placed = elim (Bool-cases (text_is_empty pi.node_name)) [
  | inl e ↦ rw e (Keeps-ok s)
  | inr e ↦
      let n = node_or_new-IsSettled pi.node_name s in
      let (without, removed, w, _) =
        remove_task-IsSettled (node_or_new pi.node_name sc.nodes) pi n in
      rw (e, removed)
        (Keeps-bind (if is_terminated pi.status then ok without else add_task without pi)
          (λ node. ok (record sc { nodes = insert pi.node_name node sc.nodes }))
          (λ node taken.
            Keeps-ok (
              insert_node-IsSound pi.node_name s (taken-IsSettled without node pi w placed taken))))
]

pub add_pod-Keeps : (sc : Cache) (pod : Pod) → IsSound sc → Keeps (add_pod sc pod)
unfolding add_pod
add_pod-Keeps sc pod s =
    let (sc', e, s', _) = add_to_job-IsSound sc (new_task_info pod) s in
    rw e (add_to_node-Keeps sc' (new_task_info pod) s' (new_task_info-placed pod))

delete_from_job-IsSound :
    (sc : Cache) (pi : TaskInfo)
    → IsSound sc
    → (sc' : Cache) × (delete_from_job sc pi ≡ ok sc') × IsSound sc'
unfolding delete_from_job
delete_from_job-IsSound sc pi s = elim (Bool-cases (text_is_empty pi.job)) [
  | inl e ↦ (sc, rw e refl, s)
  | inr e ↦ elim (Option-cases (lookup pi.job sc.jobs)) [
    | inl l ↦ (sc, ground arith, s)
    | inr (job, l) ↦
        let (job', deleted, j, _) = delete_task_info-IsAccounted job pi (s.jobs_ok pi.job job l) in
        (
          record sc { jobs = insert pi.job job' sc.jobs },
          ground (arith, deleted),
          insert_job-IsSound pi.job s j,
        )
  ]
]

pub delete_from_node-IsSound :
    (sc : Cache) (pi : TaskInfo)
    → IsSound sc
    → (sc' : Cache) × (delete_from_node sc pi ≡ ok sc') × IsSound sc'
unfolding delete_from_node
delete_from_node-IsSound sc pi s = elim (Bool-cases (text_is_empty pi.node_name)) [
  | inl e ↦ (sc, rw e refl, s)
  | inr e ↦ elim (Option-cases (lookup pi.node_name sc.nodes)) [
    | inl l ↦ (sc, ground arith, s)
    | inr (ni, l) ↦
        let (ni', removed, n, _) = remove_task-IsSettled ni pi (s.nodes_ok pi.node_name ni l) in
        (
          record sc { nodes = insert pi.node_name ni' sc.nodes },
          ground (arith, removed),
          insert_node-IsSound pi.node_name s n,
        )
  ]
]

-- In a sound cache a pod can always be deleted: the handler does not panic, whatever the pod is,
-- and the cache stays sound.
pub delete_pod-IsSound :
    (sc : Cache) (pod : Pod)
    → IsSound sc
    → (sc' : Cache) × (delete_pod sc pod ≡ ok sc') × IsSound sc'
unfolding delete_pod
delete_pod-IsSound sc pod s =
    let (sc₁, e₁, s₁) = delete_from_job-IsSound sc (new_task_info pod) s in
    let (sc₂, e₂, s₂) = delete_from_node-IsSound sc₁ (new_task_info pod) s₁ in
    (sc₂, rw (e₁, e₂) refl, s₂)

pub update_pod-Keeps :
    (sc : Cache) (old_pod new_pod : Pod) → IsSound sc → Keeps (update_pod sc old_pod new_pod)
unfolding update_pod
update_pod-Keeps sc old_pod new_pod s =
    let (sc', e, s') = delete_pod-IsSound sc old_pod s in rw e (add_pod-Keeps sc' new_pod s')
