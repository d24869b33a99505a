-- ===== src/Api/NodeInfo/Changes.antt =====
-- `AddTask`, `PipelineTask` and `RemoveTask`: when they panic, what they keep, and that a removal
-- undoes an addition.
use kube_arbitrator.Common.{
  ◌≡◌, ◌≢◌, refl, ite, if_neg, if_pos, none, some, String, string_key, arith, ok, panic,
  insufficient_resource, Outcome-cases, inl, inr,
}
use kube_arbitrator.Common.Map.{
  lookup, insert, remove, lookup-insert, lookup-insert_self, lookup-remove, remove-insert,
}
use kube_arbitrator.Api.Resource.{Resource, add, sub}
use kube_arbitrator.Api.Resource.Order.{Fits, sub-add, sub_iff, sub_panics_iff, sub-of_Fits}
use kube_arbitrator.Api.Resource.Sum.{add_comm, add_assoc, add_cancel}
use kube_arbitrator.Api.Objects.{pod_key}
use kube_arbitrator.Api.Status.{TaskStatus_discrete, releasing as releasing_status, pipelined}
use kube_arbitrator.Api.TaskInfo.{TaskInfo, TasksMap}
use kube_arbitrator.Api.Requested.{
  Distinct-insert, Distinct-remove, requested, requested-insert, requested-remove,
}
use kube_arbitrator.Api.NodeInfo.{NodeInfo, note_releasing, add_task, pipeline_task, remove_task}
use kube_arbitrator.Api.NodeInfo.Accounts.{
  IsKeyed, IsBalanced, any_task, is_placed, is_pipelined, is_releasing,
}

pub IsKeyed-insert :
    (t : TaskInfo) (ts : TasksMap) → IsKeyed ts → IsKeyed (insert (pod_key t.pod) t ts)
IsKeyed-insert t ts h = record {
  distinct = Distinct-insert (pod_key t.pod) t ts h.distinct;
  keyed = λ k w e. ground (arith, lookup-insert (pod_key t.pod) k t ts, h.keyed k w);
}

pub IsKeyed-remove : (k : String) (ts : TasksMap) → IsKeyed ts → IsKeyed (remove k ts)
IsKeyed-remove k ts h = record {
  distinct = Distinct-remove k ts h.distinct;
  keyed = λ j w e. ground (arith, lookup-remove k j ts, h.keyed j w);
}

-- Where a task was added under a key that was free, removing it gives back the node as it was.
pub remove_task-add_task :
    (ni ni' : NodeInfo) (task : TaskInfo)
    → lookup (pod_key task.pod) ni.tasks ≡ none
    → add_task ni task ≡ ok ni'
    → remove_task ni' task ≡ ok ni
unfolding add_task remove_task note_releasing
remove_task-add_task ni ni' task absent added = elim (Outcome-cases (sub ni.idle task.resreq)) [
  | inl (p, e) ↦ ground (
    arith,
    lookup-insert_self (pod_key task.pod) task ni.tasks,
    remove-insert (pod_key task.pod) task ni.tasks absent,
  )
  | inr (i, e) ↦ ground (
    arith,
    (sub_iff ni.idle task.resreq i).0 e,
    lookup-insert_self (pod_key task.pod) task ni.tasks,
    remove-insert (pod_key task.pod) task ni.tasks absent,
    sub-add ni.releasing task.resreq,
    sub-add ni.used task.resreq,
  )
]

-- A task that is not pipelined, has a new key and fits into the idle resource of a balanced node is
-- taken: the node stays balanced, and what it has idle shrinks by the request.
pub add_task-IsBalanced :
    (cap : Resource) (ni : NodeInfo) (task : TaskInfo)
    → IsBalanced cap ni
    → lookup (pod_key task.pod) ni.tasks ≡ none
    → task.status ≢ pipelined
    → Fits task.resreq ni.idle
    → (ni' : NodeInfo) × (add_task ni task ≡ ok ni')
      × IsBalanced cap ni'
      × (add ni'.idle task.resreq ≡ ni.idle)
      × (ni'.tasks ≡ insert (pod_key task.pod) task ni.tasks)
unfolding add_task note_releasing
add_task-IsBalanced cap ni task b absent placed fits =
    let k = pod_key task.pod in
    let (i, e, back) = sub-of_Fits ni.idle task.resreq fits in
    let (n, known) = b.known in
    let ni' : NodeInfo = record ni {
      releasing = note_releasing ni.releasing task;
      idle = i;
      used = add ni.used task.resreq;
      tasks = insert k task ni.tasks;
    } in
    (
      ni',
      ground (arith, known, absent, e),
      record {
        known = (n, known);
        tasks_ok = IsKeyed-insert task ni.tasks b.tasks_ok;
        used_sum =
            ground (
              arith,
              requested-insert any_task k task ni.tasks absent,
              add_comm ni.used task.resreq,
            );
        idle_sum = ground (
          arith,
          requested-insert is_placed k task ni.tasks absent,
          add_assoc i task.resreq (requested is_placed ni.tasks),
        );
        releasing_sum = ground (
          arith,
          requested-insert is_pipelined k task ni.tasks absent,
          requested-insert is_releasing k task ni.tasks absent,
          add_comm ni.releasing task.resreq,
          add_assoc task.resreq ni.releasing (requested is_pipelined ni.tasks),
        );
      },
      back,
      refl,
    )

-- A task with a new key that does not fit into the idle resource of a balanced node makes the call
-- panic.
pub add_task_refused :
    (cap : Resource) (ni : NodeInfo) (task : TaskInfo)
    → IsBalanced cap ni
    → lookup (pod_key task.pod) ni.tasks ≡ none
    → ¬ Fits task.resreq ni.idle
    → add_task ni task ≡ panic insufficient_resource
unfolding add_task
add_task_refused cap ni task b absent unfit =
    ground (arith, b.known.1, absent, (sub_panics_iff ni.idle task.resreq).1 unfit)

-- A pipelined task with a new key that fits into what a balanced node is releasing is taken: the node stays balanced,
-- its idle resource is untouched, and the request comes off the releasing resource.
pub pipeline_task-IsBalanced :
    (cap : Resource) (ni : NodeInfo) (task : TaskInfo)
    → IsBalanced cap ni
    → lookup (pod_key task.pod) ni.tasks ≡ none
    → task.status ≡ pipelined
    → Fits task.resreq ni.releasing
    → (ni' : NodeInfo) × (pipeline_task ni task ≡ ok ni')
      × IsBalanced cap ni'
      × (ni'.idle ≡ ni.idle)
      × (add ni'.releasing task.resreq ≡ ni.releasing)
unfolding pipeline_task
pipeline_task-IsBalanced cap ni task b absent waiting fits =
    let k = pod_key task.pod in
    let (r, e, back) = sub-of_Fits ni.releasing task.resreq fits in
    let (n, known) = b.known in
    let ni' : NodeInfo = record ni {
      releasing = r;
      used = add ni.used task.resreq;
      tasks = insert k task ni.tasks;
    } in
    (
      ni',
      ground (arith, known, absent, e),
      record {
        known = (n, known);
        tasks_ok = IsKeyed-insert task ni.tasks b.tasks_ok;
        used_sum =
            ground (
              arith,
              requested-insert any_task k task ni.tasks absent,
              add_comm ni.used task.resreq,
            );
        idle_sum = ground (arith, requested-insert is_placed k task ni.tasks absent);
        releasing_sum = ground (
          arith,
          requested-insert is_pipelined k task ni.tasks absent,
          requested-insert is_releasing k task ni.tasks absent,
          add_assoc r task.resreq (requested is_pipelined ni.tasks),
        );
      },
      refl,
      back,
    )

-- What is releasing once the stored task is gone.
give_back :
    (cap : Resource) (ni : NodeInfo) (k : String) (task : TaskInfo)
    → IsBalanced cap ni
    → lookup k ni.tasks ≡ some task
    → task.status ≢ pipelined
    → Fits (requested is_pipelined ni.tasks) (requested is_releasing (remove k ni.tasks))
    → (r : Resource) × (ite
          (TaskStatus_discrete task.status releasing_status)
          (sub ni.releasing task.resreq)
          (ok ni.releasing)
        ≡ ok r)
      × (add r (requested is_pipelined (remove k ni.tasks))
          ≡ requested is_releasing (remove k ni.tasks))
give_back cap ni k task b stored placed room =
    let left = remove k ni.tasks in
    let (r, e, back) =
      sub-of_Fits (requested is_releasing left) (requested is_pipelined ni.tasks) room in
    let pip = requested-remove is_pipelined k task ni.tasks b.tasks_ok.distinct stored in
    let rel = requested-remove is_releasing k task ni.tasks b.tasks_ok.distinct stored in
    elim (TaskStatus_discrete task.status releasing_status) [
      | yes going ↦ (
        r,
        rw (if_pos _ going) (
            (sub_iff ni.releasing task.resreq r).1 (
              add_cancel ni.releasing task.resreq r (requested is_pipelined ni.tasks)
                (ground (arith, b.releasing_sum, rel, back)))),
        ground (arith, pip, back),
      )
      | no staying ↦
          (ni.releasing, rw (if_neg _ staying) refl, ground (arith, pip, rel, b.releasing_sum))
    ]

-- A placed task of a balanced node can be removed, if what the pipelined tasks wait for fits into what
-- is being released without it: the call does not panic, the node stays balanced, and the request of the stored task is idle again.
pub remove_task-IsBalanced :
    (cap : Resource) (ni : NodeInfo) (ti task : TaskInfo)
    → IsBalanced cap ni
    → lookup (pod_key ti.pod) ni.tasks ≡ some task
    → task.status ≢ pipelined
    → Fits
        (requested is_pipelined ni.tasks)
        (requested is_releasing (remove (pod_key ti.pod) ni.tasks))
    → (ni' : NodeInfo) × (remove_task ni ti ≡ ok ni')
      × IsBalanced cap ni'
      × (ni'.idle ≡ add ni.idle task.resreq)
      × (ni'.tasks ≡ remove (pod_key ti.pod) ni.tasks)
unfolding remove_task
remove_task-IsBalanced cap ni ti task b stored placed room =
    let k = pod_key ti.pod in
    let left = remove k ni.tasks in
    let (n, known) = b.known in
    let (r, rel, rel_sum) = give_back cap ni k task b stored placed room in
    let ni' : NodeInfo = record ni {
      releasing = r;
      idle = add ni.idle task.resreq;
      used = requested any_task left;
      tasks = left;
    } in
    let used_eq : sub ni.used task.resreq ≡ ok (requested any_task left) = ground (
      arith,
      b.used_sum,
      requested-remove any_task k task ni.tasks b.tasks_ok.distinct stored,
      add_comm task.resreq (requested any_task left),
      sub-add (requested any_task left) task.resreq,
    ) in
    (
      ni',
      ground (arith, known, stored, rel, used_eq),
      record {
        known = (n, known);
        tasks_ok = IsKeyed-remove k ni.tasks b.tasks_ok;
        used_sum = refl;
        idle_sum = ground (
          arith,
          requested-remove is_placed k task ni.tasks b.tasks_ok.distinct stored,
          add_assoc ni.idle task.resreq (requested is_placed left),
        );
        releasing_sum = rel_sum;
      },
      refl,
      refl,
    )
