-- ===== src/Api/NodeInfo/SetNode.antt =====
-- `SetNode`: a node object that arrives after its pods, and one that replaces another.
use kube_arbitrator.Common.{
  ◌≡◌, ◌↔◌, refl, [], ◌∷◌, some, string_key, arith, ok, panic, insufficient_resource, Outcome-cases,
  inl, inr, sym, ap, ap₂, ◌∙◌,
}
use kube_arbitrator.Api.Resource.{Resource, empty_resource, new_resource, add, sub}
use kube_arbitrator.Api.Resource.Order.{Fits, sub_iff, sub_panic, sub-of_Fits}
use kube_arbitrator.Api.Resource.Sum.{add-empty, empty-add}
use kube_arbitrator.Api.Objects.{Node}
use kube_arbitrator.Api.TaskInfo.{TasksMap}
use kube_arbitrator.Api.Requested.{requested}
use kube_arbitrator.Api.NodeInfo.{NodeInfo, note_releasing, charge_tasks, set_node}
use kube_arbitrator.Api.NodeInfo.Accounts.{
  NonePipelined, IsBalanced, IsBlank, any_task, is_placed, is_pipelined, is_releasing,
}

requested-placed :
    (ts : TasksMap) → NonePipelined ts → requested is_placed ts ≡ requested any_task ts
unfolding requested
requested-placed [] h = refl
requested-placed ((k, t) ∷ ts) h = ground (arith, requested-placed ts h.1)

pub requested-pipelined :
    (ts : TasksMap) → NonePipelined ts → requested is_pipelined ts ≡ empty_resource
unfolding requested
requested-pipelined [] h = refl
requested-pipelined ((k, t) ∷ ts) h = ground (arith, requested-pipelined ts h.1)

-- The loop, where everything fits: each task is charged once, and nothing else changes.
charge_tasks-of_Fits :
    (ni : NodeInfo) (ts : TasksMap)
    → Fits (requested any_task ts) ni.idle
    → (idle : Resource) × (charge_tasks ni ts
        ≡ ok (record ni {
          releasing = add ni.releasing (requested is_releasing ts);
          idle = idle;
          used = add ni.used (requested any_task ts);
        }))
      × (add idle (requested any_task ts) ≡ ni.idle)
unfolding charge_tasks requested note_releasing add
charge_tasks-of_Fits ni [] h = (ni.idle, ground arith, ground arith)
charge_tasks-of_Fits ni ((k, t) ∷ ts) h =
    let (i, e, back) = sub-of_Fits ni.idle t.resreq (ground arith) in
    let (j, f, rest) =
      charge_tasks-of_Fits
        (record ni {
          releasing = note_releasing ni.releasing t;
          idle = i;
          used = add ni.used t.resreq;
        })
        ts (ground arith) in
    (
      j,
      rw e (
          f
          ∙ ap₂ (λ a u. ok (record ni { releasing = a; idle = j; used = u })) (ground arith)
              (ground arith)),
      ground arith,
    )

no_room : (r s i t : Resource) → add i r ≡ t → Fits s i → Fits (add r s) t
unfolding add
no_room r s i t e h = ground arith

-- The loop panics where the tasks do not all fit.
charge_tasks_unfit :
    (ni : NodeInfo) (ts : TasksMap)
    → ¬ Fits (requested any_task ts) ni.idle
    → charge_tasks ni ts ≡ panic insufficient_resource
unfolding charge_tasks requested
charge_tasks_unfit ni [] h = absurd (h (omega arith))
charge_tasks_unfit ni ((k, t) ∷ ts) h = elim (Outcome-cases (sub ni.idle t.resreq)) [
  | inl (p, e) ↦ rw e (ap panic (sub_panic ni.idle t.resreq e))
  | inr (i, e) ↦ rw e (
      charge_tasks_unfit
        (record ni {
          releasing = note_releasing ni.releasing t;
          idle = i;
          used = add ni.used t.resreq;
        })
        ts
        (λ fits. h (
          no_room t.resreq (requested any_task ts) i ni.idle ((sub_iff ni.idle t.resreq i).0 e)
            fits)))
]

-- The node object arrives after pods of its own were seen: both outcomes.
pub set_node-of_blank :
    (ni : NodeInfo) (node : Node)
    → IsBlank ni
    → NonePipelined ni.tasks
    → (Fits (requested any_task ni.tasks) (new_resource node.allocatable)
        → (ni' : NodeInfo) × (set_node ni node ≡ ok ni')
          × IsBalanced (new_resource node.allocatable) ni'
          × (ni'.tasks ≡ ni.tasks)
          × (ni'.allocatable ≡ new_resource node.allocatable))
      × (¬ Fits (requested any_task ni.tasks) (new_resource node.allocatable)
          → set_node ni node ≡ panic insufficient_resource)
unfolding set_node
set_node-of_blank ni node b fresh = (taken, refused)
  where
    start : NodeInfo
    start = record ni { idle = new_resource node.allocatable }

    taken :
        Fits (requested any_task ni.tasks) (new_resource node.allocatable)
        → (ni' : NodeInfo) × (set_node ni node ≡ ok ni')
          × IsBalanced (new_resource node.allocatable) ni'
          × (ni'.tasks ≡ ni.tasks)
          × (ni'.allocatable ≡ new_resource node.allocatable)
    taken fits =
        let (idle, e, sum) = charge_tasks-of_Fits start ni.tasks fits in
        (
          record ni {
            name = node.name;
            node = some node;
            releasing = add ni.releasing (requested is_releasing ni.tasks);
            idle = idle;
            used = add ni.used (requested any_task ni.tasks);
            allocatable = new_resource node.allocatable;
            capability = new_resource node.capacity;
          },
          ground (arith, b.unknown, e),
          record {
            known = (node, refl);
            tasks_ok = b.tasks_ok;
            used_sum = rw b.unused (empty-add _);
            idle_sum = rw (requested-placed ni.tasks fresh) sum;
            releasing_sum =
                rw (requested-pipelined ni.tasks fresh, b.none_releasing)
                  (add-empty _ ∙ empty-add _);
          },
          refl,
          refl,
        )

    refused :
        ¬ Fits (requested any_task ni.tasks) (new_resource node.allocatable)
        → set_node ni node ≡ panic insufficient_resource
    refused unfit = ground (arith, b.unknown, charge_tasks_unfit start ni.tasks unfit)

-- The node object arrives after pods of its own were seen, whose requests fit into the allocatable
-- resources together: the call returns, and the node is balanced for the allocatable size with
-- the tasks that were there.
pub set_node-of_Fits :
    (ni : NodeInfo) (node : Node)
    → IsBlank ni
    → NonePipelined ni.tasks
    → Fits (requested any_task ni.tasks) (new_resource node.allocatable)
    → (ni' : NodeInfo) × (set_node ni node ≡ ok ni')
      × IsBalanced (new_resource node.allocatable) ni'
      × (ni'.tasks ≡ ni.tasks)
      × (ni'.allocatable ≡ new_resource node.allocatable)
set_node-of_Fits ni node b placed fits = (set_node-of_blank ni node b placed).0 fits

-- The node object arrives after pods of its own were seen, whose requests together do not fit into
-- the allocatable resources: the call panics.
pub set_node-of_no_room :
    (ni : NodeInfo) (node : Node)
    → IsBlank ni
    → NonePipelined ni.tasks
    → ¬ Fits (requested any_task ni.tasks) (new_resource node.allocatable)
    → set_node ni node ≡ panic insufficient_resource
set_node-of_no_room ni node b placed unfit = (set_node-of_blank ni node b placed).1 unfit

-- A node object for a node that is known and balanced for some size is taken, and sets the
-- allocatable size. The tasks and the balance for the old size stay, and the idle resource
-- stays what the old size left, so that it agrees with the new size only if the two are equal.
pub set_node-of_known :
    (cap : Resource) (ni : NodeInfo) (node : Node)
    → IsBalanced cap ni
    → (ni' : NodeInfo) × (set_node ni node ≡ ok ni')
      × (ni'.allocatable ≡ new_resource node.allocatable)
      × (ni'.idle ≡ ni.idle)
      × (ni'.tasks ≡ ni.tasks)
      × IsBalanced cap ni'
      × ((add ni'.idle (requested is_placed ni'.tasks) ≡ ni'.allocatable)
          ↔ (cap ≡ new_resource node.allocatable))
unfolding set_node
set_node-of_known cap ni node b =
    let ni' : NodeInfo = record ni {
      name = node.name;
      node = some node;
      allocatable = new_resource node.allocatable;
      capability = new_resource node.capacity;
    } in
    (
      ni',
      ground (arith, b.known.1),
      refl,
      refl,
      refl,
      record {
        known = (node, refl);
        tasks_ok = b.tasks_ok;
        used_sum = b.used_sum;
        idle_sum = b.idle_sum;
        releasing_sum = b.releasing_sum;
      },
      (λ e. sym b.idle_sum ∙ e, λ e. b.idle_sum ∙ e),
    )
