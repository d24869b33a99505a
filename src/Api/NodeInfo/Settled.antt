-- ===== src/Api/NodeInfo/Settled.antt =====
-- Nodes as the cache holds them: every operation that returns keeps a node settled, and a removal
-- always returns.
use kube_arbitrator.Common.{
  ◌≡◌, ◌≢◌, refl, [], ◌∷◌, sym, ◌∙◌, subst, Option, none, some, String, string_key, arith, ok,
  Option-cases, ok_inj, ok_not_panic, inl, inr,
}
use kube_arbitrator.Common.Map.{lookup, insert, remove, remove_absent}
use kube_arbitrator.Api.Resource.{new_resource}
use kube_arbitrator.Api.Resource.Order.{dec_Fits}
use kube_arbitrator.Api.Resource.Sum.{add-empty}
use kube_arbitrator.Api.Objects.{Node, pod_key}
use kube_arbitrator.Api.Status.{pipelined}
use kube_arbitrator.Api.TaskInfo.{TaskInfo, TasksMap}
use kube_arbitrator.Api.Requested.{requested, All-insert, All-remove}
use kube_arbitrator.Api.NodeInfo.{NodeInfo, new_node_info, add_task, remove_task, set_node}
use kube_arbitrator.Api.NodeInfo.Accounts.{NonePipelined, IsSettled, any_task}
use kube_arbitrator.Api.NodeInfo.Changes.{
  IsKeyed-insert, IsKeyed-remove, add_task-IsBalanced, add_task_refused, remove_task-IsBalanced,
}
use kube_arbitrator.Api.NodeInfo.SetNode.{requested-pipelined, set_node-of_blank, set_node-of_known}

abbrev NotPipelined : String × TaskInfo → Type 0
NotPipelined e = e.1.status ≢ pipelined

stored-placed :
    (k : String) (t : TaskInfo) (ts : TasksMap)
    → NonePipelined ts
    → lookup k ts ≡ some t
    → t.status ≢ pipelined
unfolding lookup
stored-placed k t [] h e = cc
stored-placed k t ((j, w) ∷ ts) h e = elim (string_key.dec j k) [
  | yes here ↦ λ p. h.0 (ground arith)
  | no other ↦ stored-placed k t ts h.1 (ground arith)
]

-- A node that is made for a pod or from a node object is settled.
pub new_node_info-IsSettled : (node : Option Node) → IsSettled (new_node_info node)
unfolding new_node_info lookup requested
new_node_info-IsSettled none = record {
  none_pipelined = tt;
  accounts = inl (record {
    unknown = refl;
    tasks_ok = record { distinct = tt; keyed = λ k t e. cc };
    unused = refl;
    none_idle = refl;
    none_releasing = refl;
  });
}
new_node_info-IsSettled (some node) = record {
  none_pipelined = tt;
  accounts = inr (
    new_resource node.allocatable,
    record {
      known = (node, refl);
      tasks_ok = record { distinct = tt; keyed = λ k t e. cc };
      used_sum = refl;
      idle_sum = add-empty _;
      releasing_sum = add-empty _;
    },
  );
}

-- `RemoveTask` on a settled node returns, and the node stays settled without the task.
pub remove_task-IsSettled :
    (ni : NodeInfo) (ti : TaskInfo)
    → IsSettled ni
    → (ni' : NodeInfo) × (remove_task ni ti ≡ ok ni')
      × IsSettled ni'
      × (ni'.tasks ≡ remove (pod_key ti.pod) ni.tasks)
unfolding remove_task
remove_task-IsSettled ni ti s = elim (Option-cases (lookup (pod_key ti.pod) ni.tasks)) [
  | inl e ↦ (ni, ground (arith, e), s, sym (remove_absent (pod_key ti.pod) ni.tasks e))
  | inr (task, e) ↦ elim s.accounts [
    | inl b ↦ (
      record ni { tasks = remove (pod_key ti.pod) ni.tasks },
      ground (arith, e, b.unknown),
      record {
        none_pipelined = All-remove NotPipelined (pod_key ti.pod) ni.tasks s.none_pipelined;
        accounts = inl (record {
          unknown = b.unknown;
          tasks_ok = IsKeyed-remove (pod_key ti.pod) ni.tasks b.tasks_ok;
          unused = b.unused;
          none_idle = b.none_idle;
          none_releasing = b.none_releasing;
        });
      },
      refl,
    )
    | inr (cap, b) ↦
        let (ni', removed, b', _, tasks) =
          remove_task-IsBalanced cap ni ti task b e
            (stored-placed (pod_key ti.pod) task ni.tasks s.none_pipelined e)
            (rw (requested-pipelined ni.tasks s.none_pipelined) (omega arith)) in
        (
          ni',
          removed,
          record {
            none_pipelined =
                rw tasks (All-remove NotPipelined (pod_key ti.pod) ni.tasks s.none_pipelined);
            accounts = inr (cap, b');
          },
          tasks,
        )
  ]
]

-- Where `AddTask` of a task that is not pipelined returns, a settled node stays settled.
pub add_task-IsSettled :
    (ni ni' : NodeInfo) (task : TaskInfo)
    → IsSettled ni
    → task.status ≢ pipelined
    → add_task ni task ≡ ok ni'
    → IsSettled ni'
unfolding add_task
add_task-IsSettled ni ni' task s placed added =
    let k = pod_key task.pod in
    elim (Option-cases (lookup k ni.tasks)) [
      | inr (t, e) ↦ subst IsSettled (ok_inj (sym (ground (arith, e)) ∙ added)) s
      | inl e ↦ elim s.accounts [
        | inl b ↦
            subst IsSettled {x = record ni { tasks = insert k task ni.tasks }}
              (ok_inj (sym (ground (arith, e, b.unknown)) ∙ added))
              (record {
                none_pipelined = All-insert NotPipelined k task ni.tasks s.none_pipelined placed;
                accounts = inl (record {
                  unknown = b.unknown;
                  tasks_ok = IsKeyed-insert task ni.tasks b.tasks_ok;
                  unused = b.unused;
                  none_idle = b.none_idle;
                  none_releasing = b.none_releasing;
                });
              })
        | inr (cap, b) ↦ elim (dec_Fits task.resreq ni.idle) [
          | no unfit ↦ absurd (ok_not_panic (sym added ∙ add_task_refused cap ni task b e unfit))
          | yes fits ↦
              let (node, done, b', _, tasks) = add_task-IsBalanced cap ni task b e placed fits in
              subst IsSettled (ok_inj (sym done ∙ added)) (record {
                none_pipelined =
                    rw tasks (All-insert NotPipelined k task ni.tasks s.none_pipelined placed);
                accounts = inr (cap, b');
              })
        ]
      ]
    ]

-- Where `SetNode` returns, a settled node stays settled.
pub set_node-IsSettled :
    (ni ni' : NodeInfo) (node : Node) → IsSettled ni → set_node ni node ≡ ok ni' → IsSettled ni'
set_node-IsSettled ni ni' node s done = elim s.accounts [
  | inr (cap, b) ↦
      let (known, e, _, _, tasks, b', _) = set_node-of_known cap ni node b in
      subst IsSettled (ok_inj (sym e ∙ done))
        (record { none_pipelined = rw tasks s.none_pipelined; accounts = inr (cap, b') })
  | inl b ↦
      let both = set_node-of_blank ni node b s.none_pipelined in
      elim (dec_Fits (requested any_task ni.tasks) (new_resource node.allocatable)) [
        | no unfit ↦ absurd (ok_not_panic (sym done ∙ both.1 unfit))
        | yes fits ↦
            let (known, e, b', tasks, _) = both.0 fits in
            subst IsSettled (ok_inj (sym e ∙ done)) (record {
              none_pipelined = rw tasks s.none_pipelined;
              accounts = inr (new_resource node.allocatable, b');
            })
      ]
]
