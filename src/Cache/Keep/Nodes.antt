-- ===== src/Cache/Keep/Nodes.antt =====
-- The node handlers keep the cache sound.
use kube_arbitrator.Common.{none, some, string_key, ok, Option-cases, inl, inr}
use kube_arbitrator.Common.Map.{lookup, insert}
use kube_arbitrator.Api.Objects.{Node}
use kube_arbitrator.Api.NodeInfo.{set_node}
use kube_arbitrator.Api.NodeInfo.Settled.{new_node_info-IsSettled, set_node-IsSettled}
use kube_arbitrator.Cache.Store.{Cache, logged}
use kube_arbitrator.Cache.Nodes.{add_node, update_node, delete_node}
use kube_arbitrator.Cache.Sound.{
  IsSound, Keeps, Keeps-ok, Keeps-bind, Keeps-logged, insert_node-IsSound, remove_node-IsSound,
}

pub add_node-Keeps : (sc : Cache) (node : Node) → IsSound sc → Keeps (add_node sc node)
unfolding add_node
add_node-Keeps sc node s = elim (Option-cases (lookup node.name sc.nodes)) [
  | inl l ↦
      rw (l, add_node)
        (Keeps-ok (insert_node-IsSound node.name s (new_node_info-IsSettled (some node))))
  | inr (ni, l) ↦
      rw (l, add_node)
        (Keeps-bind (set_node ni node)
          (λ ni'. ok (record sc { nodes = insert node.name ni' sc.nodes }))
          (λ ni' e. Keeps-ok (
            insert_node-IsSound node.name s
              (set_node-IsSettled ni ni' node (s.nodes_ok node.name ni l) e))))
]

pub update_node-Keeps :
    (sc : Cache) (old_node node : Node) → IsSound sc → Keeps (logged (update_node sc old_node node))
unfolding update_node
update_node-Keeps sc old_node node s = elim (Option-cases (lookup node.name sc.nodes)) [
  | inl l ↦ rw (l, update_node) (Keeps-ok s)
  | inr (ni, l) ↦
      rw (l, update_node)
        (Keeps-logged (set_node ni node)
          (λ ni'. ok (record sc { nodes = insert node.name ni' sc.nodes }, none))
          (λ ni' e. Keeps-ok (
            insert_node-IsSound node.name s
              (set_node-IsSettled ni ni' node (s.nodes_ok node.name ni l) e))))
]

pub delete_node-Keeps :
    (sc : Cache) (node : Node) → IsSound sc → Keeps (logged (delete_node sc node))
unfolding delete_node
delete_node-Keeps sc node s = elim (Option-cases (lookup node.name sc.nodes)) [
  | inl l ↦ rw (l, delete_node) (Keeps-ok s)
  | inr (ni, l) ↦ rw (l, delete_node) (Keeps-ok (remove_node-IsSound node.name s))
]
