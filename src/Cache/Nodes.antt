-- ===== src/Cache/Nodes.antt =====
-- The node handlers of pkg/scheduler/cache/event_handlers.go.
use kube_arbitrator.Common.{Option, none, some, string_key, Outcome, ok, ◌>>=◌}
use kube_arbitrator.Common.Map.{lookup, insert, remove}
use kube_arbitrator.Api.Objects.{Node}
use kube_arbitrator.Api.Status.{no_node}
use kube_arbitrator.Api.NodeInfo.{new_node_info, set_node}
use kube_arbitrator.Cache.Store.{Cache, Attempt, logged, Object, node_object, tombstone}

-- `addNode`.
unfoldable pub add_node : Cache → Node → Outcome Cache
unfolding new_node_info
add_node sc node = elim (lookup node.name sc.nodes) [
  | some ni ↦ do ni' ← set_node ni node; ok (record sc { nodes = insert node.name ni' sc.nodes })
  | none ↦ ok (record sc { nodes = insert node.name (new_node_info (some node)) sc.nodes })
]

-- `updateNode`.
unfoldable pub update_node : Cache → Node → Node → Attempt
update_node sc old_node new_node = elim (lookup new_node.name sc.nodes) [
  | some ni ↦ do
    ni' ← set_node ni new_node
    ok (record sc { nodes = insert new_node.name ni' sc.nodes }, none)
  | none ↦ ok (sc, some no_node)
]

-- `deleteNode`.
unfoldable pub delete_node : Cache → Node → Attempt
delete_node sc node = elim (lookup node.name sc.nodes) [
  | none ↦ ok (sc, some no_node)
  | some ni ↦ ok (record sc { nodes = remove node.name sc.nodes }, none)
]

abbrev pub as_node : Object → Option Node
as_node (node_object node) = some node
as_node _ = none

abbrev pub deleted_node : Object → Option Node
deleted_node (node_object node) = some node
deleted_node (tombstone obj) = as_node obj
deleted_node _ = none

-- `AddNode`.
unfoldable pub handle_add_node : Cache → Object → Outcome Cache
unfolding add_node
handle_add_node sc obj = elim (as_node obj) [ none ↦ ok sc | some node ↦ add_node sc node ]

-- `UpdateNode`.
unfoldable pub handle_update_node : Cache → Object → Object → Outcome Cache
unfolding update_node
handle_update_node sc old_obj new_obj = elim (as_node old_obj) [
  | none ↦ ok sc
  | some old_node ↦ elim (as_node new_obj) [
    | none ↦ ok sc
    | some new_node ↦ logged (update_node sc old_node new_node)
  ]
]

-- `DeleteNode`.
unfoldable pub handle_delete_node : Cache → Object → Outcome Cache
unfolding delete_node
handle_delete_node sc obj = elim (deleted_node obj) [
  | none ↦ ok sc
  | some node ↦ logged (delete_node sc node)
]
