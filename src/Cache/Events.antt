-- ===== src/Cache/Events.antt =====
-- The cache as a machine: the informers' events and the session's calls, one step each. A step takes
-- any object, also one that the pod informer's filter (`is_watched`) and the scheduling spec
-- informer's filter hold back.
use kube_arbitrator.Common.{String, List, [], ◌∷◌, Outcome, ok, ◌>>=◌}
use kube_arbitrator.Api.TaskInfo.{TaskInfo}
use kube_arbitrator.Cache.Store.{Cache, Object, logged}
use kube_arbitrator.Cache.Pods.{handle_add_pod, handle_update_pod, handle_delete_pod}
use kube_arbitrator.Cache.Nodes.{handle_add_node, handle_update_node, handle_delete_node}
use kube_arbitrator.Cache.Specs.{
  handle_add_spec, handle_update_spec, handle_delete_spec, handle_add_pdb, handle_update_pdb,
  handle_delete_pdb,
}
use kube_arbitrator.Cache.InPlace.{evict_in_place, bind_in_place}

-- The handlers that `newSchedulerCache` registers, and the two calls that change the cache.
pub data Event : Type 0 where
  pod_added pod_deleted node_added node_deleted spec_added spec_deleted : Object → Event
  pdb_added pdb_deleted : Object → Event
  pod_updated node_updated spec_updated pdb_updated : Object → Object → Event
  bind_called : TaskInfo → String → Event
  evict_called : TaskInfo → Event

unfoldable pub step : Cache → Event → Outcome Cache
step sc (pod_added obj) = handle_add_pod sc obj
step sc (pod_deleted obj) = handle_delete_pod sc obj
step sc (node_added obj) = handle_add_node sc obj
step sc (node_deleted obj) = handle_delete_node sc obj
step sc (spec_added obj) = handle_add_spec sc obj
step sc (spec_deleted obj) = handle_delete_spec sc obj
step sc (pdb_added obj) = handle_add_pdb sc obj
step sc (pdb_deleted obj) = handle_delete_pdb sc obj
step sc (pod_updated old_obj new_obj) = handle_update_pod sc old_obj new_obj
step sc (node_updated old_obj new_obj) = handle_update_node sc old_obj new_obj
step sc (spec_updated old_obj new_obj) = handle_update_spec sc old_obj new_obj
step sc (pdb_updated old_obj new_obj) = handle_update_pdb sc old_obj new_obj
step sc (bind_called task hostname) = logged (bind_in_place sc task hostname)
step sc (evict_called task) = logged (evict_in_place sc task)

unfoldable pub run : Cache → List Event → Outcome Cache
unfolding step
run sc [] = ok sc
run sc (e ∷ es) = do sc' ← step sc e; run sc' es
