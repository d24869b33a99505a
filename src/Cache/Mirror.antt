-- ===== src/Cache/Mirror.antt =====
-- The pod informer in front of the cache, as `newSchedulerCache` of pkg/scheduler/cache/cache.go wires
-- it: client-go's FilteringResourceEventHandler with the source's FilterFunc, and the three handlers.
pub mod Nodes
pub mod Tasks
pub mod Laws
use kube_arbitrator.Common.{
  ◌≡◌, Bool, true, false, not, ◌&&◌, if◌then◌else◌, Option, none, some, [], String, string_key,
  Outcome, ok,
}
use kube_arbitrator.Common.Map.{Map, lookup, insert, remove}
use kube_arbitrator.Api.Objects.{Pod}
use kube_arbitrator.Cache.Store.{Cache, Object, pod_object, empty_cache}
use kube_arbitrator.Cache.Events.{Event, node_added, node_updated, node_deleted, step}
use kube_arbitrator.Cache.Pods.{is_watched, handle_add_pod, handle_update_pod, handle_delete_pod}

-- What an informer tells a handler.
pub data Notice : Type 0 where
  added deleted : Object → Notice
  updated : Object → Object → Notice

-- `cache.FilteringResourceEventHandler` of client-go: which method of the nested handler it calls. An
-- object that comes to pass the filter is added, and one that no longer does is deleted as it was.
pub record Filtering : Type 0 where
  pub deliver : (Object → Bool) → Notice → Option Notice
  pub deliver_added :
      (f : Object → Bool) (o : Object)
      → deliver f (added o) ≡ (if f o then some (added o) else none)
  pub deliver_deleted :
      (f : Object → Bool) (o : Object)
      → deliver f (deleted o) ≡ (if f o then some (deleted o) else none)
  pub deliver_updated :
      (f : Object → Bool) (o n : Object)
      → deliver f (updated o n) ≡ (
          if f n
          then (if f o then some (updated o n) else some (added n))
          else (if f o then some (deleted o) else none))

-- The `ResourceEventHandlerFuncs` of the pod informer.
unfoldable pub pod_handler : Cache → Notice → Outcome Cache
pod_handler sc (added obj) = handle_add_pod sc obj
pod_handler sc (updated old_obj new_obj) = handle_update_pod sc old_obj new_obj
pod_handler sc (deleted obj) = handle_delete_pod sc obj

-- The handler that is added to the pod informer.
unfoldable pub on_pod : Filtering → String → Cache → Notice → Outcome Cache
unfolding pod_handler
on_pod filtering scheduler_name sc notice =
    elim (filtering.deliver (is_watched scheduler_name) notice) [
      | none ↦ ok sc
      | some n ↦ pod_handler sc n
    ]

-- The events that go to the handlers of the node informer.
unfoldable pub is_node_event : Event → Bool
is_node_event (node_added obj) = true
is_node_event (node_updated old_obj new_obj) = true
is_node_event (node_deleted obj) = true
is_node_event _ = false

-- The pods of the API server by UID, and the cache of a scheduler that is told of each change, and of
-- nodes in between. A pod's
-- UID is never used again for another pod.
pub data Followed (filtering : Filtering) (scheduler_name : String)
    : Map String Pod → Cache → Type 0 where
  started : Followed filtering scheduler_name [] empty_cache
  node_noted :
      (pods : Map String Pod) (sc sc' : Cache) (e : Event)
      → Followed filtering scheduler_name pods sc
      → is_node_event e ≡ true
      → step sc e ≡ ok sc'
      → Followed filtering scheduler_name pods sc'
  pod_created :
      (pods : Map String Pod) (sc sc' : Cache) (p : Pod)
      → Followed filtering scheduler_name pods sc
      → lookup p.uid pods ≡ none
      → on_pod filtering scheduler_name sc (added (pod_object p)) ≡ ok sc'
      → Followed filtering scheduler_name (insert p.uid p pods) sc'
  pod_changed :
      (pods : Map String Pod) (sc sc' : Cache) (p q : Pod)
      → Followed filtering scheduler_name pods sc
      → lookup p.uid pods ≡ some p
      → q.uid ≡ p.uid
      → on_pod filtering scheduler_name sc (updated (pod_object p) (pod_object q)) ≡ ok sc'
      → Followed filtering scheduler_name (insert q.uid q pods) sc'
  pod_removed :
      (pods : Map String Pod) (sc sc' : Cache) (p : Pod)
      → Followed filtering scheduler_name pods sc
      → lookup p.uid pods ≡ some p
      → on_pod filtering scheduler_name sc (deleted (pod_object p)) ≡ ok sc'
      → Followed filtering scheduler_name (remove p.uid pods) sc'
