-- ===== src/Cache/Reach.antt =====
-- Every event keeps the cache sound, and so does every history of events.
use kube_arbitrator.Common.{
  ◌≡◌, List, [], ◌∷◌, Option, none, some, Outcome, ok, subst, sym, ◌∙◌, ok_inj,
}
use kube_arbitrator.Cache.Store.{Cache}
use kube_arbitrator.Api.Objects.{Pod}
use kube_arbitrator.Cache.Pods.{
  delete_pod, as_pod, deleted_pod, handle_add_pod, handle_update_pod, handle_delete_pod,
}
use kube_arbitrator.Cache.Nodes.{
  as_node, deleted_node, handle_add_node, handle_update_node, handle_delete_node,
}
use kube_arbitrator.Cache.Specs.{
  as_spec, deleted_spec, as_pdb, deleted_pdb, handle_add_spec, handle_update_spec,
  handle_delete_spec, handle_add_pdb, handle_update_pdb, handle_delete_pdb,
}
use kube_arbitrator.Cache.Events.{
  Event, pod_added, pod_deleted, node_added, node_deleted, spec_added, spec_deleted, pdb_added,
  pdb_deleted, pod_updated, node_updated, spec_updated, pdb_updated, bind_called, evict_called,
  step, run,
}
use kube_arbitrator.Cache.Unshared.{
  IsUnshared, AllUnshared, bind_in_place-free, evict_in_place-free,
}
use kube_arbitrator.Cache.Sound.{IsSound, Keeps, Keeps-ok, Keeps-bind}
use kube_arbitrator.Cache.Keep.Pods.{add_pod-Keeps, update_pod-Keeps, delete_pod-IsSound}
use kube_arbitrator.Cache.Keep.Nodes.{add_node-Keeps, update_node-Keeps, delete_node-Keeps}
use kube_arbitrator.Cache.Keep.Specs.{
  store_spec-Keeps, store_pdb-Keeps, delete_spec-Keeps, delete_pdb-Keeps,
}
use kube_arbitrator.Cache.Keep.Calls.{bind-Keeps, evict-Keeps}

-- A handler of one object: an object of another type is logged and ignored.
one {ℓ} :
    {A : Type ℓ} (sc : Cache) (o : Option A) (f : A → Outcome Cache)
    → IsSound sc
    → ((a : A) → Keeps (f a))
    → Keeps (elim o [ none ↦ ok sc | some a ↦ f a ])
one sc none f s keep = Keeps-ok s
one sc (some a) f s keep = keep a

two {ℓ} :
    {A : Type ℓ} (sc : Cache) (o n : Option A) (f : A → A → Outcome Cache)
    → IsSound sc
    → ((a b : A) → Keeps (f a b))
    → Keeps (elim o [ none ↦ ok sc | some a ↦ elim n [ none ↦ ok sc | some b ↦ f a b ] ])
two sc none n f s keep = Keeps-ok s
two sc (some a) none f s keep = Keeps-ok s
two sc (some a) (some b) f s keep = keep a b

delete_pod-Keeps : (sc : Cache) (pod : Pod) → IsSound sc → Keeps (delete_pod sc pod)
delete_pod-Keeps sc pod s =
    let (sc', e, s') = delete_pod-IsSound sc pod s in λ t h. subst IsSound (ok_inj (sym e ∙ h)) s'

-- Any event: if its handling returns, a sound cache stays sound.
pub step-Keeps : (sc : Cache) (e : Event) → IsUnshared sc e → IsSound sc → Keeps (step sc e)
unfolding step
step-Keeps sc (pod_added obj) free s =
    unfold handle_add_pod in one sc (as_pod obj) _ s (λ pod. add_pod-Keeps sc pod s)
step-Keeps sc (pod_deleted obj) free s =
    unfold handle_delete_pod in one sc (deleted_pod obj) _ s (λ pod. delete_pod-Keeps sc pod s)
step-Keeps sc (node_added obj) free s =
    unfold handle_add_node in one sc (as_node obj) _ s (λ node. add_node-Keeps sc node s)
step-Keeps sc (node_deleted obj) free s =
    unfold handle_delete_node in one sc (deleted_node obj) _ s (λ node. delete_node-Keeps sc node s)
step-Keeps sc (spec_added obj) free s =
    unfold handle_add_spec in one sc (as_spec obj) _ s (λ ss. store_spec-Keeps sc ss s)
step-Keeps sc (spec_deleted obj) free s =
    unfold handle_delete_spec in one sc (deleted_spec obj) _ s (λ ss. delete_spec-Keeps sc ss s)
step-Keeps sc (pdb_added obj) free s =
    unfold handle_add_pdb in one sc (as_pdb obj) _ s (λ pdb. store_pdb-Keeps sc pdb s)
step-Keeps sc (pdb_deleted obj) free s =
    unfold handle_delete_pdb in one sc (deleted_pdb obj) _ s (λ pdb. delete_pdb-Keeps sc pdb s)
step-Keeps sc (pod_updated old_obj new_obj) free s =
    unfold handle_update_pod in
    two sc (as_pod old_obj) (as_pod new_obj) _ s (λ a b. update_pod-Keeps sc a b s)
step-Keeps sc (node_updated old_obj new_obj) free s =
    unfold handle_update_node in
    two sc (as_node old_obj) (as_node new_obj) _ s (λ a b. update_node-Keeps sc a b s)
step-Keeps sc (spec_updated old_obj new_obj) free s =
    unfold handle_update_spec in
    two sc (as_spec old_obj) (as_spec new_obj) _ s (λ a b. store_spec-Keeps sc b s)
step-Keeps sc (pdb_updated old_obj new_obj) free s =
    unfold handle_update_pdb in
    two sc (as_pdb old_obj) (as_pdb new_obj) _ s (λ a b. store_pdb-Keeps sc b s)
step-Keeps sc (bind_called task hostname) free s =
    rw (bind_in_place-free sc task hostname free) (bind-Keeps sc task hostname s)
step-Keeps sc (evict_called task) free s =
    rw (evict_in_place-free sc task free) (evict-Keeps sc task s)

-- From a sound cache, each history of informer events and session calls that runs without panic,
-- and in which no node holds a task when `Bind` is called for it, and no node but the task's own when
-- `Evict` is, leaves the cache sound: in each job the accounts are the sums of the requests of its
-- tasks, which stand under their UIDs, and each node has no pipelined task and is balanced for some
-- size, or has no accounts yet.
pub run-IsSound :
    (sc sc' : Cache) (es : List Event)
    → IsSound sc
    → AllUnshared sc es
    → run sc es ≡ ok sc'
    → IsSound sc'
unfolding run AllUnshared
run-IsSound sc sc' [] s unshared h = Keeps-ok s sc' h
run-IsSound sc sc' (e ∷ es) s (free, rest) h =
    Keeps-bind (step sc e) (λ t. run t es)
      (λ t done u then_. run-IsSound t u es (step-Keeps sc e free s t done) (rw done at rest) then_)
      sc' h
