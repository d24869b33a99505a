-- ===== src/Cache/Unshared.antt =====
-- Histories in which no node holds a task when `Bind` is called for it, and no node but the task's own when
-- `Evict` is. There the change of the status in place is seen by the job only.
use kube_arbitrator.Common.{
  ◌≡◌, refl, subst, Outcome, ap, List, [], ◌∷◌, none, some, String, string_key, ok, panic,
  Option-cases, inl, inr, if_pos, if_neg,
}
use kube_arbitrator.Common.Lists.{All}
use kube_arbitrator.Common.Map.{Map, lookup, remove}
use kube_arbitrator.Api.Objects.{Pod, pod_key}
use kube_arbitrator.Api.Status.{
  TaskStatus, binding as binding_status, releasing as releasing_status,
}
use kube_arbitrator.Api.TaskInfo.{TaskInfo}
use kube_arbitrator.Api.NodeInfo.{NodeInfo}
use kube_arbitrator.Cache.Store.{Cache}
use kube_arbitrator.Cache.Calls.{Found, found, missing, find_job_and_task, bind, evict}
use kube_arbitrator.Cache.InPlace.{
  show_status, show_on_all, show_on_others, bind_in_place, evict_in_place,
}
use kube_arbitrator.Cache.Events.{
  Event, bind_called, evict_called, pod_added, pod_deleted, node_added, node_deleted, spec_added,
  spec_deleted, pdb_added, pdb_deleted, pod_updated, node_updated, spec_updated, pdb_updated, step,
}

-- None of the nodes holds a task under the pod's key.
abbrev pub IsFree : Pod → Map String NodeInfo → Type 0
IsFree pod = All (λ ((name, ni) : String × NodeInfo). lookup (pod_key pod) ni.tasks ≡ none)

abbrev FreeToBind : Cache → Found → Type 0
FreeToBind sc (missing e) = Unit
FreeToBind sc (found job t) = IsFree t.pod sc.nodes

abbrev FreeToEvict : Cache → Found → Type 0
FreeToEvict sc (missing e) = Unit
FreeToEvict sc (found job t) = IsFree t.pod (remove t.node_name sc.nodes)

unfoldable pub IsUnshared : Cache → Event → Type 0
unfolding find_job_and_task
IsUnshared sc (bind_called task hostname) = FreeToBind sc (find_job_and_task sc task)
IsUnshared sc (evict_called task) = FreeToEvict sc (find_job_and_task sc task)
IsUnshared sc _ = Unit

-- What holds of the cache that a step leaves, if it returns.
abbrev pub After : Outcome Cache → (Cache → Type 0) → Type 0
After (ok t) P = P t
After (panic p) P = Unit

-- Each call of a history finds its task unshared.
unfoldable pub AllUnshared : Cache → List Event → Type 0
unfolding IsUnshared step
AllUnshared sc [] = Unit
AllUnshared sc (e ∷ es) = IsUnshared sc e × After (step sc e) (λ t. AllUnshared t es)

show_status-free :
    (key : String) (s : TaskStatus) (ni : NodeInfo)
    → lookup key ni.tasks ≡ none
    → show_status key s ni ≡ ni
unfolding show_status
show_status-free key s ni e = rw (e, show_status) refl

show_on_all-IsFree :
    (pod : Pod) (s : TaskStatus) (nodes : Map String NodeInfo)
    → IsFree pod nodes
    → show_on_all (pod_key pod) s nodes ≡ nodes
unfolding show_on_all
show_on_all-IsFree pod s [] free = refl
show_on_all-IsFree pod s ((name, ni) ∷ nodes) (e, free) =
    rw (show_status-free (pod_key pod) s ni e, show_on_all-IsFree pod s nodes free) refl

show_on_others-IsFree :
    (own : String) (pod : Pod) (s : TaskStatus) (nodes : Map String NodeInfo)
    → IsFree pod (remove own nodes)
    → show_on_others own (pod_key pod) s nodes ≡ nodes
unfolding show_on_others remove
show_on_others-IsFree own pod s [] free = refl
show_on_others-IsFree own pod s ((name, ni) ∷ nodes) free = elim (string_key.dec name own) [
  | yes here ↦
      rw
        (
          if_pos _ here,
          show_on_others-IsFree own pod s nodes
              (subst (IsFree pod) (if_pos (string_key.dec name own) here _ _) free),
        )
        refl
  | no other ↦
      let both : (lookup (pod_key pod) ni.tasks ≡ none) × IsFree pod (remove own nodes) =
        subst (IsFree pod) (if_neg (string_key.dec name own) other _ _) free in
      rw
        (
          if_neg _ other,
          show_status-free (pod_key pod) s ni both.0,
          show_on_others-IsFree own pod s nodes both.1,
        )
        refl
]

bind_found :
    (sc : Cache) (task : TaskInfo) (hostname : String) (r : Found)
    → FreeToBind sc r
    → (elim r [
      | missing e ↦ bind sc task hostname
      | found job t ↦ elim (lookup hostname sc.nodes) [
        | none ↦ bind sc task hostname
        | some node ↦
            bind
              (record sc { nodes = show_on_all (pod_key t.pod) binding_status sc.nodes })
              task
              hostname
      ]
    ])
      ≡ bind sc task hostname
bind_found sc task hostname (missing e) free = refl
bind_found sc task hostname (found job t) free = elim (Option-cases (lookup hostname sc.nodes)) [
  | inl l ↦ rw l refl
  | inr (node, l) ↦ rw l (
      ap (λ ns. bind (record sc { nodes = ns }) task hostname)
        (show_on_all-IsFree t.pod binding_status sc.nodes free))
]

evict_found :
    (sc : Cache) (task : TaskInfo) (r : Found)
    → FreeToEvict sc r
    → (elim r [
      | missing e ↦ evict sc task
      | found job t ↦ elim (lookup t.node_name sc.nodes) [
        | none ↦ evict sc task
        | some node ↦
            evict
              (record sc {
                nodes = show_on_others t.node_name (pod_key t.pod) releasing_status sc.nodes;
              })
              task
      ]
    ])
      ≡ evict sc task
evict_found sc task (missing e) free = refl
evict_found sc task (found job t) free = elim (Option-cases (lookup t.node_name sc.nodes)) [
  | inl l ↦ rw l refl
  | inr (node, l) ↦ rw l (
      ap (λ ns. evict (record sc { nodes = ns }) task)
        (show_on_others-IsFree t.node_name t.pod releasing_status sc.nodes free))
]

-- Where no node holds the task, `Bind` is as if the job had it alone.
pub bind_in_place-free :
    (sc : Cache) (task : TaskInfo) (hostname : String)
    → IsUnshared sc (bind_called task hostname)
    → bind_in_place sc task hostname ≡ bind sc task hostname
unfolding bind_in_place IsUnshared
bind_in_place-free sc task hostname free =
    bind_found sc task hostname (find_job_and_task sc task) free

-- Where no node but its own holds the task, so is `Evict`.
pub evict_in_place-free :
    (sc : Cache) (task : TaskInfo)
    → IsUnshared sc (evict_called task)
    → evict_in_place sc task ≡ evict sc task
unfolding evict_in_place IsUnshared
evict_in_place-free sc task free = evict_found sc task (find_job_and_task sc task) free

-- An event of an informer, and no call of the session.
abbrev NoCall : Event → Type 0
NoCall (bind_called task hostname) = ⊥
NoCall (evict_called task) = ⊥
NoCall _ = Unit

NoCall-free : (sc : Cache) (e : Event) → NoCall e → IsUnshared sc e
unfolding IsUnshared
NoCall-free sc (bind_called task hostname) n = absurd n
NoCall-free sc (evict_called task) n = absurd n
NoCall-free sc (pod_added obj) n = tt
NoCall-free sc (pod_deleted obj) n = tt
NoCall-free sc (node_added obj) n = tt
NoCall-free sc (node_deleted obj) n = tt
NoCall-free sc (spec_added obj) n = tt
NoCall-free sc (spec_deleted obj) n = tt
NoCall-free sc (pdb_added obj) n = tt
NoCall-free sc (pdb_deleted obj) n = tt
NoCall-free sc (pod_updated old_obj new_obj) n = tt
NoCall-free sc (node_updated old_obj new_obj) n = tt
NoCall-free sc (spec_updated old_obj new_obj) n = tt
NoCall-free sc (pdb_updated old_obj new_obj) n = tt

-- A history without calls.
pub NoCall-AllUnshared : (sc : Cache) (es : List Event) → All NoCall es → AllUnshared sc es
unfolding AllUnshared
NoCall-AllUnshared sc [] n = tt
NoCall-AllUnshared sc (e ∷ es) (n, rest) =
    (NoCall-free sc e n, later (step sc e) (λ t. NoCall-AllUnshared t es rest))
  where
    later : (o : Outcome Cache) → ((t : Cache) → AllUnshared t es) → After o (λ t. AllUnshared t es)
    later (ok t) free = free t
    later (panic p) free = tt
