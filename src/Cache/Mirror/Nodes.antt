-- ===== src/Cache/Mirror/Nodes.antt =====
-- The node handlers leave the jobs of the cache alone.
use kube_arbitrator.Common.{
  ◌≡◌, refl, sym, ap, inl, inr, true, none, some, String, string_key, ok, ok_inj, panic, ◌>>=◌,
  >>=-eq-ok, Outcome, Option, Option-cases,
}
use kube_arbitrator.Common.Map.{lookup, insert}
use kube_arbitrator.Api.Objects.{Node}
use kube_arbitrator.Api.NodeInfo.{NodeInfo, set_node}
use kube_arbitrator.Cache.Store.{Cache, logged}
use kube_arbitrator.Cache.Nodes.{
  as_node, deleted_node, add_node, update_node, delete_node, handle_add_node, handle_update_node,
  handle_delete_node,
}
use kube_arbitrator.Cache.Events.{Event, node_added, node_updated, node_deleted, step}
use kube_arbitrator.Cache.Unshared.{IsUnshared}
use kube_arbitrator.Cache.Mirror.{is_node_event}

-- If the computation returns, the jobs are as before.
abbrev SameJobs : Cache → Outcome Cache → Type 0
SameJobs sc m = (sc' : Cache) → m ≡ ok sc' → sc'.jobs ≡ sc.jobs

SameJobs-ok : (sc t : Cache) → t.jobs ≡ sc.jobs → SameJobs sc (ok t)
SameJobs-ok sc t same sc' h = rw (← ok_inj h) same

stored-SameJobs :
    (sc : Cache) (m : Outcome NodeInfo) (name : String)
    → SameJobs sc (m >>= λ ni. ok (record sc { nodes = insert name ni sc.nodes }))
stored-SameJobs sc (ok ni) name = SameJobs-ok sc _ refl
stored-SameJobs sc (panic p) name = λ sc' h. cc

add_node-SameJobs : (sc : Cache) (node : Node) → SameJobs sc (add_node sc node)
unfolding add_node
add_node-SameJobs sc node = elim (Option-cases (lookup node.name sc.nodes)) [
  | inl l ↦ rw (l, add_node) (SameJobs-ok sc _ refl)
  | inr (ni, l) ↦ rw (l, add_node) (stored-SameJobs sc (set_node ni node) node.name)
]

update_node-SameJobs :
    (sc : Cache) (old_node node : Node) → SameJobs sc (logged (update_node sc old_node node))
unfolding update_node
update_node-SameJobs sc old_node node = elim (Option-cases (lookup node.name sc.nodes)) [
  | inl l ↦ rw (l, update_node) (SameJobs-ok sc _ refl)
  | inr (ni, l) ↦ λ sc' h.
      let ((t, e), h₁, h₂) =
        >>=-eq-ok
          (set_node ni node >>= λ ni'.
            ok (record sc { nodes = insert node.name ni' sc.nodes }, none))
          _ (rw (l, update_node) at h) in
      let (ni', _, h₃) = >>=-eq-ok (set_node ni node) _ h₁ in
      rw (← ok_inj h₂) (ap (λ r. r.0.jobs) (ok_inj (sym h₃)))
]

delete_node-SameJobs : (sc : Cache) (node : Node) → SameJobs sc (logged (delete_node sc node))
unfolding delete_node
delete_node-SameJobs sc node = elim (Option-cases (lookup node.name sc.nodes)) [
  | inl l ↦ rw (l, delete_node) (SameJobs-ok sc _ refl)
  | inr (ni, l) ↦ rw (l, delete_node) (SameJobs-ok sc _ refl)
]

-- A handler of one object, or of two: an object of another type is ignored.
one {ℓ} :
    {A : Type ℓ} (sc : Cache) (o : Option A) (f : A → Outcome Cache)
    → ((a : A) → SameJobs sc (f a))
    → SameJobs sc (elim o [ none ↦ ok sc | some a ↦ f a ])
one sc none f same = SameJobs-ok sc sc refl
one sc (some a) f same = same a

two {ℓ} :
    {A : Type ℓ} (sc : Cache) (o n : Option A) (f : A → A → Outcome Cache)
    → ((a b : A) → SameJobs sc (f a b))
    → SameJobs sc (elim o [ none ↦ ok sc | some a ↦ elim n [ none ↦ ok sc | some b ↦ f a b ] ])
two sc none n f same = SameJobs-ok sc sc refl
two sc (some a) none f same = SameJobs-ok sc sc refl
two sc (some a) (some b) f same = same a b

pub node_event-jobs : (sc : Cache) (e : Event) → is_node_event e ≡ true → SameJobs sc (step sc e)
unfolding step is_node_event
node_event-jobs sc (node_added obj) _ =
    unfold handle_add_node in one sc (as_node obj) _ (λ node. add_node-SameJobs sc node)
node_event-jobs sc (node_deleted obj) _ =
    unfold handle_delete_node in one sc (deleted_node obj) _ (λ node. delete_node-SameJobs sc node)
node_event-jobs sc (node_updated old_obj new_obj) _ =
    unfold handle_update_node in
    two sc (as_node old_obj) (as_node new_obj) _ (λ a b. update_node-SameJobs sc a b)
node_event-jobs sc _ h = cc

-- They are no calls of the session.
pub node_event-free : (sc : Cache) (e : Event) → is_node_event e ≡ true → IsUnshared sc e
unfolding is_node_event IsUnshared
node_event-free sc (node_added obj) _ = tt
node_event-free sc (node_deleted obj) _ = tt
node_event-free sc (node_updated old_obj new_obj) _ = tt
node_event-free sc _ h = cc
