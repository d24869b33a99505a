-- ===== src/Framework/Charges.antt =====
-- What placing a task takes from the accounts of each node of the session.
pub mod Marks
pub mod Placing
use kube_arbitrator.Common.{
  ℕ, zero, suc, ◌≡◌, ◌≢◌, refl, sym, ap, ◌∙◌, subst, ite, if_pos, if_neg, List, [], ◌∷◌, Option,
  none, some, String, string_key, Outcome, ok, ◌>>=◌, >>=-eq-ok, ok_inj, arith, Option-cases, inl,
  inr, ◌⊎◌, Bool, true, false, ◌==◌, if◌then◌else◌,
}
use kube_arbitrator.Common.Lists.{get_elem?, set}
use kube_arbitrator.Common.Map.{lookup}
use kube_arbitrator.Api.Resource.{Resource, empty_resource, add}
use kube_arbitrator.Api.Status.{
  TaskStatus, Error, releasing, allocated as allocated_state, pipelined as pipelined_state,
  validate_status_update,
}
use kube_arbitrator.Api.TaskInfo.{TaskInfo}
use kube_arbitrator.Api.JobInfo.{JobInfo, update_task_status, delete_task_info}
use kube_arbitrator.Api.NodeInfo.{NodeInfo, add_task, pipeline_task}
use kube_arbitrator.Plugins.Drf
use kube_arbitrator.Framework.Session
use kube_arbitrator.Framework.Calls
use kube_arbitrator.Framework.Frame.{
  IsFrame, SameNode, SameNode-IsNodeFrame, mark_task-frame, move_task-frame, fire_allocate-frame,
}
use kube_arbitrator.Framework.Frame.Places.{assign-frame}
use kube_arbitrator.Framework.Frame.Dispatch.{assigned-frame}
use kube_arbitrator.Api.NodeInfo.Charges.{
  node_charge, IsCharged, IsCharged-none, IsCharged-trans, add_task-IsCharged,
  pipeline_task-IsCharged,
}

-- A write to the place `i` of a list, seen at the place `k`.
get_elem?-set_at :
    {A : Type 0} (xs : List A) (i k : ℕ) (x y z : A)
    → get_elem? xs i ≡ some x
    → get_elem? xs k ≡ some z
    → ((i ≡ k) × (x ≡ z) × (get_elem? (set xs i y) k ≡ some y))
      ⊎ ((i ≢ k) × (get_elem? (set xs i y) k ≡ some z))
get_elem?-set_at [] i k x y z at h = cc
get_elem?-set_at (w ∷ xs) zero zero x y z at h = inl (refl, ground (arith, at, h), refl)
get_elem?-set_at (w ∷ xs) zero (suc k) x y z at h = inr (λ e. omega arith, h)
get_elem?-set_at (w ∷ xs) (suc i) zero x y z at h = inr (λ e. omega arith, h)
get_elem?-set_at (w ∷ xs) (suc i) (suc k) x y z at h = elim (get_elem?-set_at xs i k x y z at h) [
  | inl (e, f, g) ↦ inl (ap suc e, f, g)
  | inr (e, g) ↦ inr (λ q. e (omega arith), g)
]

here : (i k : ℕ) → i ≡ k → (i == k) ≡ true
here i k e = ground arith

elsewhere : (i k : ℕ) → i ≢ k → (i == k) ≡ false
elsewhere i k e = ground arith

module _ (fl : Drf.Float64) where
  -- The part of `c` that concerns the node at position `k`, if `c` is for the node called `name`.
  unfoldable pub at_position : Session.Session fl → ℕ → String → Resource → Resource
  at_position s k name c = elim (lookup name s.node_index) [
    | none ↦ empty_resource
    | some i ↦ if i == k then c else empty_resource
  ]

  -- What placing the task on the node called `name` takes from the node at position `k`.
  unfoldable pub charge : Session.Session fl → ℕ → String → TaskInfo → Resource
  unfolding at_position node_charge
  charge s k name task = elim (Calls.node_of fl s name) [
    | none ↦ empty_resource
    | some ni ↦ at_position s k name (node_charge ni task)
  ]

  -- The node at position `k` is still there, with accounts that are charged with `c` and `w`.
  abbrev pub Charges : Session.Session fl → Session.Session fl → ℕ → Resource → Resource → Type 0
  Charges s t k c w =
      (ni : NodeInfo)
      → get_elem? s.nodes k ≡ some ni
      → (ni' : NodeInfo) × (get_elem? t.nodes k ≡ some ni') × IsCharged ni ni' c w

  pub Charges-trans :
      (s t u : Session.Session fl) (k : ℕ) {c c' w w' : Resource}
      → Charges s t k c w
      → Charges t u k c' w'
      → Charges s u k (add c c') (add w w')
  Charges-trans s t u k h g ni at =
      let (ni', at', a) = h ni at in
      let (ni'', at'', b) = g ni' at' in (ni'', at'', IsCharged-trans a b)

  pub put_node-Charges :
      (s : Session.Session fl) (name : String) (ni ni' : NodeInfo) (k : ℕ) (c w : Resource)
      → Calls.node_of fl s name ≡ some ni
      → IsCharged ni ni' c w
      → Charges s (Calls.put_node fl s name ni') k (at_position s k name c) (at_position s k name w)
  unfolding Calls.put_node Calls.node_of at_position
  put_node-Charges s name ni ni' k c w at h old there =
      elim (Option-cases (lookup name s.node_index)) [
        | inl l ↦ cc
        | inr (i, l) ↦
            elim (get_elem?-set_at s.nodes i k ni ni' old (rw (l, Calls.node_of) at at) there) [
              | inl (e, same, now) ↦
                  rw (l, Calls.put_node, at_position)
                    (rw (here i k e) (ni', now, subst (λ x. IsCharged x ni' c w) same h))
              | inr (n, now) ↦
                  rw (l, Calls.put_node, at_position)
                    (rw (elsewhere i k n) (old, now, IsCharged-none old))
            ]
      ]
