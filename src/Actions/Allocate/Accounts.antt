-- ===== src/Actions/Allocate/Accounts.antt =====
-- The allocate action never promises more of a node than it has.
use kube_arbitrator.Common.{ℕ, ◌≡◌, some, string_key, ok, arith}
use kube_arbitrator.Common.Lists.{get_elem?}
use kube_arbitrator.Api.Resource.{Resource, empty_resource, add}
use kube_arbitrator.Api.Resource.Order.{Fits}
use kube_arbitrator.Api.TaskInfo.{TaskInfo}
use kube_arbitrator.Api.Requested.{requested}
use kube_arbitrator.Api.NodeInfo.{NodeInfo}
use kube_arbitrator.Api.NodeInfo.Accounts.{IsBalanced, is_placed, is_pipelined, is_releasing}
use kube_arbitrator.Api.NodeInfo.Charges.{IsCharged, IsCharged-none}
use kube_arbitrator.Plugins.Drf
use kube_arbitrator.Queue.{Heap}
use kube_arbitrator.Framework.Session
use kube_arbitrator.Framework.Charges.{charge, Charges, Charges-trans}
use kube_arbitrator.Framework.Charges.Placing.{pipeline-Charges, allocate-Charges}
use kube_arbitrator.Actions.Allocate.{execute}
use kube_arbitrator.Actions.Allocate.Steps.{
  Place, allocated, pipelined, Places, done, next, execute-Places,
}

module _ (fl : Drf.Float64) (k : ℕ) where
  -- What one placement, and a sequence of them, take from what the node at position `k` has idle.
  unfoldable pub allocated_by : {s t : Session.Session fl} → Place fl s t → Resource
  unfolding charge
  allocated_by {s} (allocated i j job node task at l n f call) = charge fl s k node.name task
  allocated_by (pipelined i j job node task at l n u f call) = empty_resource

  unfoldable pub allocated_on : {s t : Session.Session fl} → Places fl s t → Resource
  unfolding allocated_by
  allocated_on done = empty_resource
  allocated_on (next p rest) = add (allocated_by p) (allocated_on rest)

  -- What they promise of what it is releasing.
  unfoldable pub pipelined_by : {s t : Session.Session fl} → Place fl s t → Resource
  unfolding charge
  pipelined_by (allocated i j job node task at l n f call) = empty_resource
  pipelined_by {s} (pipelined i j job node task at l n u f call) = charge fl s k node.name task

  unfoldable pub pipelined_on : {s t : Session.Session fl} → Places fl s t → Resource
  unfolding pipelined_by
  pipelined_on done = empty_resource
  pipelined_on (next p rest) = add (pipelined_by p) (pipelined_on rest)

  place-Charges :
      (s t : Session.Session fl) (p : Place fl s t)
      → Charges fl s t k (allocated_by p) (pipelined_by p)
  unfolding allocated_by pipelined_by
  place-Charges s t (allocated i j job node task at l n f call) =
      allocate-Charges fl s t task node.name k call
  place-Charges s t (pipelined i j job node task at l n u f call) =
      pipeline-Charges fl s t task node.name k call

  places-Charges :
      (s t : Session.Session fl) (ps : Places fl s t)
      → Charges fl s t k (allocated_on ps) (pipelined_on ps)
  unfolding allocated_on pipelined_on
  places-Charges s t done ni at = (ni, at, IsCharged-none ni)
  places-Charges s t (next {t = m} p rest) ni at =
      Charges-trans fl s m t k (place-Charges s m p) (places-Charges m t rest) ni at

module _ (fl : Drf.Float64) (job_heap : Heap ℕ) (task_heap : Heap TaskInfo) where
  -- Where the allocate action returns, for each node of the session that was balanced for a size at the
  -- start: the node is still at its position; its accounts have changed by exactly the tasks that the
  -- action has placed on it, what it has idle shrank by the requests of the allocated ones and what
  -- it is releasing by those of the pipelined ones; the tasks that had a place on it and the allocated
  -- ones fit into that size together; and those that were pipelined and the newly pipelined ones
  -- fit together into what its tasks in the state Releasing give back.
  pub execute-IsCharged :
      (fuel : ℕ) (ssn ssn' : Session.Session fl)
      (returned : execute fl job_heap task_heap fuel ssn ≡ some (ok ssn')) (k : ℕ) (cap : Resource)
      (ni : NodeInfo)
      → get_elem? ssn.nodes k ≡ some ni
      → IsBalanced cap ni
      → let ps = execute-Places fl job_heap task_heap fuel ssn ssn' returned in
        ((ni' : NodeInfo) × (get_elem? ssn'.nodes k ≡ some ni')
          × IsCharged ni ni' (allocated_on fl k ps) (pipelined_on fl k ps))
        × Fits (add (requested is_placed ni.tasks) (allocated_on fl k ps)) cap
        × Fits
            (add (requested is_pipelined ni.tasks) (pipelined_on fl k ps))
            (requested is_releasing ni.tasks)
  unfolding add
  execute-IsCharged fuel ssn ssn' returned k cap ni at b =
      let ps = execute-Places fl job_heap task_heap fuel ssn ssn' returned in
      let (ni', there, charged) = places-Charges fl k ssn ssn' ps ni at in
      (
        (ni', there, charged),
        ground (arith, b.idle_sum, charged.idle_sum),
        ground (arith, b.releasing_sum, charged.releasing_sum),
      )
