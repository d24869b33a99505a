-- ===== src/Framework/Charges/Placing.antt =====
-- `Pipeline` and `Allocate` charge the node that the task is placed on, and no other.
use kube_arbitrator.Common.{
  ℕ, ◌≡◌, ◌≢◌, refl, sym, ◌∙◌, subst, Option, none, some, String, string_key, Outcome, ok, ◌>>=◌,
  >>=-eq-ok, ok_inj, arith, inl, inr, ◌⊎◌,
}
use kube_arbitrator.Common.Lists.{get_elem?}
use kube_arbitrator.Api.Resource.{Resource, empty_resource, add}
use kube_arbitrator.Api.Status.{
  releasing, allocated as allocated_state, pipelined as pipelined_state,
}
use kube_arbitrator.Api.TaskInfo.{TaskInfo, TasksMap}
use kube_arbitrator.Api.JobInfo.{JobInfo}
use kube_arbitrator.Api.NodeInfo.{NodeInfo, add_task, pipeline_task}
use kube_arbitrator.Plugins.Drf
use kube_arbitrator.Framework.Session
use kube_arbitrator.Framework.Calls
use kube_arbitrator.Framework.Frame.{IsFrame, SameNode, SameNode-IsNodeFrame}
use kube_arbitrator.Framework.Frame.Places.{assign-frame}
use kube_arbitrator.Framework.Frame.Dispatch.{assigned-frame}
use kube_arbitrator.Api.NodeInfo.Charges.{
  node_charge, IsCharged, IsCharged-none, add_task-IsCharged, pipeline_task-IsCharged,
}
use kube_arbitrator.Framework.Charges.{
  at_position, charge, Charges, Charges-trans, put_node-Charges,
}
use kube_arbitrator.Api.Resource.Sum.{add-empty}
use kube_arbitrator.Framework.Charges.Marks.{
  SameNodes, KeepsUnknown, put_job-SameNodes, Charges-same, charge-same, unknown-IsFrame,
  marked-task, moved-SameNodes, fired-SameNodes,
}

module _ (fl : Drf.Float64) where
  -- What an operation that takes `f ni` of the node called `name` takes from the one at position `k`.
  abbrev taken :
      Session.Session fl → ℕ → String → Option NodeInfo → (NodeInfo → Resource) → Resource
  taken s k name none f = empty_resource
  taken s k name (some ni) f = at_position fl s k name (f ni)

  taken_nothing :
      (s : Session.Session fl) (k : ℕ) (name : String) (node : Option NodeInfo)
      → taken s k name node (λ ni. empty_resource) ≡ empty_resource
  unfolding at_position
  taken_nothing s k name none = refl
  taken_nothing s k name (some ni) = ground arith

  taken-charge :
      (s : Session.Session fl) (k : ℕ) (name : String) (task : TaskInfo) (node : Option NodeInfo)
      → Calls.node_of fl s name ≡ node
      → taken s k name node (λ ni. node_charge ni task) ≡ charge fl s k name task
  unfolding charge
  taken-charge s k name task none at = rw (at, charge) refl
  taken-charge s k name task (some ni) at = rw (at, charge) refl

  -- An operation on the node called `name`, if there is one.
  placed-Charges :
      (s p : Session.Session fl) (name : String) (place : NodeInfo → Outcome NodeInfo) (k : ℕ)
      (c w : NodeInfo → Resource) (node : Option NodeInfo)
      → Calls.node_of fl s name ≡ node
      → ((ni ni' : NodeInfo) → place ni ≡ ok ni' → IsCharged ni ni' (c ni) (w ni))
      → (elim node [
        | none ↦ ok s
        | some ni ↦ place ni >>= λ ni'. ok (Calls.put_node fl s name ni')
      ])
        ≡ ok p
      → Charges fl s p k (taken s k name node c) (taken s k name node w)
  placed-Charges s p name place k c w none at takes h =
      subst (λ x. Charges fl s x k empty_resource empty_resource) (ok_inj h)
        (Charges-same fl s s k (refl, refl))
  placed-Charges s p name place k c w (some ni) at takes h =
      let (ni', e, rest) = >>=-eq-ok (place ni) _ h in
      subst
        (λ x. Charges fl s x k (at_position fl s k name (c ni)) (at_position fl s k name (w ni)))
        (ok_inj rest) (put_node-Charges fl s name ni ni' k (c ni) (w ni) at (takes ni ni' e))

  -- What is charged between two stretches that leave the nodes.
  Charges-between :
      (s m p t : Session.Session fl) (k : ℕ) (c c' w w' : Resource)
      → SameNodes fl s m
      → Charges fl m p k c w
      → SameNodes fl p t
      → c ≡ c'
      → w ≡ w'
      → Charges fl s t k c' w'
  Charges-between s m p t k c c' w w' before h after e f ni at =
      let (ni', at', charged) = h ni (subst (λ ns. get_elem? ns k ≡ some ni) (sym before.0) at) in
      (
        ni',
        subst (λ ns. get_elem? ns k ≡ some ni') (sym after.0) at',
        subst (λ x. IsCharged ni ni' x w') e (subst (IsCharged ni ni' c) f charged),
      )

  -- `Pipeline` charges the task to what its node is releasing.
  pub pipeline-Charges :
      (s t : Session.Session fl) (task : TaskInfo) (hostname : String) (k : ℕ)
      → Calls.pipeline fl s task hostname ≡ ok t
      → Charges fl s t k empty_resource (charge fl s k hostname task)
  unfolding Calls.pipeline
  pipeline-Charges s t task hostname k h =
      let ((m, task'), mk, h₁) = >>=-eq-ok (Calls.mark_task fl s task pipelined_state) _ h in
      let there : TaskInfo = record task' { node_name = hostname } in
      let at : Session.Session fl = Calls.move_task fl m there in
      let (p, put, h₂) = >>=-eq-ok _ _ h₁ in
      let (pod, request, _) = marked-task fl s m task task' pipelined_state mk in
      let before = moved-SameNodes fl s m task task' there pipelined_state mk in
      let node = Calls.node_of fl at hostname in
      Charges-between s at p t k _ empty_resource _ (charge fl s k hostname task) before
        (placed-Charges at p hostname (λ ni. pipeline_task ni there) k (λ ni. empty_resource)
          (λ ni. node_charge ni there) node refl
          (λ ni ni' e. pipeline_task-IsCharged ni ni' there e) put)
        (fired-SameNodes fl p t there h₂) (taken_nothing at k hostname node)
        (taken-charge at k hostname there node refl
          ∙ charge-same fl s at k hostname task there before pod request)

  -- A task that was marked and is known at the end is not being released.
  not_releasing :
      (s t : Session.Session fl) (task : TaskInfo) (hostname : String) (there : TaskInfo)
      (job : JobInfo)
      → Calls.assign fl s task hostname ≡ ok t
      → Session.job_of fl t task.job ≡ some job
      → (Session.job_of fl s task.job ≡ none) ⊎ (there.status ≡ allocated_state)
      → there.status ≢ releasing
  not_releasing s t task hostname there job h known (inl unknown) e =
      let still : Session.job_of fl t task.job ≡ none =
        assign-frame fl SameNode (KeepsUnknown fl task.job) (unknown-IsFrame fl task.job)
          SameNode-IsNodeFrame s t task hostname h unknown in
      cc
  not_releasing s t task hostname there job h known (inr q) e = ground (arith, q, e)

  -- The assignment of `Allocate` charges the task to what its node has idle.
  assign-Charges :
      (s t : Session.Session fl) (task : TaskInfo) (hostname : String) (job : JobInfo) (k : ℕ)
      → Session.job_of fl t task.job ≡ some job
      → Calls.assign fl s task hostname ≡ ok t
      → Charges fl s t k (charge fl s k hostname task) empty_resource
  unfolding Calls.assign
  assign-Charges s t task hostname job k known h =
      let ((m, task'), mk, h₁) = >>=-eq-ok (Calls.mark_task fl s task allocated_state) _ h in
      let there : TaskInfo = record task' { node_name = hostname } in
      let at : Session.Session fl = Calls.move_task fl m there in
      let (p, put, h₂) = >>=-eq-ok _ _ h₁ in
      let (pod, request, marked) = marked-task fl s m task task' allocated_state mk in
      let before = moved-SameNodes fl s m task task' there allocated_state mk in
      let node = Calls.node_of fl at hostname in
      let staying = not_releasing s t task hostname there job h known marked in
      Charges-between s at p t k _ (charge fl s k hostname task) _ empty_resource before
        (placed-Charges at p hostname (λ ni. add_task ni there) k (λ ni. node_charge ni there)
          (λ ni. empty_resource) node refl (λ ni ni' e. add_task-IsCharged ni ni' there staying e)
          put)
        (fired-SameNodes fl p t there h₂)
        (taken-charge at k hostname there node refl
          ∙ charge-same fl s at k hostname task there before pod request)
        (taken_nothing at k hostname node)

  -- What `dispatch` leaves: the accounts of each node.
  abbrev KeepsAccounts : Session.Session fl → Session.Session fl → Type 0
  KeepsAccounts s t = (k : ℕ) → Charges fl s t k empty_resource empty_resource

  abbrev Uncharged : NodeInfo → NodeInfo → Type 0
  Uncharged ni ni' = IsCharged ni ni' empty_resource empty_resource

  uncharged_anywhere :
      (s : Session.Session fl) (k : ℕ) (name : String)
      → at_position fl s k name empty_resource ≡ empty_resource
  unfolding at_position
  uncharged_anywhere s k name = ground arith

  accounts-IsFrame : IsFrame fl Uncharged KeepsAccounts
  unfolding Calls.put_job add
  accounts-IsFrame = record {
    same = λ s k. Charges-same fl s s k (refl, refl);
    trans = λ s t u h g k. Charges-trans fl s t u k (h k) (g k);
    job = λ s id job job' at e k.
        Charges-same fl s (Calls.put_job fl s id job') k (put_job-SameNodes fl s id job');
    node = λ s name ni ni' at e k.
        subst (λ c. Charges fl s (Calls.put_node fl s name ni') k c c) (uncharged_anywhere s k name)
          (put_node-Charges fl s name ni ni' k empty_resource empty_resource at e);
    drf = λ s d k. Charges-same fl s (record s { drf = d }) k (refl, refl);
  }

  shown-Uncharged : (ni : NodeInfo) (ts : TasksMap) → Uncharged ni (record ni { tasks = ts })
  shown-Uncharged ni ts =
      let same = IsCharged-none ni in
      record {
        same_node = same.same_node;
        idle_sum = same.idle_sum;
        releasing_sum = same.releasing_sum;
        used_sum = same.used_sum;
      }

  -- `Allocate` charges the task to what its node has idle, whether or not it binds the job's tasks.
  pub allocate-Charges :
      (s t : Session.Session fl) (task : TaskInfo) (hostname : String) (k : ℕ)
      → Calls.allocate fl s task hostname ≡ ok t
      → Charges fl s t k (charge fl s k hostname task) empty_resource
  unfolding add
  allocate-Charges s t task hostname k h =
      let (m, job, a, j, rest) =
        assigned-frame fl Uncharged KeepsAccounts accounts-IsFrame shown-Uncharged
          (λ s task sc e b k. Charges-same fl s (record s { cache = sc }) k (refl, refl)) s t task
          hostname h in
      let both = Charges-trans fl s m t k (assign-Charges s m task hostname job k j a) (rest k) in
      subst (λ c. Charges fl s t k c empty_resource) (add-empty (charge fl s k hostname task)) both
