-- ===== src/Framework/Charges/Marks.antt =====
-- The parts of `Pipeline` and `Allocate` that leave the nodes alone.
use kube_arbitrator.Common.{
  ℕ, zero, suc, ◌≡◌, refl, sym, ap, ◌∙◌, subst, List, [], ◌∷◌, Option, none, some, String,
  string_key, ok, >>=-eq-ok, ok_inj, arith, Option-cases, inl, inr, ◌⊎◌,
}
use kube_arbitrator.Common.Lists.{get_elem?, set}
use kube_arbitrator.Common.Map.{lookup}
use kube_arbitrator.Api.Resource.{empty_resource}
use kube_arbitrator.Api.Status.{TaskStatus, Error, validate_status_update}
use kube_arbitrator.Api.TaskInfo.{TaskInfo}
use kube_arbitrator.Api.JobInfo.{JobInfo, update_task_status, delete_task_info}
use kube_arbitrator.Api.NodeInfo.{NodeInfo}
use kube_arbitrator.Plugins.Drf
use kube_arbitrator.Framework.Session
use kube_arbitrator.Framework.Calls
use kube_arbitrator.Framework.Frame.{
  IsFrame, SameNode, mark_task-frame, move_task-frame, fire_allocate-frame,
}
use kube_arbitrator.Api.NodeInfo.Charges.{node_charge, IsCharged-none}
use kube_arbitrator.Framework.Charges.{at_position, charge, Charges}

get_elem?-set_missing :
    {A : Type 0} (xs : List A) (i k : ℕ) (x : A)
    → get_elem? xs k ≡ none
    → get_elem? (set xs i x) k ≡ none
get_elem?-set_missing [] i k x h = refl
get_elem?-set_missing (y ∷ xs) zero zero x h = cc
get_elem?-set_missing (y ∷ xs) zero (suc k) x h = h
get_elem?-set_missing (y ∷ xs) (suc i) zero x h = cc
get_elem?-set_missing (y ∷ xs) (suc i) (suc k) x h = get_elem?-set_missing xs i k x h

module _ (fl : Drf.Float64) where
  -- Nodes and their index are as they were.
  abbrev pub SameNodes : Session.Session fl → Session.Session fl → Type 0
  SameNodes s t = (t.nodes ≡ s.nodes) × (t.node_index ≡ s.node_index)

  pub put_job-SameNodes :
      (s : Session.Session fl) (id : String) (job : JobInfo)
      → SameNodes s (Calls.put_job fl s id job)
  unfolding Calls.put_job
  put_job-SameNodes s id job = (ground arith, ground arith)

  -- No node is changed.
  abbrev pub Never : NodeInfo → NodeInfo → Type 0
  Never ni ni' = ⊥

  nodes-IsFrame : IsFrame fl Never SameNodes
  nodes-IsFrame = record {
    same = λ s. (refl, refl);
    trans = λ s t u h k. (k.0 ∙ h.0, k.1 ∙ h.1);
    job = λ s id job job' at e. put_job-SameNodes s id job';
    node = λ s name ni ni' at e. absurd e;
    drf = λ s d. (refl, refl);
  }

  pub Charges-same :
      (s t : Session.Session fl) (k : ℕ)
      → SameNodes s t
      → Charges fl s t k empty_resource empty_resource
  Charges-same s t k same ni at =
      (ni, subst (λ ns. get_elem? ns k ≡ some ni) (sym same.0) at, IsCharged-none ni)

  pub charge-same :
      (s t : Session.Session fl) (k : ℕ) (name : String) (task there : TaskInfo)
      → SameNodes s t
      → there.pod ≡ task.pod
      → there.resreq ≡ task.resreq
      → charge fl t k name there ≡ charge fl s k name task
  unfolding charge at_position node_charge Calls.node_of
  charge-same s t k name task there same p r = rw (same.0, same.1, p, r) refl

  -- Where a job is known under the name, it was known before.
  abbrev pub KeepsUnknown : String → Session.Session fl → Session.Session fl → Type 0
  KeepsUnknown id s t = Session.job_of fl s id ≡ none → Session.job_of fl t id ≡ none

  put_job-KeepsUnknown :
      (id : String) (s : Session.Session fl) (other : String) (job : JobInfo)
      → KeepsUnknown id s (Calls.put_job fl s other job)
  unfolding Calls.put_job Session.job_of
  put_job-KeepsUnknown id s other job unknown = elim (Option-cases (lookup other s.job_index)) [
    | inl l ↦ rw (l, Calls.put_job) unknown
    | inr (i, l) ↦ elim (Option-cases (lookup id s.job_index)) [
      | inl e ↦ rw (l, Calls.put_job) (rw (e, Session.job_of) refl)
      | inr (j, e) ↦
          rw (l, Calls.put_job)
            (rw (e, Session.job_of)
              (get_elem?-set_missing s.jobs i j job (rw (e, Session.job_of) at unknown)))
    ]
  ]

  put_node-KeepsUnknown :
      (id : String) (s : Session.Session fl) (name : String) (ni : NodeInfo)
      → KeepsUnknown id s (Calls.put_node fl s name ni)
  unfolding Calls.put_node Session.job_of
  put_node-KeepsUnknown id s name ni unknown = ground (arith, unknown)

  pub unknown-IsFrame : (id : String) → IsFrame fl SameNode (KeepsUnknown id)
  unfolding Session.job_of
  unknown-IsFrame id = record {
    same = λ s h. h;
    trans = λ s t u f g h. g (f h);
    job = λ s other job job' at e. put_job-KeepsUnknown id s other job';
    node = λ s name ni ni' at e. put_node-KeepsUnknown id s name ni';
    drf = λ s d h. h;
  }

  -- The task that `UpdateTaskStatus` returns: the same pod and request, in the new status if the
  -- job is known.
  update_task_status-task :
      (job job' : JobInfo) (task task' : TaskInfo) (status : TaskStatus) (e : Option Error)
      → update_task_status job task status ≡ ok (job', task', e)
      → (task'.pod ≡ task.pod) × (task'.resreq ≡ task.resreq) × (task'.status ≡ status)
  unfolding update_task_status validate_status_update
  update_task_status-task job job' task task' status e h =
      let (rest, d, h₁) = >>=-eq-ok (delete_task_info job task) _ h in
      (ground (arith, h₁), ground (arith, h₁), ground (arith, h₁))

  pub marked-task :
      (s m : Session.Session fl) (task task' : TaskInfo) (status : TaskStatus)
      → Calls.mark_task fl s task status ≡ ok (m, task')
      → (task'.pod ≡ task.pod)
        × (task'.resreq ≡ task.resreq)
        × ((Session.job_of fl s task.job ≡ none) ⊎ (task'.status ≡ status))
  unfolding Calls.mark_task
  marked-task s m task task' status h = elim (Option-cases (Session.job_of fl s task.job)) [
    | inl e ↦ (ground (arith, e, h), ground (arith, e, h), inl e)
    | inr (job, e) ↦
        let ((job', task₁, err), u, rest) =
          >>=-eq-ok (update_task_status job task status) _ (rw (e, Calls.mark_task) at h) in
        let same : task₁ ≡ task' = ap (λ r. r.1) (ok_inj rest) in
        let (p, r, st) = update_task_status-task job job' task task₁ status err u in
        (
          subst (λ (x : TaskInfo). x.pod ≡ task.pod) same p,
          subst (λ (x : TaskInfo). x.resreq ≡ task.resreq) same r,
          inr (subst (λ (x : TaskInfo). x.status ≡ status) same st),
        )
  ]

  -- Before the node is changed, and after it.
  pub moved-SameNodes :
      (s m : Session.Session fl) (task task' there : TaskInfo) (status : TaskStatus)
      → Calls.mark_task fl s task status ≡ ok (m, task')
      → SameNodes s (Calls.move_task fl m there)
  moved-SameNodes s m task task' there status h =
      nodes-IsFrame.trans s m (Calls.move_task fl m there)
        (mark_task-frame fl Never SameNodes nodes-IsFrame s m task task' status h)
        (move_task-frame fl Never SameNodes nodes-IsFrame m there)

  pub fired-SameNodes :
      (p t : Session.Session fl) (task : TaskInfo)
      → Calls.fire_allocate fl p p.event_handlers task ≡ ok t
      → SameNodes p t
  fired-SameNodes p t task h =
      fire_allocate-frame fl Never SameNodes nodes-IsFrame p t p.event_handlers task h
