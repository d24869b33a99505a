-- ===== src/Framework/Frame/Places.antt =====
-- What `Pipeline` and the assignment of `Allocate` leave alone.
use kube_arbitrator.Common.{
  ◌≡◌, refl, subst, Option, none, some, String, string_key, Outcome, ok, ◌>>=◌, >>=-eq-ok, ok_inj,
}
use kube_arbitrator.Api.Status.{TaskStatus, pipelined, allocated}
use kube_arbitrator.Api.TaskInfo.{TaskInfo}
use kube_arbitrator.Api.NodeInfo.{NodeInfo, add_task, pipeline_task}
use kube_arbitrator.Plugins.Drf
use kube_arbitrator.Framework.Session
use kube_arbitrator.Framework.Session.{EventHandler, drf_handler}
use kube_arbitrator.Framework.Calls
use kube_arbitrator.Framework.Frame.{
  IsNodeFrame, IsFrame, mark_task-frame, move_task-frame, fire_allocate-frame,
}

module _ (fl : Drf.Float64) (N : NodeInfo → NodeInfo → Type 0)
    (R : Session.Session fl → Session.Session fl → Type 0) (frame : IsFrame fl N R)
    (keeps : IsNodeFrame N) where
  -- Placing a task on a node, by whichever operation of the node.
  placed :
      (s t : Session.Session fl) (name : String) (node : Option NodeInfo)
      (place : NodeInfo → Outcome NodeInfo)
      → ((ni ni' : NodeInfo) → place ni ≡ ok ni' → N ni ni')
      → Calls.node_of fl s name ≡ node
      → (elim node [
        | none ↦ ok s
        | some ni ↦ place ni >>= λ ni'. ok (Calls.put_node fl s name ni')
      ])
        ≡ ok t
      → R s t
  placed s t name none place kept at h = subst (R s) (ok_inj h) (frame.same s)
  placed s t name (some ni) place kept at h =
      let (ni', e, rest) = >>=-eq-ok (place ni) _ h in
      subst (R s) (ok_inj rest) (frame.node s name ni ni' at (kept ni ni' e))

  -- From a marked task to the end of `Pipeline` or of the assignment of `Allocate`.
  moved :
      (s m p t : Session.Session fl) (task there : TaskInfo) (hostname : String)
      (status : TaskStatus) (place : NodeInfo → Outcome NodeInfo) (task' : TaskInfo)
      → ((ni ni' : NodeInfo) → place ni ≡ ok ni' → N ni ni')
      → Calls.mark_task fl s task status ≡ ok (m, task')
      → (elim (Calls.node_of fl (Calls.move_task fl m there) hostname) [
        | none ↦ ok (Calls.move_task fl m there)
        | some ni ↦
            place ni >>= λ ni'. ok (Calls.put_node fl (Calls.move_task fl m there) hostname ni')
      ])
        ≡ ok p
      → Calls.fire_allocate fl p p.event_handlers there ≡ ok t
      → R s t
  moved s m p t task there hostname status place task' kept marked put fired =
      let at : Session.Session fl = Calls.move_task fl m there in
      frame.trans s m t (mark_task-frame fl N R frame s m task task' status marked) (
        frame.trans m at t (move_task-frame fl N R frame m there) (
          frame.trans at p t
            (placed at p hostname (Calls.node_of fl at hostname) place kept refl put)
            (fire_allocate-frame fl N R frame p t p.event_handlers there fired)))

  pub pipeline-frame :
      (s t : Session.Session fl) (task : TaskInfo) (hostname : String)
      → Calls.pipeline fl s task hostname ≡ ok t
      → R s t
  unfolding Calls.pipeline
  pipeline-frame s t task hostname h =
      let ((m, task'), mk, h₁) = >>=-eq-ok (Calls.mark_task fl s task pipelined) _ h in
      let there : TaskInfo = record task' { node_name = hostname } in
      let (p, put, h₂) = >>=-eq-ok _ _ h₁ in
      moved s m p t task there hostname pipelined (λ ni. pipeline_task ni there) task'
        (λ ni ni' e. keeps.piped ni ni' there e) mk put h₂

  pub assign-frame :
      (s t : Session.Session fl) (task : TaskInfo) (hostname : String)
      → Calls.assign fl s task hostname ≡ ok t
      → R s t
  unfolding Calls.assign
  assign-frame s t task hostname h =
      let ((m, task'), mk, h₁) = >>=-eq-ok (Calls.mark_task fl s task allocated) _ h in
      let there : TaskInfo = record task' { node_name = hostname } in
      let (p, put, h₂) = >>=-eq-ok _ _ h₁ in
      moved s m p t task there hostname allocated (λ ni. add_task ni there) task'
        (λ ni ni' e. keeps.added ni ni' there e) mk put h₂
