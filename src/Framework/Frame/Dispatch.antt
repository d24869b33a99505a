-- ===== src/Framework/Frame/Dispatch.antt =====
-- What `dispatch` and `Allocate` leave alone.
use kube_arbitrator.Common.{
  ◌≡◌, refl, ap, subst, [], ◌∷◌, Option, none, some, String, string_key, Outcome, ok, panic,
  nil_dereference, ◌>>=◌, >>=-eq-ok, ok_inj, if◌then◌else◌, Bool-cases, inl, inr,
}
use kube_arbitrator.Api.Status.{Error, allocated, binding}
use kube_arbitrator.Api.TaskInfo.{TaskInfo, TasksMap}
use kube_arbitrator.Api.JobInfo.{JobInfo, tasks_with}
use kube_arbitrator.Api.NodeInfo.{NodeInfo}
use kube_arbitrator.Cache.Store.{Cache}
use kube_arbitrator.Cache.Calls.{bind}
use kube_arbitrator.Plugins.Drf
use kube_arbitrator.Framework.Session
use kube_arbitrator.Framework.Session.{EventHandler, drf_handler}
use kube_arbitrator.Framework.Calls
use kube_arbitrator.Framework.Frame.{IsNodeFrame, IsFrame, mark_task-frame, show_on_node-frame}
use kube_arbitrator.Framework.Frame.Places.{assign-frame}

module _ (fl : Drf.Float64) (N : NodeInfo → NodeInfo → Type 0)
    (R : Session.Session fl → Session.Session fl → Type 0) (frame : IsFrame fl N R)
    (shown : (ni : NodeInfo) (ts : TasksMap) → N ni (record ni { tasks = ts })) where
  module _
      (cached : (s : Session.Session fl) (task : TaskInfo) (sc : Cache) (e : Option Error)
        → bind s.cache task task.node_name ≡ ok (sc, e)
        → R s (record s { cache = sc })) where
    -- `dispatch` after the cache was called.
    bound :
        (s t : Session.Session fl) (task : TaskInfo) (sc : Cache) (e e' : Option Error)
        → R s (record s { cache = sc })
        → ◌≡◌ {A = Outcome (Session.Session fl × Option Error)}
            (elim e [
              | some err ↦ ok (record s { cache = sc }, some err)
              | none ↦ Calls.mark_task fl (record s { cache = sc }) task binding >>= λ (m, task').
                  ok (Calls.show_on_node fl m task', none)
            ])
            (ok (t, e'))
        → R s t
    bound s t task sc (some err) e' c h = subst (R s) (ap (λ r. r.0) (ok_inj h)) c
    bound s t task sc none e' c h =
        let b : Session.Session fl = record s { cache = sc } in
        let ((m, task'), mk, rest) = >>=-eq-ok (Calls.mark_task fl b task binding) _ h in
        subst (R s) (ap (λ r. r.0) (ok_inj rest)) (
          frame.trans s b (Calls.show_on_node fl m task') c (
            frame.trans b m (Calls.show_on_node fl m task')
              (mark_task-frame fl N R frame b m task task' binding mk)
              (show_on_node-frame fl N R frame shown m task')))

    pub dispatch-frame :
        (s t : Session.Session fl) (task : TaskInfo) (e : Option Error)
        → Calls.dispatch fl s task ≡ ok (t, e)
        → R s t
    unfolding Calls.dispatch
    dispatch-frame s t task e h =
        let ((sc, e₁), call, rest) = >>=-eq-ok (bind s.cache task task.node_name) _ h in
        bound s t task sc e₁ e (cached s task sc e₁ call) rest

    dispatch_all-frame :
        (s t : Session.Session fl) (tasks : TasksMap) → Calls.dispatch_all fl s tasks ≡ ok t → R s t
    unfolding Calls.dispatch_all
    dispatch_all-frame s t [] h = subst (R s) (ok_inj h) (frame.same s)
    dispatch_all-frame s t ((uid, task) ∷ tasks) h =
        let ((m, e), call, rest) = >>=-eq-ok (Calls.dispatch fl s task) _ h in
        frame.trans s m t (dispatch-frame s m task e call) (dispatch_all-frame m t tasks rest)

    -- `Allocate` after the assignment.
    committed :
        (s t : Session.Session fl) (found : Option JobInfo)
        → (elim found [
          | none ↦ panic nil_dereference
          | some job ↦
              if Session.job_ready fl s job
              then Calls.dispatch_all fl s (tasks_with allocated job.task_status_index)
              else ok s
        ])
          ≡ ok t
        → (job : JobInfo) × (found ≡ some job) × R s t
    committed s t none h = cc
    committed s t (some job) h = elim (Bool-cases (Session.job_ready fl s job)) [
      | inl e ↦ (
        job,
        refl,
        dispatch_all-frame s t (tasks_with allocated job.task_status_index) (rw e at h),
      )
      | inr e ↦ (job, refl, subst (R s) (ok_inj (rw e at h)) (frame.same s))
    ]

    -- `Allocate` that returns is an assignment to a task of a known job, and what follows it.
    pub assigned-frame :
        (s t : Session.Session fl) (task : TaskInfo) (hostname : String)
        → Calls.allocate fl s task hostname ≡ ok t
        → (m : Session.Session fl) × (job : JobInfo) × (Calls.assign fl s task hostname ≡ ok m)
          × (Session.job_of fl m task.job ≡ some job)
          × R m t
    unfolding Calls.allocate
    assigned-frame s t task hostname h =
        let (m, a, rest) = >>=-eq-ok (Calls.assign fl s task hostname) _ h in
        let (job, j, r) = committed m t (Session.job_of fl m task.job) rest in (m, job, a, j, r)

    pub allocate-frame :
        IsNodeFrame N
        → (s t : Session.Session fl) (task : TaskInfo) (hostname : String)
        → Calls.allocate fl s task hostname ≡ ok t
        → R s t
    allocate-frame keeps s t task hostname h =
        let (m, job, a, j, r) = assigned-frame s t task hostname h in
        frame.trans s m t (assign-frame fl N R frame keeps s m task hostname a) r
