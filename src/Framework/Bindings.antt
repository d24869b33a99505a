-- ===== src/Framework/Bindings.antt =====
-- Which calls of `Bind` the session's `Allocate` makes: gang scheduling.
use kube_arbitrator.Common.{
  ◌≡◌, refl, sym, ap, ◌∙◌, subst, [], ◌∷◌, Option, none, some, String, string_key, true, Outcome,
  ok, panic, nil_dereference, ◌>>=◌, >>=-eq-ok, ok_inj, arith, if◌then◌else◌, Bool-cases, ◌⊎◌, inl,
  inr,
}
use kube_arbitrator.Api.Status.{Error, allocated, binding}
use kube_arbitrator.Api.TaskInfo.{TaskInfo, TasksMap}
use kube_arbitrator.Api.JobInfo.{JobInfo, tasks_with}
use kube_arbitrator.Cache.Store.{Cache}
use kube_arbitrator.Cache.Calls.{bind}
use kube_arbitrator.Plugins.Drf
use kube_arbitrator.Framework.Session
use kube_arbitrator.Framework.Session.{JobReadyFn}
use kube_arbitrator.Framework.Calls
use kube_arbitrator.Framework.Frame.{IsFrame, SameNode, SameNode-IsNodeFrame, show_on_node-frame}
use kube_arbitrator.Framework.Frame.Places.{pipeline-frame, assign-frame}
use kube_arbitrator.Framework.Frame.Dispatch.{allocate-frame}
use kube_arbitrator.Framework.Commit.{SameCache, cache-IsFrame, mark_task-cache, assign-cache}

-- `Bind` for each of the tasks, on the node that it is assigned to. Errors are not looked at.
unfoldable pub bind_all : Cache → TasksMap → Outcome Cache
bind_all sc [] = ok sc
bind_all sc ((uid, task) ∷ tasks) = do (sc', e) ← bind sc task task.node_name; bind_all sc' tasks

module _ (fl : Drf.Float64) where
  -- `dispatch` after the cache was called.
  called :
      (s t : Session.Session fl) (task : TaskInfo) (sc : Cache) (e e' : Option Error)
      → ◌≡◌ {A = Outcome (Session.Session fl × Option Error)}
          (elim e [
            | some err ↦ ok (record s { cache = sc }, some err)
            | none ↦ Calls.mark_task fl (record s { cache = sc }) task binding >>= λ (m, task').
                ok (Calls.show_on_node fl m task', none)
          ])
          (ok (t, e'))
      → t.cache ≡ sc
  called s t task sc (some err) e' h =
      sym (ap (λ (r : Session.Session fl × Option Error). r.0.cache) (ok_inj h))
  called s t task sc none e' h =
      let b : Session.Session fl = record s { cache = sc } in
      let ((m, task'), mk, rest) = >>=-eq-ok (Calls.mark_task fl b task binding) _ h in
      sym (ap (λ (r : Session.Session fl × Option Error). r.0.cache) (ok_inj rest))
      ∙ show_on_node-frame fl SameNode (SameCache fl) (cache-IsFrame fl) SameNode-IsNodeFrame.shown
          m task'
      ∙ mark_task-cache fl b m task task' binding mk

  dispatch-cache :
      (s t : Session.Session fl) (task : TaskInfo) (e : Option Error)
      → Calls.dispatch fl s task ≡ ok (t, e)
      → (e' : Option Error) × (bind s.cache task task.node_name ≡ ok (t.cache, e'))
  unfolding Calls.dispatch
  dispatch-cache s t task e h =
      let ((sc, e'), call, rest) = >>=-eq-ok (bind s.cache task task.node_name) _ h in
      (e', call ∙ ap (λ x. ok (x, e')) (sym (called s t task sc e' e rest)))

  dispatch_all-cache :
      (s t : Session.Session fl) (tasks : TasksMap)
      → Calls.dispatch_all fl s tasks ≡ ok t
      → bind_all s.cache tasks ≡ ok t.cache
  unfolding Calls.dispatch_all bind_all
  dispatch_all-cache s t [] h = ap (λ x. ok x) (ap (λ (r : Session.Session fl). r.cache) (ok_inj h))
  dispatch_all-cache s t ((uid, task) ∷ tasks) h =
      let ((m, e), call, rest) = >>=-eq-ok (Calls.dispatch fl s task) _ h in
      let (e', b) = dispatch-cache s m task e call in rw b (dispatch_all-cache m t tasks rest)

  -- The job of the task is ready once the task is assigned, and the calls of `Bind` are those for the job's allocated tasks.
  pub record IsGang (s t : Session.Session fl) (task : TaskInfo) (hostname : String) : Type 0 where
    pub assigned : Session.Session fl
    pub job : JobInfo
    pub assigns : Calls.assign fl s task hostname ≡ ok assigned
    pub found : Session.job_of fl assigned task.job ≡ some job
    pub is_ready : Session.job_ready fl assigned job ≡ true
    pub binds : bind_all s.cache (tasks_with allocated job.task_status_index) ≡ ok t.cache

  committed :
      (s m t : Session.Session fl) (task : TaskInfo) (hostname : String) (found : Option JobInfo)
      → Calls.assign fl s task hostname ≡ ok m
      → Session.job_of fl m task.job ≡ found
      → (elim found [
        | none ↦ panic nil_dereference
        | some job ↦
            if Session.job_ready fl m job
            then Calls.dispatch_all fl m (tasks_with allocated job.task_status_index)
            else ok m
      ])
        ≡ ok t
      → (t.cache ≡ s.cache) ⊎ IsGang s t task hostname
  committed s m t task hostname none a j h = cc
  committed s m t task hostname (some job) a j h =
      let same = assign-cache fl s m task hostname a in
      elim (Bool-cases (Session.job_ready fl m job)) [
        | inr e ↦ inl (ap (λ (r : Session.Session fl). r.cache) (sym (ok_inj (rw e at h))) ∙ same)
        | inl e ↦ inr (record {
          assigned = m;
          job = job;
          assigns = a;
          found = j;
          is_ready = e;
          binds =
              subst (λ c. bind_all c (tasks_with allocated job.task_status_index) ≡ ok t.cache) same
                (dispatch_all-cache m t (tasks_with allocated job.task_status_index) (rw e at h));
        })
      ]

  -- Where `Allocate` returns, it has either not touched the cache, or the job of the task was ready
  -- with the task, and `Bind` was called for each allocated task of that job, in order, and for nothing else.
  pub allocate-IsGang :
      (s t : Session.Session fl) (task : TaskInfo) (hostname : String)
      → Calls.allocate fl s task hostname ≡ ok t
      → (t.cache ≡ s.cache) ⊎ IsGang s t task hostname
  unfolding Calls.allocate
  allocate-IsGang s t task hostname h =
      let (m, a, rest) = >>=-eq-ok (Calls.assign fl s task hostname) _ h in
      committed s m t task hostname (Session.job_of fl m task.job) a refl rest

  -- The functions that say when a job is ready are not changed.
  abbrev pub SameReady : Session.Session fl → Session.Session fl → Type 0
  SameReady s t = t.job_ready_fns ≡ s.job_ready_fns

  ready-IsFrame : IsFrame fl SameNode SameReady
  unfolding Calls.put_job Calls.put_node
  ready-IsFrame = record {
    same = λ s. refl;
    trans = λ s t u h k. k ∙ h;
    job = λ s id job job' at e. ground arith;
    node = λ s name ni ni' at e. ground arith;
    drf = λ s d. refl;
  }

  pub assign-ready :
      (s t : Session.Session fl) (task : TaskInfo) (hostname : String)
      → Calls.assign fl s task hostname ≡ ok t
      → t.job_ready_fns ≡ s.job_ready_fns
  assign-ready = assign-frame fl SameNode SameReady ready-IsFrame SameNode-IsNodeFrame

  pub pipeline-ready :
      (s t : Session.Session fl) (task : TaskInfo) (hostname : String)
      → Calls.pipeline fl s task hostname ≡ ok t
      → t.job_ready_fns ≡ s.job_ready_fns
  pipeline-ready = pipeline-frame fl SameNode SameReady ready-IsFrame SameNode-IsNodeFrame

  pub allocate-ready :
      (s t : Session.Session fl) (task : TaskInfo) (hostname : String)
      → Calls.allocate fl s task hostname ≡ ok t
      → t.job_ready_fns ≡ s.job_ready_fns
  allocate-ready =
      allocate-frame fl SameNode SameReady ready-IsFrame SameNode-IsNodeFrame.shown
        (λ s task sc e b. refl) SameNode-IsNodeFrame
