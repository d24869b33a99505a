-- ===== src/Framework/Order.antt =====
-- The orders that a session with the registered plugins uses.
use kube_arbitrator.Common.{
  ◌≡◌, true, false, List, [], ◌∷◌, string_key, ok, text_lt, arith, if◌then◌else◌,
}
use kube_arbitrator.Common.Int.{ltb_ℤ, eqb_ℤ}
use kube_arbitrator.Api.TaskInfo.{TaskInfo}
use kube_arbitrator.Api.JobInfo.{JobInfo}
use kube_arbitrator.Cache.Store.{Cache}
use kube_arbitrator.Plugins.Priority
use kube_arbitrator.Plugins.Gang
use kube_arbitrator.Plugins.Drf
use kube_arbitrator.Framework.Session
use kube_arbitrator.Framework.Session.{
  Plugin, priority_plugin, gang_plugin, drf_plugin, by_job_priority, by_gang, by_drf,
  by_task_priority, gang_allows, drf_allows, gang_ready,
}

-- pkg/scheduler/factory.go registers the plugins in this order.
abbrev pub registered : List Plugin
registered = priority_plugin ∷ gang_plugin ∷ drf_plugin ∷ []

module _ (fl : Drf.Float64) where
  -- A comparison by the task order function, if the session orders tasks by it only.
  order_tasks_lem :
      (l r : TaskInfo)
      → Session.order_tasks fl (by_task_priority ∷ []) l r
        ≡ (if eqb_ℤ l.priority r.priority then text_lt l.uid r.uid else ltb_ℤ r.priority l.priority)
  unfolding Session.order_tasks Session.compare_tasks Priority.task_order
  order_tasks_lem l r = ground arith

  -- In a session with the registered plugins, the task order function compares priorities, the
  -- higher first, and tasks of one priority by their UIDs.
  pub task_order_fn_lem :
      (sc : Cache) (l r : TaskInfo)
      → Session.task_order_fn fl (Session.open_with fl sc registered) l r
        ≡ (if eqb_ℤ l.priority r.priority then text_lt l.uid r.uid else ltb_ℤ r.priority l.priority)
  unfolding Session.open_with Session.task_order_fn
  task_order_fn_lem sc l r = order_tasks_lem l r

  order_jobs_unready :
      (ssn : Session.Session fl) (l r : JobInfo)
      → eqb_ℤ l.priority r.priority ≡ true
      → Gang.job_ready l ≡ false
      → Gang.job_ready r ≡ false
      → Session.order_jobs fl ssn (by_job_priority ∷ by_gang ∷ by_drf ∷ []) l r
        ≡ ok (text_lt l.uid r.uid)
  unfolding Session.order_jobs Session.compare_jobs Priority.job_order Gang.job_order
  order_jobs_unready ssn l r e u v = ground (arith, e, u, v)

  -- In a session with the registered plugins, two jobs of one priority that are both short of
  -- their minimal number of tasks are ordered by their UIDs: the DRF plugin is not asked, so that
  -- its shares and its panics do not matter.
  pub job_order_fn_unready :
      (sc : Cache) (l r : JobInfo)
      → eqb_ℤ l.priority r.priority ≡ true
      → Gang.job_ready l ≡ false
      → Gang.job_ready r ≡ false
      → Session.job_order_fn fl (Session.open_with fl sc registered) l r ≡ ok (text_lt l.uid r.uid)
  unfolding Session.open_with Session.job_order_fn
  job_order_fn_unready sc l r e u v =
      order_jobs_unready (Session.open_with fl sc registered) l r e u v
