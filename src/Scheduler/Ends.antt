-- ===== src/Scheduler/Ends.antt =====
-- A round of the scheduler ends.
use kube_arbitrator.Common.{
  ℕ, suc, ◌+◌, ◌≤◌, ◌≡◌, refl, List, [], ◌∷◌, some, string_key, Outcome, ok, panic, arith,
}
use kube_arbitrator.Common.Lists.{length}
use kube_arbitrator.Common.Loop.{and_then_more}
use kube_arbitrator.Api.TaskInfo.{TaskInfo}
use kube_arbitrator.Cache.Store.{Cache}
use kube_arbitrator.Plugins.Drf
use kube_arbitrator.Queue.{Heap}
use kube_arbitrator.Framework.Session
use kube_arbitrator.Framework.Session.{Plugin, priority_plugin, gang_plugin, drf_plugin}
use kube_arbitrator.Actions.Decorate.{Matcher}
use kube_arbitrator.Actions.Allocate.Ends.{
  execute-ends as allocate-execute-ends, execute_more as allocate-execute_more,
}
use kube_arbitrator.Actions.Preempt.Ends.{
  pending_tasks, execute-enough as preempt-execute-enough, execute_more as preempt-execute_more,
}
use kube_arbitrator.Scheduler.{
  Action, decorate, allocate, preempt, decorate_session, execute_action, execute_actions, run_once,
}

module _ (fl : Drf.Float64) (matches : Matcher) (job_heap : Heap ℕ)
    (task_heap : Heap TaskInfo) where
  -- Some fuel is enough for an action, and more does not change what it does.
  execute_action-ends :
      (act : Action) (s : Session.Session fl)
      → (fuel : ℕ) × (o : Outcome (Session.Session fl)) × (execute_action fl matches job_heap
            task_heap fuel act s
          ≡ some o)
  unfolding execute_action
  execute_action-ends decorate s = (0, decorate_session fl matches job_heap task_heap s, refl)
  execute_action-ends allocate s = allocate-execute-ends fl job_heap task_heap s
  execute_action-ends preempt s =
      let fuel = suc (length s.jobs + pending_tasks s.jobs) in
      let (o, h) = preempt-execute-enough fl job_heap task_heap fuel s (omega arith) in (fuel, o, h)

  execute_action_more :
      (act : Action) (n m : ℕ) (s : Session.Session fl) (o : Outcome (Session.Session fl))
      → n ≤ m
      → execute_action fl matches job_heap task_heap n act s ≡ some o
      → execute_action fl matches job_heap task_heap m act s ≡ some o
  unfolding execute_action
  execute_action_more decorate n m s o le h = h
  execute_action_more allocate n m s o le h =
      allocate-execute_more fl job_heap task_heap n m s o le h
  execute_action_more preempt n m s o le h = preempt-execute_more fl job_heap task_heap n m s o le h

  execute_actions_more :
      (acts : List Action) (n m : ℕ) (s : Session.Session fl) (o : Outcome (Session.Session fl))
      → n ≤ m
      → execute_actions fl matches job_heap task_heap n acts s ≡ some o
      → execute_actions fl matches job_heap task_heap m acts s ≡ some o
  unfolding execute_actions
  execute_actions_more [] n m s o le h = h
  execute_actions_more (act ∷ acts) n m s o le h =
      and_then_more (execute_action fl matches job_heap task_heap n act s)
        (execute_action fl matches job_heap task_heap m act s) _ _ o
        (λ x e. execute_action_more act n m s x le e)
        (λ t e. execute_actions_more acts n m t o le e) h

  execute_actions-ends :
      (acts : List Action) (s : Session.Session fl)
      → (fuel : ℕ) × (o : Outcome (Session.Session fl)) × (execute_actions fl matches job_heap
            task_heap fuel acts s
          ≡ some o)
  unfolding execute_actions
  execute_actions-ends [] s = (0, ok s, refl)
  execute_actions-ends (act ∷ acts) s =
      let (n, o, h) = execute_action-ends act s in continue n o h (execute_actions-ends acts)
    where
      continue :
          (n : ℕ) (o : Outcome (Session.Session fl))
          → execute_action fl matches job_heap task_heap n act s ≡ some o
          → ((t : Session.Session fl)
              → (fuel : ℕ) × (o : Outcome (Session.Session fl)) × (execute_actions fl matches
                    job_heap task_heap fuel acts t
                  ≡ some o))
          → (fuel : ℕ) × (o : Outcome (Session.Session fl)) × (execute_actions fl matches job_heap
                task_heap fuel
                (act ∷ acts)
                s
              ≡ some o)
      continue n (panic p) h rest = (n, panic p, rw h refl)
      continue n (ok t) h rest =
          let (k, o, g) = rest t in
          let e = execute_action_more act n (n + k) s (ok t) (omega arith) h in
          (n + k, o, rw e (execute_actions_more acts k (n + k) t o (omega arith) g))

  -- A round of the scheduler ends, for whatever plugins and actions and on every cache.
  pub run_once-ends :
      (builders : List Plugin) (acts : List Action) (sc : Cache)
      → (fuel : ℕ) × (o : Outcome (Session.Session fl)) × (run_once fl matches job_heap task_heap
            fuel builders acts sc
          ≡ some o)
  unfolding run_once
  run_once-ends builders acts sc =
      let (fuel, o, h) = execute_actions-ends acts (Session.open_with fl sc builders) in
      closed fuel o h
    where
      closed :
          (fuel : ℕ) (o : Outcome (Session.Session fl))
          → execute_actions fl matches job_heap task_heap fuel acts
              (Session.open_with fl sc builders)
            ≡ some o
          → (fuel : ℕ) × (o : Outcome (Session.Session fl)) × (run_once fl matches job_heap
                task_heap fuel builders acts sc
              ≡ some o)
      closed fuel (panic p) h = (fuel, panic p, rw h refl)
      closed fuel (ok s) h = (fuel, ok (Session.close_session fl s), rw h refl)
