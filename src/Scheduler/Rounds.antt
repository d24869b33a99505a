-- ===== src/Scheduler/Rounds.antt =====
-- A round of the scheduler.
use kube_arbitrator.Common.{
  ℕ, ◌≡◌, ◌⊎◌, inl, inr, refl, sym, ap, ap₂, ◌∙◌, subst, List, [], ◌∷◌, ◌++◌, Option, none, some,
  String, string_key, Outcome, ok, ok_inj, >>=-eq-ok, Option-cases, map,
}
use kube_arbitrator.Common.Loop.{and_then-eq-ok}
use kube_arbitrator.Common.Map.{Map}
use kube_arbitrator.Api.TaskInfo.{TaskInfo}
use kube_arbitrator.Cache.Store.{Cache}
use kube_arbitrator.Cache.Sound.{IsSound}
use kube_arbitrator.Plugins.Drf
use kube_arbitrator.Queue.{Heap}
use kube_arbitrator.Framework.Session
use kube_arbitrator.Framework.Session.{Plugin, priority_plugin, gang_plugin, drf_plugin}
use kube_arbitrator.Actions.Decorate
use kube_arbitrator.Actions.Decorate.{Matcher}
use kube_arbitrator.Actions.Allocate.Steps.{execute-IsSound as allocate-execute-IsSound}
use kube_arbitrator.Actions.Preempt.Steps.{execute-IsSound as preempt-execute-IsSound}
use kube_arbitrator.Scheduler.{
  Action, decorate, allocate, preempt, get_action, scheduler, not_supported, collect_actions,
  new_scheduler, decorate_session, execute_action, execute_actions, run_once,
}

-- The loop keeps the actions in the order of their names, or stops at the first name that it does not
-- know.
collect_actions-cases :
    (m : Map String Action) (actions : List Action) (names : List String)
    → ((more : List Action) × (map (λ n. get_action n m) names ≡ map some more)
        × (collect_actions m actions names ≡ scheduler (actions ++ more)))
      ⊎ ((before after : List String) × (name : String) × (more : List Action) × (names
            ≡ before ++ name ∷ after)
          × (map (λ n. get_action n m) before ≡ map some more)
          × (get_action name m ≡ none)
          × (collect_actions m actions names ≡ not_supported name))
unfolding collect_actions
collect_actions-cases m actions [] = inl ([], refl, ap scheduler (sym (append_nil actions)))
  where
    append_nil : (xs : List Action) → xs ++ [] ≡ xs
    append_nil [] = refl
    append_nil (x ∷ xs) = ap (λ r. x ∷ r) (append_nil xs)
collect_actions-cases m actions (name ∷ names) = elim (Option-cases (get_action name m)) [
  | inl e ↦ inr ([], names, name, [], refl, refl, e, rw (e, collect_actions) refl)
  | inr (act, e) ↦ elim (collect_actions-cases m (actions ++ act ∷ []) names) [
    | inl (more, known, made) ↦ inl (
      act ∷ more,
      ap₂ (λ x r. x ∷ r) e known,
      rw (e, collect_actions) (made ∙ ap scheduler (assoc actions act more)),
    )
    | inr (before, after, bad, more, split, known, unknown, made) ↦ inr (
      name ∷ before,
      after,
      bad,
      act ∷ more,
      ap (λ r. name ∷ r) split,
      ap₂ (λ x r. x ∷ r) e known,
      unknown,
      rw (e, collect_actions) made,
    )
  ]
]
  where
    assoc : (xs : List Action) (a : Action) (ys : List Action) → (xs ++ a ∷ []) ++ ys ≡ xs ++ a ∷ ys
    assoc [] a ys = refl
    assoc (x ∷ xs) a ys = ap (λ r. x ∷ r) (assoc xs a ys)

-- `NewScheduler` keeps the actions in the order of their names, where all are registered, and else
-- returns an error on the first name that is not.
pub new_scheduler-cases :
    (m : Map String Action) (names : List String)
    → ((actions : List Action) × (map (λ n. get_action n m) names ≡ map some actions)
        × (new_scheduler m names ≡ scheduler actions))
      ⊎ ((before after : List String) × (name : String) × (actions : List Action) × (names
            ≡ before ++ name ∷ after)
          × (map (λ n. get_action n m) before ≡ map some actions)
          × (get_action name m ≡ none)
          × (new_scheduler m names ≡ not_supported name))
unfolding new_scheduler
new_scheduler-cases m names = collect_actions-cases m [] names

module _ (fl : Drf.Float64) where
  some_inj :
      {o r : Outcome (Session.Session fl)}
      → ◌≡◌ {A = Option (Outcome (Session.Session fl))} (some o) (some r)
      → o ≡ r
  some_inj h = cc

  opened-cache :
      (ssn : Session.Session fl) (ps : List Plugin)
      → (Session.open_plugins fl ssn ps).cache ≡ ssn.cache
  unfolding Session.open_plugins Session.on_session_open
  opened-cache ssn [] = refl
  opened-cache ssn (priority_plugin ∷ ps) =
      opened-cache (Session.on_session_open fl ssn priority_plugin) ps
  opened-cache ssn (gang_plugin ∷ ps) = opened-cache (Session.on_session_open fl ssn gang_plugin) ps
  opened-cache ssn (drf_plugin ∷ ps) = opened-cache (Session.on_session_open fl ssn drf_plugin) ps

module _ (fl : Drf.Float64) (matches : Matcher) (job_heap : Heap ℕ)
    (task_heap : Heap TaskInfo) where
  execute_action-IsSound :
      (fuel : ℕ) (act : Action) (s t : Session.Session fl)
      → IsSound s.cache
      → execute_action fl matches job_heap task_heap fuel act s ≡ some (ok t)
      → IsSound t.cache
  unfolding execute_action decorate_session
  execute_action-IsSound fuel decorate s t sound h =
      let returned : decorate_session fl matches job_heap task_heap s ≡ ok t = some_inj fl h in
      let (jobs, d, rest) = >>=-eq-ok (Decorate.execute matches s.jobs s.nodes) _ returned in
      subst (λ (x : Session.Session fl). IsSound x.cache) (ok_inj rest) sound
  execute_action-IsSound fuel allocate s t sound h =
      allocate-execute-IsSound fl job_heap task_heap fuel s t sound h
  execute_action-IsSound fuel preempt s t sound h =
      preempt-execute-IsSound fl job_heap task_heap fuel s t sound h

  execute_actions-IsSound :
      (fuel : ℕ) (acts : List Action) (s t : Session.Session fl)
      → IsSound s.cache
      → execute_actions fl matches job_heap task_heap fuel acts s ≡ some (ok t)
      → IsSound t.cache
  unfolding execute_actions
  execute_actions-IsSound fuel [] s t sound h =
      subst (λ (x : Session.Session fl). IsSound x.cache) (ok_inj (some_inj fl h)) sound
  execute_actions-IsSound fuel (act ∷ acts) s t sound h =
      let (m, first, rest) =
        and_then-eq-ok (execute_action fl matches job_heap task_heap fuel act s) _ t h in
      execute_actions-IsSound fuel acts m t (execute_action-IsSound fuel act s m sound first) rest

  -- Where a round of the scheduler returns, for whatever plugins and actions, a sound cache is still
  -- sound.
  pub run_once-IsSound :
      (fuel : ℕ) (builders : List Plugin) (acts : List Action) (sc : Cache) (t : Session.Session fl)
      → IsSound sc
      → run_once fl matches job_heap task_heap fuel builders acts sc ≡ some (ok t)
      → IsSound t.cache
  unfolding run_once Session.open_with Session.open_session Session.close_session
  run_once-IsSound fuel builders acts sc t sound h =
      let opened : Session.Session fl = Session.open_with fl sc builders in
      let (s, done, closed) =
        and_then-eq-ok (execute_actions fl matches job_heap task_heap fuel acts opened) _ t h in
      let same : (Session.close_session fl s).cache ≡ t.cache =
        ap (λ (x : Session.Session fl). x.cache) (ok_inj (some_inj fl closed)) in
      subst IsSound same (
        execute_actions-IsSound fuel acts opened s
          (subst IsSound (sym (opened-cache fl _ builders)) sound) done)
