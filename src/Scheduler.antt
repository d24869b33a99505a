-- ===== src/Scheduler.antt =====
-- The scheduler, pkg/scheduler/scheduler.go, with the actions that pkg/scheduler/factory.go registers
-- in pkg/scheduler/framework/plugins.go.
pub mod Rounds
pub mod Ends
use kube_arbitrator.Common.{
  ℕ, List, [], ◌∷◌, ◌++◌, Option, none, some, String, string_key, Outcome, ok, panic, ◌>>=◌,
}
use kube_arbitrator.Common.Loop.{and_then}
use kube_arbitrator.Common.Map.{Map, lookup, insert}
use kube_arbitrator.Api.TaskInfo.{TaskInfo}
use kube_arbitrator.Cache.Store.{Cache}
use kube_arbitrator.Plugins.Drf
use kube_arbitrator.Queue.{Heap}
use kube_arbitrator.Framework.Session
use kube_arbitrator.Framework.Session.{Plugin}
use kube_arbitrator.Actions.Decorate
use kube_arbitrator.Actions.Decorate.{Matcher}
use kube_arbitrator.Actions.Allocate
use kube_arbitrator.Actions.Preempt

pub data Action : Type 0 where
  decorate allocate preempt : Action

-- The actions' `Name`.
abbrev pub name_of : Action → String
name_of decorate = "decorate"
name_of allocate = "allocate"
name_of preempt = "preempt"

-- `RegisterAction` and `GetAction`, on the map of actions.
unfoldable pub register_action : Action → Map String Action → Map String Action
register_action act action_map = insert (name_of act) act action_map

unfoldable pub get_action : String → Map String Action → Option Action
get_action name action_map = lookup name action_map

-- `init` of factory.go, for the actions.
unfoldable pub registered_actions : Map String Action
unfolding register_action
registered_actions =
    register_action preempt (register_action allocate (register_action decorate []))

-- What `NewScheduler` returns: the actions of the scheduler, or the error on a name.
pub data NewScheduler : Type 0 where
  scheduler : List Action → NewScheduler
  not_supported : String → NewScheduler

-- The loop of `NewScheduler`.
unfoldable pub collect_actions : Map String Action → List Action → List String → NewScheduler
unfolding get_action
collect_actions action_map actions [] = scheduler actions
collect_actions action_map actions (name ∷ names) = elim (get_action name action_map) [
  | none ↦ not_supported name
  | some act ↦ collect_actions action_map (actions ++ act ∷ []) names
]

unfoldable pub new_scheduler : Map String Action → List String → NewScheduler
unfolding collect_actions
new_scheduler action_map names = collect_actions action_map [] names

module _ (fl : Drf.Float64) (matches : Matcher) (job_heap : Heap ℕ)
    (task_heap : Heap TaskInfo) where
  -- `Execute` of the decorate action, on the session.
  unfoldable pub decorate_session : Session.Session fl → Outcome (Session.Session fl)
  unfolding Decorate.execute
  decorate_session ssn = do
    jobs ← Decorate.execute matches ssn.jobs ssn.nodes
    ok (record ssn { jobs = jobs })

  -- `action.Execute(ssn)`.
  unfoldable pub execute_action :
      ℕ → Action → Session.Session fl → Option (Outcome (Session.Session fl))
  unfolding decorate_session Allocate.execute Preempt.execute
  execute_action fuel decorate ssn = some (decorate_session ssn)
  execute_action fuel allocate ssn = Allocate.execute fl job_heap task_heap fuel ssn
  execute_action fuel preempt ssn = Preempt.execute fl job_heap task_heap fuel ssn

  -- The loop of `runOnce`.
  unfoldable pub execute_actions :
      ℕ → List Action → Session.Session fl → Option (Outcome (Session.Session fl))
  unfolding execute_action
  execute_actions fuel [] ssn = some (ok ssn)
  execute_actions fuel (act ∷ acts) ssn =
      and_then (execute_action fuel act ssn) (λ s. execute_actions fuel acts s)

  -- `runOnce`: the session after `CloseSession`, which holds the cache. A panic skips the rest but for
  -- the deferred `CloseSession`.
  unfoldable pub run_once :
      ℕ → List Plugin → List Action → Cache → Option (Outcome (Session.Session fl))
  unfolding execute_actions Session.open_with Session.close_session
  run_once fuel builders acts sc =
      and_then (execute_actions fuel acts (Session.open_with fl sc builders))
        (λ s. some (ok (Session.close_session fl s)))
