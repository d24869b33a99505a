-- ===== src/Actions/Preempt.antt =====
-- The preempt action, pkg/scheduler/actions/preempt/preempt.go. Pointers to jobs are positions in the
-- session's list.
pub mod Taken
pub mod Trial
pub mod Rounds
pub mod Search
pub mod Origin
pub mod Steps
pub mod Ends
use kube_arbitrator.Common.{
  ℕ, zero, suc, Bool, true, false, not, ◌&&◌, ◌||◌, List, [], ◌∷◌, Option, none, some, String,
  string_key, Outcome, ok, panic, nil_dereference, empty_queue, ◌>>=◌, if◌then◌else◌, ite, ◌==◌,
}
use kube_arbitrator.Common.Lists.{length}
use kube_arbitrator.Common.Map.{Map, lookup, insert}
use kube_arbitrator.Common.Loop.{Next, stop, again, loop}
use kube_arbitrator.Api.Status.{Error, pending, running}
use kube_arbitrator.Api.TaskInfo.{TaskInfo}
use kube_arbitrator.Api.JobInfo.{JobInfo, tasks_with}
use kube_arbitrator.Plugins.Drf
use kube_arbitrator.Queue
use kube_arbitrator.Queue.{Heap}
use kube_arbitrator.Framework.Session
use kube_arbitrator.Framework.Calls
use kube_arbitrator.Actions.Allocate.{positions, values, job_at, job_less, task_less}

-- The four queues.
pub record Queues : Type 0 where
  pub preemptors : List ℕ
  pub preemptees : List ℕ
  pub preemptor_tasks : Map String (List TaskInfo)
  pub preemptee_tasks : Map String (List TaskInfo)

abbrev pub no_queues : Queues
no_queues = record { preemptors = []; preemptees = []; preemptor_tasks = []; preemptee_tasks = [] }

-- A queue of a map, on which a method is called: the nil pointer where there is none.
unfoldable pub tasks_in : Map String (List TaskInfo) → String → Outcome (List TaskInfo)
tasks_in m uid = elim (lookup uid m) [ none ↦ panic nil_dereference | some q ↦ ok q ]

-- `Pop().(*api.TaskInfo)` and `Pop().(*api.JobInfo)`: on an empty queue the assertion on nil panics.
abbrev pub asserted : {A : Type 0} → Option A → Outcome A
asserted none = panic empty_queue
asserted (some x) = ok x

abbrev pub same_text : String → String → Bool
same_text a b = ite (string_key.dec a b) true false

-- The reversed orders.
abbrev pub negated : Outcome Bool → Outcome Bool
negated call = do less ← call; ok (not less)

module _ (fl : Drf.Float64) where
  abbrev pub job_rev_order_fn : Session.Session fl → ℕ → ℕ → Outcome Bool
  job_rev_order_fn ssn l r = negated (job_less fl ssn l r)

  abbrev pub task_rev_order_fn : Session.Session fl → TaskInfo → TaskInfo → Outcome Bool
  task_rev_order_fn ssn l r = negated (task_less fl ssn l r)

  -- `preempted`, after `Preempt`: the error, where there is one, is only logged.
  abbrev pub preempted_by :
      Outcome (Session.Session fl × Option Error) → Outcome (Session.Session fl × Bool)
  preempted_by (panic p) = panic p
  preempted_by (ok (ssn, some err)) = ok (ssn, false)
  preempted_by (ok (ssn, none)) = ok (ssn, true)

  unfoldable pub attempt :
      Session.Session fl → TaskInfo → TaskInfo → Outcome (Session.Session fl × Bool)
  attempt ssn preemptor preemptee = do
    good ← Session.preemptable fl ssn preemptor preemptee
    if good then preempted_by (Calls.preempt fl ssn preemptor preemptee) else ok (ssn, false)

  -- The variables of the loop.
  pub record Vars : Type 0 where
    pub ssn : Session.Session fl
    pub queues : Queues

module _ (fl : Drf.Float64) (job_heap : Heap ℕ) (task_heap : Heap TaskInfo) where
  -- A job with running tasks becomes a preemptee.
  unfoldable pub add_preemptee : Session.Session fl → Queues → ℕ → JobInfo → Outcome Queues
  unfolding tasks_with
  add_preemptee ssn q i job = do
    preemptees ← Queue.push job_heap (job_rev_order_fn fl ssn) q.preemptees i
    tasks ←
        Queue.push_all task_heap (task_rev_order_fn fl ssn) (Queue.new_priority_queue task_heap)
          (values (tasks_with running job.task_status_index))
    ok (record q {
      preemptees = preemptees;
      preemptee_tasks = insert job.uid tasks q.preemptee_tasks;
    })

  -- The body of the loop that fills the queues.
  unfoldable pub add_job : Session.Session fl → Queues → ℕ → JobInfo → Outcome Queues
  unfolding add_preemptee
  add_job ssn q i job = do
    preemptors ← Queue.push job_heap (job_less fl ssn) q.preemptors i
    tasks ←
        Queue.push_all task_heap (task_less fl ssn) (Queue.new_priority_queue task_heap)
          (values (tasks_with pending job.task_status_index))
    let q' : Queues = record q {
      preemptors = preemptors;
      preemptor_tasks = insert job.uid tasks q.preemptor_tasks;
    }
    if length (tasks_with running job.task_status_index) == 0
        then ok q'
        else add_preemptee ssn q' i job

  unfoldable pub add_jobs : Session.Session fl → Queues → ℕ → List JobInfo → Outcome Queues
  unfolding add_job
  add_jobs ssn q i [] = ok q
  add_jobs ssn q i (job ∷ jobs) = do q' ← add_job ssn q i job; add_jobs ssn q' (suc i) jobs

  -- The loop that pops preemptees until one has running tasks left, or is the preemptor's job. The
  -- number bounds its rounds: with the length of the queue, it is used up where the queue is empty.
  unfoldable pub next_preemptee :
      ℕ
      → Session.Session fl
      → Map String (List TaskInfo)
      → String
      → List ℕ
      → Outcome (ℕ × JobInfo × List ℕ)
  next_preemptee zero ssn tasks uid q = panic empty_queue
  next_preemptee (suc n) ssn tasks uid q = do
    (popped, rest) ← Queue.pop job_heap (job_rev_order_fn fl ssn) q
    j ← asserted popped
    job ← job_at fl ssn j
    queue ← tasks_in tasks job.uid
    let next = next_preemptee n ssn tasks uid rest
    if Queue.empty task_heap queue && not (same_text uid job.uid) then next else ok (j, job, rest)

  -- The end of a round, after `Preempt` was tried: what is pushed back.
  unfoldable pub put_back :
      Vars fl
      → ℕ
      → ℕ
      → JobInfo
      → List TaskInfo
      → TaskInfo
      → Bool
      → Outcome (Next (Vars fl) (Session.Session fl))
  put_back v i j victim rest preemptee preempted = do
    preemptors ←
        if preempted
        then Queue.push job_heap (job_less fl v.ssn) v.queues.preemptors i
        else ok v.queues.preemptors
    tasks ←
        if preempted
        then ok rest
        else Queue.push task_heap (task_rev_order_fn fl v.ssn) rest preemptee
    preemptees ← Queue.push job_heap (job_rev_order_fn fl v.ssn) v.queues.preemptees j
    ok (
        again (record v {
          queues = record v.queues {
            preemptors = preemptors;
            preemptees = preemptees;
            preemptee_tasks = insert victim.uid tasks v.queues.preemptee_tasks;
          };
        }))

  -- A round, once both jobs are found.
  unfoldable pub preempt_for :
      Vars fl
      → ℕ
      → JobInfo
      → List TaskInfo
      → ℕ
      → JobInfo
      → Outcome (Next (Vars fl) (Session.Session fl))
  unfolding put_back attempt tasks_in
  preempt_for v i job tasks j victim = do
    (popped, left) ← Queue.pop task_heap (task_less fl v.ssn) tasks
    preemptor ← asserted popped
    running_tasks ← tasks_in v.queues.preemptee_tasks victim.uid
    (popped', rest) ← Queue.pop task_heap (task_rev_order_fn fl v.ssn) running_tasks
    preemptee ← asserted popped'
    (ssn, preempted) ← attempt fl v.ssn preemptor preemptee
    put_back
        (record {
          ssn = ssn;
          queues = record v.queues {
            preemptor_tasks = insert job.uid left v.queues.preemptor_tasks;
          };
        })
        i j victim rest preemptee preempted

  -- A round, once the preemptor's job is found. The most underused job cannot preempt: the loop ends.
  unfoldable pub preempt_job :
      Vars fl → ℕ → JobInfo → List TaskInfo → Outcome (Next (Vars fl) (Session.Session fl))
  unfolding next_preemptee preempt_for
  preempt_job v i job tasks = do
    (j, victim, preemptees) ←
        next_preemptee (length v.queues.preemptees) v.ssn v.queues.preemptee_tasks job.uid
          v.queues.preemptees
    if same_text job.uid victim.uid
        then ok (stop v.ssn)
        else preempt_for (record v { queues = record v.queues { preemptees = preemptees } }) i job
            tasks j victim

  unfoldable pub round : Vars fl → Outcome (Next (Vars fl) (Session.Session fl))
  unfolding preempt_job tasks_in job_at
  round v =
      if Queue.empty job_heap v.queues.preemptors || Queue.empty job_heap v.queues.preemptees
      then ok (stop v.ssn)
      else do
        (popped, preemptors) ← Queue.pop job_heap (job_less fl v.ssn) v.queues.preemptors
        i ← asserted popped
        job ← job_at fl v.ssn i
        tasks ← tasks_in v.queues.preemptor_tasks job.uid
        let v' : Vars fl = record v { queues = record v.queues { preemptors = preemptors } }
        if Queue.empty task_heap tasks then ok (again v') else preempt_job v' i job tasks

  -- `Execute`, once the queues are filled.
  unfoldable pub start :
      ℕ → Session.Session fl → Outcome Queues → Option (Outcome (Session.Session fl))
  unfolding round loop
  start fuel ssn (panic p) = some (panic p)
  start fuel ssn (ok queues) = loop round fuel (record { ssn = ssn; queues = queues })

  -- `Execute`.
  unfoldable pub execute : ℕ → Session.Session fl → Option (Outcome (Session.Session fl))
  unfolding start add_jobs
  execute fuel ssn = start fuel ssn (add_jobs ssn no_queues 0 ssn.jobs)
