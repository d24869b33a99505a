-- ===== src/Actions/Allocate/Rounds.antt =====
-- A round of the allocate action that returns, taken apart.
use kube_arbitrator.Common.{
  ℕ, ◌+◌, ◌≤◌, ◌≡◌, ◌⊎◌, inl, inr, refl, sym, ap, Bool, true, false, List, Option, none, some,
  string_key, Outcome, ok, ok_inj, >>=-eq-ok, arith, if◌then◌else◌, Bool-cases,
}
use kube_arbitrator.Common.Lists.{length, get_elem?}
use kube_arbitrator.Common.Map.{insert}
use kube_arbitrator.Common.Loop.{Next, stop, again}
use kube_arbitrator.Api.TaskInfo.{TaskInfo}
use kube_arbitrator.Api.JobInfo.{JobInfo}
use kube_arbitrator.Plugins.Drf
use kube_arbitrator.Queue
use kube_arbitrator.Queue.{Heap}
use kube_arbitrator.Framework.Session
use kube_arbitrator.Actions.Allocate.{
  job_at, nodes_for, job_less, task_less, try_nodes, Vars, tasks_of, place_one, take_job, round,
}

pub job_at-eq :
    (fl : Drf.Float64) (s : Session.Session fl) (i : ℕ) (job : JobInfo)
    → job_at fl s i ≡ ok job
    → get_elem? s.jobs i ≡ some job
unfolding job_at
job_at-eq fl s i job h = ground (arith, h)

-- A job is pushed back, or not.
module _ (job_heap : Heap ℕ) where
  pub pushed_back :
      (less : ℕ → ℕ → Outcome Bool) (b : Bool) (q q' : List ℕ) (i : ℕ)
      → (if b then Queue.push job_heap less q i else ok q) ≡ ok q'
      → length q' ≤ length q + 1
  pushed_back less true q q' i h = omega (arith, Queue.length-push job_heap less q i q' h)
  pushed_back less false q q' i h = omega (arith, ap length (ok_inj h))

module _ (fl : Drf.Float64) (job_heap : Heap ℕ) (task_heap : Heap TaskInfo) where
  -- A round that took the job at position `i` with its tasks.
  pub record Took (v : Vars fl) (n : Next (Vars fl) (Session.Session fl)) : Type 0 where
    pub i : ℕ
    pub jobs : List ℕ
    pub job : JobInfo
    pub tasks : List TaskInfo
    pub task : Option TaskInfo
    pub rest : List TaskInfo
    pub pop_job : Queue.pop job_heap (job_less fl v.ssn) v.jobs ≡ ok (some i, jobs)
    pub at : get_elem? v.ssn.jobs i ≡ some job
    pub tasks_found : tasks_of fl job_heap task_heap (record v { jobs = jobs }) job ≡ ok tasks
    pub pop_task : Queue.pop task_heap (task_less fl v.ssn) tasks ≡ ok (task, rest)
    pub ended : place_one fl job_heap task_heap (record v { jobs = jobs }) i job rest task ≡ ok n

  took :
      (v : Vars fl) (i : Option ℕ) (jobs : List ℕ) (n : Next (Vars fl) (Session.Session fl))
      → Queue.pop job_heap (job_less fl v.ssn) v.jobs ≡ ok (i, jobs)
      → take_job fl job_heap task_heap (record v { jobs = jobs }) i ≡ ok n
      → Took v n
  unfolding take_job
  took v none jobs n p h = cc
  took v (some i) jobs n p h =
      let v' : Vars fl = record v { jobs = jobs } in
      let (job, at, h₁) = >>=-eq-ok (job_at fl v.ssn i) _ h in
      let (tasks, found, h₂) = >>=-eq-ok (tasks_of fl job_heap task_heap v' job) _ h₁ in
      let ((task, rest), q, h₃) = >>=-eq-ok (Queue.pop task_heap (task_less fl v.ssn) tasks) _ h₂ in
      record {
        i = i;
        jobs = jobs;
        job = job;
        tasks = tasks;
        task = task;
        rest = rest;
        pop_job = p;
        at = job_at-eq fl v.ssn i job at;
        tasks_found = found;
        pop_task = q;
        ended = h₃;
      }

  pub round-cases :
      (v : Vars fl) (n : Next (Vars fl) (Session.Session fl))
      → round fl job_heap task_heap v ≡ ok n
      → (n ≡ stop v.ssn) ⊎ Took v n
  unfolding round
  round-cases v n h = elim (Bool-cases (Queue.empty job_heap v.jobs)) [
    | inl e ↦ inl (ok_inj (sym (rw e at h)))
    | inr e ↦
        let ((i, jobs), p, h₁) =
          >>=-eq-ok (Queue.pop job_heap (job_less fl v.ssn) v.jobs) _ (rw e at h) in
        inr (took v i jobs n p h₁)
  ]

  -- What a round leaves of its variables, after it took a job: the rest of the job's tasks, and a
  -- session in which the task that was popped, if any, was tried on the job's nodes.
  pub record Placed (v w : Vars fl) (job : JobInfo) (rest : List TaskInfo) (task : TaskInfo)
      : Type 0 where
    pub assigned : Bool
    pub tried : try_nodes fl v.ssn task (nodes_for fl v.ssn job) ≡ ok (w.ssn, assigned)
    pub jobs_le : length w.jobs ≤ length v.jobs + 1

  pub place_one-again :
      (v : Vars fl) (i : ℕ) (job : JobInfo) (rest : List TaskInfo) (task : Option TaskInfo)
      (n : Next (Vars fl) (Session.Session fl))
      → place_one fl job_heap task_heap v i job rest task ≡ ok n
      → (w : Vars fl) × (n ≡ again w)
        × (w.pending_tasks ≡ insert job.uid rest v.pending_tasks)
        × (((task ≡ none) × (w.ssn ≡ v.ssn) × (w.jobs ≡ v.jobs))
            ⊎ ((t : TaskInfo) × (task ≡ some t) × Placed v w job rest t))
  unfolding place_one
  place_one-again v i job rest none n h = (
    record v { pending_tasks = insert job.uid rest v.pending_tasks },
    ok_inj (sym h),
    refl,
    inl (refl, refl, refl),
  )
  place_one-again v i job rest (some t) n h =
      let ((s, b), tried, h₁) = >>=-eq-ok (try_nodes fl v.ssn t (nodes_for fl v.ssn job)) _ h in
      let (jobs, pushed, h₂) =
        >>=-eq-ok (if b then Queue.push job_heap (job_less fl s) v.jobs i else ok v.jobs) _ h₁ in
      (
        record { ssn = s; jobs = jobs; pending_tasks = insert job.uid rest v.pending_tasks },
        ok_inj (sym h₂),
        refl,
        inr (
          t,
          refl,
          record {
            assigned = b;
            tried = tried;
            jobs_le = pushed_back job_heap (job_less fl s) b v.jobs jobs i pushed;
          },
        ),
      )
