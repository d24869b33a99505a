-- ===== src/Actions/Preempt/Ends.antt =====
-- How many rounds the preempt action makes: one for each job and one for each pending task, at most.
use kube_arbitrator.Common.{
  ℕ, suc, ◌+◌, ◌≤◌, ◌<◌, ◌≡◌, inl, inr, refl, sym, ap, List, [], ◌∷◌, some, String, string_key,
  Outcome, ok, ok_inj, panic, >>=-eq-ok, arith, Bool-cases, ◌==◌,
}
use kube_arbitrator.Common.Lists.{length}
use kube_arbitrator.Common.Map.{Map, lookup, insert}
use kube_arbitrator.Common.Loop.{again, again_inj, loop_more, loop_enough}
use kube_arbitrator.Api.Status.{pending, running}
use kube_arbitrator.Api.TaskInfo.{TaskInfo}
use kube_arbitrator.Api.JobInfo.{JobInfo, tasks_with}
use kube_arbitrator.Plugins.Drf
use kube_arbitrator.Queue
use kube_arbitrator.Queue.{Heap}
use kube_arbitrator.Framework.Session
use kube_arbitrator.Actions.Allocate.{values, job_less, task_less}
use kube_arbitrator.Actions.Allocate.Counts.{total, total-insert}
use kube_arbitrator.Actions.Preempt.{
  Queues, no_queues, job_rev_order_fn, task_rev_order_fn, Vars, add_preemptee, add_job, add_jobs,
  round, start, execute,
}
use kube_arbitrator.Actions.Preempt.Rounds.{without, round-cases}
use kube_arbitrator.Actions.Preempt.Trial.{Tried}

-- The pending tasks of the jobs.
abbrev pub pending_tasks : List JobInfo → ℕ
pending_tasks [] = 0
pending_tasks (job ∷ jobs) =
    length (values (tasks_with pending job.task_status_index)) + pending_tasks jobs

-- A new queue adds its tasks, or takes the place of an old one.
total-insert_le :
    {T : Type 0} (k : String) (q : List T) (m : Map String (List T))
    → total (insert k q m) ≤ total m + length q
unfolding insert
total-insert_le k q [] = omega arith
total-insert_le k q ((j, p) ∷ m) = elim (string_key.dec j k) [
  | yes e ↦ ground (arith, e)
  | no n ↦ ground (arith, n, total-insert_le k q m)
]

-- What is left to try: the jobs queued as preemptors and the tasks queued for them.
abbrev pub left_over : Queues → ℕ
left_over q = length q.preemptors + total q.preemptor_tasks

module _ (fl : Drf.Float64) (job_heap : Heap ℕ) (task_heap : Heap TaskInfo) where
  add_preemptee-left :
      (ssn : Session.Session fl) (q q' : Queues) (i : ℕ) (job : JobInfo)
      → add_preemptee fl job_heap task_heap ssn q i job ≡ ok q'
      → left_over q' ≡ left_over q
  unfolding add_preemptee
  add_preemptee-left ssn q q' i job h =
      let (es, e, h₁) =
        >>=-eq-ok (Queue.push job_heap (job_rev_order_fn fl ssn) q.preemptees i) _ h in
      let (ts, t, h₂) =
        >>=-eq-ok
          (Queue.push_all task_heap (task_rev_order_fn fl ssn) []
            (values (tasks_with running job.task_status_index)))
          _ h₁ in
      ap left_over (sym (ok_inj h₂))

  add_job-left :
      (ssn : Session.Session fl) (q q' : Queues) (i : ℕ) (job : JobInfo)
      → add_job fl job_heap task_heap ssn q i job ≡ ok q'
      → left_over q' ≤ left_over q + 1 + length (values (tasks_with pending job.task_status_index))
  unfolding add_job
  add_job-left ssn q q' i job h =
      let todo = values (tasks_with pending job.task_status_index) in
      let (ps, p, h₁) = >>=-eq-ok (Queue.push job_heap (job_less fl ssn) q.preemptors i) _ h in
      let (ts, t, h₂) = >>=-eq-ok (Queue.push_all task_heap (task_less fl ssn) [] todo) _ h₁ in
      let r : Queues = record q {
        preemptors = ps;
        preemptor_tasks = insert job.uid ts q.preemptor_tasks;
      } in
      let jobs_more = Queue.length-push job_heap (job_less fl ssn) q.preemptors i ps p in
      let tasks_more = Queue.length-push_all task_heap (task_less fl ssn) [] todo ts t in
      let queued = total-insert_le job.uid ts q.preemptor_tasks in
      elim (Bool-cases (length (tasks_with running job.task_status_index) == 0)) [
        | inl e ↦
            let same = ap left_over (ok_inj (rw e at h₂)) in
            omega (arith, same, jobs_more, tasks_more, queued)
        | inr e ↦
            let same = add_preemptee-left ssn r q' i job (rw e at h₂) in
            omega (arith, same, jobs_more, tasks_more, queued)
      ]

  add_jobs-left :
      (ssn : Session.Session fl) (q q' : Queues) (i : ℕ) (jobs : List JobInfo)
      → add_jobs fl job_heap task_heap ssn q i jobs ≡ ok q'
      → left_over q' ≤ left_over q + length jobs + pending_tasks jobs
  unfolding add_jobs
  add_jobs-left ssn q q' i [] h = omega (arith, ap left_over (ok_inj h))
  add_jobs-left ssn q q' i (job ∷ jobs) h =
      let (r, a, rest) = >>=-eq-ok (add_job fl job_heap task_heap ssn q i job) _ h in
      omega (arith, add_job-left ssn q r i job a, add_jobs-left ssn r q' (suc i) jobs rest)

  Tried-left :
      (v w : Vars fl) (job : JobInfo) (tasks : List TaskInfo)
      → lookup job.uid v.queues.preemptor_tasks ≡ some tasks
      → Tried fl job_heap task_heap v job tasks (again w)
      → left_over w.queues ≤ left_over v.queues
  Tried-left v w job tasks found k =
      let same = ap (λ (x : Vars fl). left_over x.queues) (again_inj k.ended.goes_on) in
      let taken =
        Queue.length-pop task_heap (task_less fl v.ssn) tasks k.preemptor k.left k.pop_task in
      let sum = total-insert job.uid k.left tasks v.queues.preemptor_tasks found in
      omega (arith, same, taken, sum, k.ended.preemptors_le)

  round-left :
      (v w : Vars fl)
      → round fl job_heap task_heap v ≡ ok (again w)
      → left_over w.queues < left_over v.queues
  round-left v w h = elim (round-cases fl job_heap task_heap v (again w) h) [
    | inl e ↦ cc
    | inr (k, cases) ↦
        let taken =
          Queue.length-pop job_heap (job_less fl v.ssn) v.queues.preemptors k.i k.preemptors
            k.pop_job in
        elim cases [
          | inl e ↦
              let same = ap (λ (x : Vars fl). left_over x.queues) (again_inj e) in
              omega (arith, same, taken)
          | inr t ↦
              let less =
                Tried-left (without fl job_heap task_heap v k) w k.job k.tasks k.tasks_found t in
              omega (arith, less, taken)
        ]
  ]

  started :
      (fuel : ℕ) (ssn : Session.Session fl) (q : Outcome Queues)
      → ((queues : Queues) → q ≡ ok queues → left_over queues < fuel)
      → (o : Outcome (Session.Session fl)) × (start fl job_heap task_heap fuel ssn q ≡ some o)
  unfolding start
  started fuel ssn (panic p) less = (panic p, refl)
  started fuel ssn (ok q) less =
      loop_enough {0, 0} (round fl job_heap task_heap) (λ v. Unit) (λ v. left_over v.queues)
        (λ v w u h. (tt, round-left v w h)) fuel (record { ssn = ssn; queues = q }) tt (less q refl)

  -- The preempt action ends, on every session and whatever the heaps and the orders do: fuel for
  -- one round more than the session has jobs and pending tasks is enough.
  pub execute-enough :
      (fuel : ℕ) (ssn : Session.Session fl)
      → length ssn.jobs + pending_tasks ssn.jobs < fuel
      → (o : Outcome (Session.Session fl)) × (execute fl job_heap task_heap fuel ssn ≡ some o)
  unfolding execute
  execute-enough fuel ssn less =
      started fuel ssn (add_jobs fl job_heap task_heap ssn no_queues 0 ssn.jobs)
        (λ q h. omega (arith, less, add_jobs-left ssn no_queues q 0 ssn.jobs h))

  start_more :
      (n m : ℕ) (ssn : Session.Session fl) (q : Outcome (Queues)) (o : Outcome (Session.Session fl))
      → n ≤ m
      → start fl job_heap task_heap n ssn q ≡ some o
      → start fl job_heap task_heap m ssn q ≡ some o
  unfolding start
  start_more n m ssn (panic p) o le h = h
  start_more n m ssn (ok q) o le h =
      loop_more (round fl job_heap task_heap) n m (record { ssn = ssn; queues = q }) o le h

  -- More fuel does not change what the action does.
  pub execute_more :
      (n m : ℕ) (ssn : Session.Session fl) (o : Outcome (Session.Session fl))
      → n ≤ m
      → execute fl job_heap task_heap n ssn ≡ some o
      → execute fl job_heap task_heap m ssn ≡ some o
  unfolding execute
  execute_more n m ssn o le h =
      start_more n m ssn (add_jobs fl job_heap task_heap ssn no_queues 0 ssn.jobs) o le h
