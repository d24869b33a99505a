-- ===== src/Actions/Allocate/Ends.antt =====
-- The allocate action ends: each round opens the queue of a job for the first time, or makes the
-- queues shorter.
use kube_arbitrator.Common.{
  ℕ, suc, ◌+◌, ◌≤◌, ◌<◌, ◌≡◌, ◌⊎◌, inl, inr, refl, sym, ap, ◌∙◌, subst, List, [], none, some,
  String, string_key, Outcome, ok, ok_inj, panic, arith, Option-cases,
}
use kube_arbitrator.Common.Lists.{length}
use kube_arbitrator.Common.Map.{lookup, insert}
use kube_arbitrator.Common.Loop.{again, again_inj, loop_more, loop-Ends}
use kube_arbitrator.Api.TaskInfo.{TaskInfo}
use kube_arbitrator.Api.JobInfo.{JobInfo}
use kube_arbitrator.Plugins.Drf
use kube_arbitrator.Queue
use kube_arbitrator.Queue.{Heap}
use kube_arbitrator.Framework.Session
use kube_arbitrator.Framework.Frame.{SameNode, SameNode-IsNodeFrame}
use kube_arbitrator.Framework.Frame.Places.{pipeline-frame}
use kube_arbitrator.Framework.Frame.Dispatch.{allocate-frame}
use kube_arbitrator.Framework.Uids.{uids, SameJobs, uids-IsFrame}
use kube_arbitrator.Actions.Allocate.{
  job_less, task_less, Vars, tasks_of, positions, round, start, execute,
}
use kube_arbitrator.Actions.Allocate.Counts.{
  unseen, unseen-insert, unseen-insert_new, total, total-insert,
}
use kube_arbitrator.Actions.Allocate.Rounds.{Took, round-cases, place_one-again}
use kube_arbitrator.Actions.Allocate.Steps.{Place, allocated, pipelined, Leaves, Took-Leaves}

module _ (fl : Drf.Float64) where
  place-uids : (s t : Session.Session fl) → Place fl s t → SameJobs fl s t
  place-uids s t (allocated i k job node task at l n f call) =
      allocate-frame fl SameNode (SameJobs fl) (uids-IsFrame fl) SameNode-IsNodeFrame.shown
        (λ s task sc e h. refl) SameNode-IsNodeFrame s t task node.name call
  place-uids s t (pipelined i k job node task at l n u f call) =
      pipeline-frame fl SameNode (SameJobs fl) (uids-IsFrame fl) SameNode-IsNodeFrame s t task
        node.name call

  Leaves-uids : (s t : Session.Session fl) → Leaves fl s t → SameJobs fl s t
  Leaves-uids s t (inl e) = rw e refl
  Leaves-uids s t (inr p) = place-uids s t p

module _ (fl : Drf.Float64) (job_heap : Heap ℕ) (task_heap : Heap TaskInfo) where
  -- The ranks of the loop's variables: the jobs with no queue of tasks yet, then what is queued.
  abbrev outer : List String → Vars fl → ℕ
  outer us v = unseen us v.pending_tasks

  abbrev inner : Vars fl → ℕ
  inner v = total v.pending_tasks + length v.jobs

  abbrev Lower : List String → Vars fl → Vars fl → Type 0
  Lower us v w = (outer us w < outer us v) ⊎ ((outer us w ≤ outer us v) × (inner w < inner v))

  -- What is queued gets less where the job had a queue: of the job's tasks, or of the jobs.
  queued_less :
      (v w : Vars fl) (k : Took fl job_heap task_heap v (again w)) (old : List TaskInfo)
      (jobs_le : ((k.task ≡ none) × (length w.jobs ≡ length k.jobs))
        ⊎ ((t : TaskInfo) × (k.task ≡ some t) × (length w.jobs ≤ length k.jobs + 1)))
      → w.pending_tasks ≡ insert k.job.uid k.rest v.pending_tasks
      → lookup k.job.uid v.pending_tasks ≡ some old
      → k.tasks ≡ old
      → inner w < inner v
  queued_less v w k old jobs_le pending found same =
      let sum = total-insert k.job.uid k.rest old v.pending_tasks found in
      let taken = Queue.length-pop job_heap (job_less fl v.ssn) v.jobs k.i k.jobs k.pop_job in
      let len : length k.tasks ≡ length old = ap length same in
      let after : total w.pending_tasks ≡ total (insert k.job.uid k.rest v.pending_tasks) =
        ap total pending in
      elim (Queue.pop-cases task_heap (task_less fl v.ssn) k.tasks k.task k.rest k.pop_task) [
        | inl (none_left, empty, rest) ↦
            let nothing : length k.tasks ≡ 0 = ap length empty in
            let left : length k.rest ≡ 0 = ap length rest in
            elim jobs_le [
              | inl (_, jobs) ↦ omega (arith, sum, taken, len, after, nothing, left, jobs)
              | inr (t, e, jobs) ↦ cc
            ]
        | inr (x, one, shorter) ↦ elim jobs_le [
          | inl (e, jobs) ↦ cc
          | inr (t, e, jobs) ↦ omega (arith, sum, taken, len, after, shorter, jobs)
        ]
      ]

  found_tasks :
      (v : Vars fl) (job : JobInfo) (old tasks : List TaskInfo)
      → lookup job.uid v.pending_tasks ≡ some old
      → tasks_of fl job_heap task_heap v job ≡ ok tasks
      → tasks ≡ old
  unfolding tasks_of
  found_tasks v job old tasks found h = ok_inj (sym (rw (found, tasks_of) at h))

  -- A round that took a job lowers the ranks.
  Took-Lower :
      (us : List String) (v w : Vars fl)
      → uids fl v.ssn ≡ us
      → Took fl job_heap task_heap v (again w)
      → Lower us v w
  Took-Lower us v w same k =
      let v' : Vars fl = record v { jobs = k.jobs } in
      let (w', e, pending', cases) =
        place_one-again fl job_heap task_heap v' k.i k.job k.rest k.task (again w) k.ended in
      let here : w' ≡ w = again_inj (sym e) in
      let pending : w.pending_tasks ≡ insert k.job.uid k.rest v.pending_tasks =
        ap (λ (x : Vars fl). x.pending_tasks) (sym here) ∙ pending' in
      elim (Option-cases (lookup k.job.uid v.pending_tasks)) [
        | inl new ↦ inl (
            subst (λ x. unseen us x < unseen us v.pending_tasks) (sym pending)
              (subst
                (λ x. unseen x (insert k.job.uid k.rest v.pending_tasks) < unseen x v.pending_tasks)
                same
                (unseen-insert_new (λ (job : JobInfo). job.uid) v.ssn.jobs k.i k.job k.rest
                  v.pending_tasks k.at new)))
        | inr (old, found) ↦ inr (
          subst (λ x. unseen us x ≤ unseen us v.pending_tasks) (sym pending)
              (unseen-insert us k.job.uid k.rest v.pending_tasks),
          queued_less v w k old
              (elim cases [
                | inl (no_task, ssn, jobs) ↦
                    inl (no_task, ap (λ (x : Vars fl). length x.jobs) (sym here) ∙ ap length jobs)
                | inr (t, one, p) ↦ inr (
                  t,
                  one,
                  subst (λ (x : Vars fl). length x.jobs ≤ length k.jobs + 1) here p.jobs_le,
                )
              ])
              pending found (found_tasks v' k.job old k.tasks found k.tasks_found),
        )
      ]

  round-Lower :
      (us : List String) (v w : Vars fl)
      → uids fl v.ssn ≡ us
      → round fl job_heap task_heap v ≡ ok (again w)
      → (uids fl w.ssn ≡ us) × Lower us v w
  round-Lower us v w same h = elim (round-cases fl job_heap task_heap v (again w) h) [
    | inl e ↦ cc
    | inr k ↦ (
      Leaves-uids fl v.ssn w.ssn (Took-Leaves fl job_heap task_heap v w k) ∙ same,
      Took-Lower us v w same k,
    )
  ]

  started :
      (ssn : Session.Session fl) (q : Outcome (List ℕ))
      → (fuel : ℕ) × (o : Outcome (Session.Session fl)) × (start fl job_heap task_heap fuel ssn q
          ≡ some o)
  unfolding start
  started ssn (panic p) = (0, panic p, refl)
  started ssn (ok jobs) =
      let v : Vars fl = record { ssn = ssn; jobs = jobs; pending_tasks = [] } in
      let us = uids fl ssn in
      loop-Ends (round fl job_heap task_heap) (λ w. uids fl w.ssn ≡ us) (outer us) inner
        (round-Lower us) (suc (outer us v)) (suc (inner v)) v refl (omega arith) (omega arith)

  -- The allocate action ends, on every session: with some fuel it does not run out, whatever order
  -- the queues give to jobs and tasks.
  pub execute-ends :
      (ssn : Session.Session fl)
      → (fuel : ℕ) × (o : Outcome (Session.Session fl)) × (execute fl job_heap task_heap fuel ssn
          ≡ some o)
  unfolding execute
  execute-ends ssn =
      started ssn (Queue.push_all job_heap (job_less fl ssn) [] (positions 0 ssn.jobs))

  start_more :
      (n m : ℕ) (ssn : Session.Session fl) (q : Outcome (List ℕ)) (o : Outcome (Session.Session fl))
      → n ≤ m
      → start fl job_heap task_heap n ssn q ≡ some o
      → start fl job_heap task_heap m ssn q ≡ some o
  unfolding start
  start_more n m ssn (panic p) o le h = h
  start_more n m ssn (ok q) o le h =
      loop_more (round fl job_heap task_heap) n m
        (record { ssn = ssn; jobs = q; pending_tasks = [] }) o le h

  -- More fuel does not change what the action does.
  pub execute_more :
      (n m : ℕ) (ssn : Session.Session fl) (o : Outcome (Session.Session fl))
      → n ≤ m
      → execute fl job_heap task_heap n ssn ≡ some o
      → execute fl job_heap task_heap m ssn ≡ some o
  unfolding execute
  execute_more n m ssn o le h =
      start_more n m ssn (Queue.push_all job_heap (job_less fl ssn) [] (positions 0 ssn.jobs)) o le
        h
