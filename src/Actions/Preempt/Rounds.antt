-- ===== src/Actions/Preempt/Rounds.antt =====
-- A round of the preempt action that returns, taken apart.
use kube_arbitrator.Common.{
  ℕ, ◌≡◌, ◌⊎◌, inl, inr, sym, ◌||◌, List, some, string_key, ok, ok_inj, >>=-eq-ok, Bool-cases,
}
use kube_arbitrator.Common.Lists.{length, get_elem?}
use kube_arbitrator.Common.Map.{lookup}
use kube_arbitrator.Common.Loop.{Next, stop, again}
use kube_arbitrator.Api.TaskInfo.{TaskInfo}
use kube_arbitrator.Api.JobInfo.{JobInfo}
use kube_arbitrator.Plugins.Drf
use kube_arbitrator.Queue
use kube_arbitrator.Queue.{Heap}
use kube_arbitrator.Framework.Session
use kube_arbitrator.Actions.Allocate.{job_at, job_less}
use kube_arbitrator.Actions.Allocate.Rounds.{job_at-eq}
use kube_arbitrator.Actions.Preempt.{tasks_in, same_text, Vars, next_preemptee, preempt_job, round}
use kube_arbitrator.Actions.Preempt.Taken.{taken, tasks_in-eq, same_text-ne, next_preemptee-at}
use kube_arbitrator.Actions.Preempt.Trial.{Tried, preempt_for-Tried}

module _ (fl : Drf.Float64) (job_heap : Heap ℕ) (task_heap : Heap TaskInfo) where
  preempt_job-cases :
      (v : Vars fl) (i : ℕ) (job : JobInfo) (tasks : List TaskInfo)
      (n : Next (Vars fl) (Session.Session fl))
      → preempt_job fl job_heap task_heap v i job tasks ≡ ok n
      → (n ≡ stop v.ssn) ⊎ Tried fl job_heap task_heap v job tasks n
  unfolding preempt_job
  preempt_job-cases v i job tasks n h =
      let ((j, victim, preemptees), found, h₁) =
        >>=-eq-ok
          (next_preemptee fl job_heap task_heap (length v.queues.preemptees) v.ssn
            v.queues.preemptee_tasks job.uid v.queues.preemptees)
          _ h in
      elim (Bool-cases (same_text job.uid victim.uid)) [
        | inl e ↦ inl (ok_inj (sym (rw e at h₁)))
        | inr e ↦ inr (
            preempt_for-Tried fl job_heap task_heap v i job tasks j victim preemptees n
              (next_preemptee-at fl job_heap task_heap _ v.ssn _ job.uid _ j victim preemptees
                found)
              (same_text-ne job.uid victim.uid e) (rw e at h₁))
      ]

  -- A round that took the job at position `i` with its queue of pending tasks.
  pub record Took (v : Vars fl) : Type 0 where
    pub i : ℕ
    pub preemptors : List ℕ
    pub job : JobInfo
    pub tasks : List TaskInfo
    pub pop_job :
        Queue.pop job_heap (job_less fl v.ssn) v.queues.preemptors ≡ ok (some i, preemptors)
    pub at : get_elem? v.ssn.jobs i ≡ some job
    pub tasks_found : lookup job.uid v.queues.preemptor_tasks ≡ some tasks

  -- The variables once the preemptor's job is taken.
  abbrev pub without : (v : Vars fl) → Took v → Vars fl
  without v k = record v { queues = record v.queues { preemptors = k.preemptors } }

  -- A round ends the loop without a change, skips a job without pending tasks, or tries a pair.
  pub round-cases :
      (v : Vars fl) (n : Next (Vars fl) (Session.Session fl))
      → round fl job_heap task_heap v ≡ ok n
      → (n ≡ stop v.ssn)
        ⊎ ((k : Took v) × ((n ≡ again (without v k))
              ⊎ Tried fl job_heap task_heap (without v k) k.job k.tasks n))
  unfolding round
  round-cases v n h =
      elim (Bool-cases
        (Queue.empty job_heap v.queues.preemptors || Queue.empty job_heap v.queues.preemptees)) [
          | inl e ↦ inl (ok_inj (sym (rw e at h)))
          | inr e ↦
              let (i, ps, pop, h₁) =
                taken job_heap (job_less fl v.ssn) v.queues.preemptors _ _ (rw e at h) in
              let (job, at, h₂) = >>=-eq-ok (job_at fl v.ssn i) _ h₁ in
              let (tasks, found, h₃) = >>=-eq-ok (tasks_in v.queues.preemptor_tasks job.uid) _ h₂ in
              let k : Took v = record {
                i = i;
                preemptors = ps;
                job = job;
                tasks = tasks;
                pop_job = pop;
                at = job_at-eq fl v.ssn i job at;
                tasks_found = tasks_in-eq v.queues.preemptor_tasks job.uid tasks found;
              } in
              elim (Bool-cases (Queue.empty task_heap tasks)) [
                | inl e' ↦ inr (k, inl (ok_inj (sym (rw e' at h₃))))
                | inr e' ↦ elim (preempt_job-cases (without v k) i job tasks n (rw e' at h₃)) [
                  | inl s ↦ inl s
                  | inr t ↦ inr (k, inr t)
                ]
              ]
        ]
