-- ===== src/Actions/Preempt/Origin.antt =====
-- Where the tasks in the queues of the preempt action come from.
use kube_arbitrator.Common.{
  ℕ, suc, ◌≡◌, ◌≢◌, ◌⊎◌, inl, inr, refl, sym, ◌∙◌, subst, Bool, List, [], ◌∷◌, ◌++◌, some, String,
  string_key, Outcome, ok, ok_inj, >>=-eq-ok, arith, Bool-cases, ◌==◌,
}
use mathlib.Core.List.{Mem, Perm, mem-cons_self, mem-cons_of_mem}
use mathlib.Core.List.Perm
use kube_arbitrator.Common.Lists.{length}
use kube_arbitrator.Common.Map.{Map, lookup, insert, lookup-insert_self, lookup-insert_ne}
use kube_arbitrator.Common.Loop.{Next, again, again_inj}
use kube_arbitrator.Api.Status.{TaskStatus, pending, running}
use kube_arbitrator.Api.TaskInfo.{TaskInfo}
use kube_arbitrator.Api.JobInfo.{JobInfo, tasks_with}
use kube_arbitrator.Plugins.Drf
use kube_arbitrator.Queue
use kube_arbitrator.Queue.{Heap}
use kube_arbitrator.Framework.Session
use kube_arbitrator.Actions.Allocate.{values, job_less, task_less}
use kube_arbitrator.Actions.Preempt.{
  Queues, job_rev_order_fn, task_rev_order_fn, Vars, add_preemptee, add_job, add_jobs,
}
use kube_arbitrator.Actions.Preempt.Trial.{Tried}

-- A task that a job of that UID holds in that status.
pub record From (jobs : List JobInfo) (status : TaskStatus) (uid : String) (t : TaskInfo)
    : Type 0 where
  pub job : JobInfo
  pub listed : Mem job jobs
  pub named : job.uid ≡ uid
  pub held : Mem t (values (tasks_with status job.task_status_index))

abbrev pub AllFrom : List JobInfo → TaskStatus → String → List TaskInfo → Type 0
AllFrom jobs status uid q = (t : TaskInfo) → Mem t q → From jobs status uid t

-- Every queue of the map holds such tasks only.
abbrev pub Queued : List JobInfo → TaskStatus → Map String (List TaskInfo) → Type 0
Queued jobs status m =
    (uid : String) (q : List TaskInfo) → lookup uid m ≡ some q → AllFrom jobs status uid q

Queued-insert :
    (jobs : List JobInfo) (status : TaskStatus) (m : Map String (List TaskInfo)) (k : String)
    (q : List TaskInfo)
    → Queued jobs status m
    → AllFrom jobs status k q
    → Queued jobs status (insert k q m)
Queued-insert jobs status m k q all new uid p h = elim (string_key.dec k uid) [
  | yes e ↦
      let found : lookup uid (insert k q m) ≡ some q = rw (sym e) (lookup-insert_self k q m) in
      let same : q ≡ p = ground (arith, found, h) in
      subst (AllFrom jobs status uid) same (subst (λ u. AllFrom jobs status u q) e new)
  | no n ↦ all uid p (sym (lookup-insert_ne k uid q m n) ∙ h)
]

abbrev pub IsFilled : List JobInfo → Queues → Type 0
IsFilled jobs q = Queued jobs pending q.preemptor_tasks × Queued jobs running q.preemptee_tasks

module _ (heap : Heap TaskInfo) (jobs : List JobInfo) (status : TaskStatus) (uid : String) where
  filled-AllFrom :
      (less : TaskInfo → TaskInfo → Outcome Bool) (job : JobInfo) (q : List TaskInfo)
      → Mem job jobs
      → job.uid ≡ uid
      → Queue.push_all heap less [] (values (tasks_with status job.task_status_index)) ≡ ok q
      → AllFrom jobs status uid q
  filled-AllFrom less job q listed named h t m =
      let ts = values (tasks_with status job.task_status_index) in
      record {
        job = job;
        listed = listed;
        named = named;
        held =
            (Perm.mem_iff
                (Perm.trans (Queue.push_all-perm heap less [] ts q h) (append_nil-perm ts))).0
              m;
      }
    where
      append_nil-perm : (xs : List TaskInfo) → Perm (xs ++ []) xs
      append_nil-perm [] = Perm.rfl
      append_nil-perm (x ∷ xs) = Perm.cons x (append_nil-perm xs)

  popped-AllFrom :
      (less : TaskInfo → TaskInfo → Outcome Bool) (q : List TaskInfo) (x : TaskInfo)
      (rest : List TaskInfo)
      → AllFrom jobs status uid q
      → Queue.pop heap less q ≡ ok (some x, rest)
      → AllFrom jobs status uid (x ∷ rest)
  popped-AllFrom less q x rest all h t m =
      all t ((Perm.mem_iff (Queue.pop-perm heap less q x rest h)).1 m)

  back-AllFrom :
      (x : TaskInfo) (rest q : List TaskInfo)
      → AllFrom jobs status uid (x ∷ rest)
      → (q ≡ rest)
        ⊎ ((less : TaskInfo → TaskInfo → Outcome Bool) × (Queue.push heap less rest x ≡ ok q))
      → AllFrom jobs status uid q
  back-AllFrom x rest q all (inl e) t m = all t (mem-cons_of_mem x (subst (Mem t) e m))
  back-AllFrom x rest q all (inr (less, h)) t m =
      all t ((Perm.mem_iff (Queue.push-perm heap less rest x q h)).0 m)

-- The pair that a round tries: a pending task of a job, and a running task of a job of another UID.
pub record Pair (jobs : List JobInfo) (preemptor preemptee : TaskInfo) : Type 0 where
  pub uid : String
  pub victim_uid : String
  pub other : uid ≢ victim_uid
  pub preemptor_from : From jobs pending uid preemptor
  pub preemptee_from : From jobs running victim_uid preemptee

module _ (fl : Drf.Float64) (job_heap : Heap ℕ) (task_heap : Heap TaskInfo) where
  add_preemptee-IsFilled :
      (ssn : Session.Session fl) (q q' : Queues) (i : ℕ) (job : JobInfo) (jobs : List JobInfo)
      → Mem job jobs
      → IsFilled jobs q
      → add_preemptee fl job_heap task_heap ssn q i job ≡ ok q'
      → IsFilled jobs q'
  unfolding add_preemptee
  add_preemptee-IsFilled ssn q q' i job jobs m filled h =
      let (es, e, h₁) =
        >>=-eq-ok (Queue.push job_heap (job_rev_order_fn fl ssn) q.preemptees i) _ h in
      let (ts, t, h₂) =
        >>=-eq-ok
          (Queue.push_all task_heap (task_rev_order_fn fl ssn) []
            (values (tasks_with running job.task_status_index)))
          _ h₁ in
      subst (IsFilled jobs) (ok_inj h₂) (
        filled.0,
        Queued-insert jobs running q.preemptee_tasks job.uid ts filled.1 (
            filled-AllFrom task_heap jobs running job.uid (task_rev_order_fn fl ssn) job ts m refl
              t),
      )

  add_job-IsFilled :
      (ssn : Session.Session fl) (q q' : Queues) (i : ℕ) (job : JobInfo) (jobs : List JobInfo)
      → Mem job jobs
      → IsFilled jobs q
      → add_job fl job_heap task_heap ssn q i job ≡ ok q'
      → IsFilled jobs q'
  unfolding add_job
  add_job-IsFilled ssn q q' i job jobs m filled h =
      let (ps, p, h₁) = >>=-eq-ok (Queue.push job_heap (job_less fl ssn) q.preemptors i) _ h in
      let (ts, t, h₂) =
        >>=-eq-ok
          (Queue.push_all task_heap (task_less fl ssn) []
            (values (tasks_with pending job.task_status_index)))
          _ h₁ in
      let r : Queues = record q {
        preemptors = ps;
        preemptor_tasks = insert job.uid ts q.preemptor_tasks;
      } in
      let there : IsFilled jobs r = (
        Queued-insert jobs pending q.preemptor_tasks job.uid ts filled.0
            (filled-AllFrom task_heap jobs pending job.uid (task_less fl ssn) job ts m refl t),
        filled.1,
      ) in
      elim (Bool-cases (length (tasks_with running job.task_status_index) == 0)) [
        | inl e ↦ subst (IsFilled jobs) (ok_inj (rw e at h₂)) there
        | inr e ↦ add_preemptee-IsFilled ssn r q' i job jobs m there (rw e at h₂)
      ]

  -- The loop that fills the queues takes tasks from the session's jobs.
  pub add_jobs-IsFilled :
      (ssn : Session.Session fl) (jobs : List JobInfo) (q q' : Queues) (i : ℕ) (todo : List JobInfo)
      → ((job : JobInfo) → Mem job todo → Mem job jobs)
      → IsFilled jobs q
      → add_jobs fl job_heap task_heap ssn q i todo ≡ ok q'
      → IsFilled jobs q'
  unfolding add_jobs
  add_jobs-IsFilled ssn jobs q q' i [] sub filled h = subst (IsFilled jobs) (ok_inj h) filled
  add_jobs-IsFilled ssn jobs q q' i (job ∷ todo) sub filled h =
      let (r, a, rest) = >>=-eq-ok (add_job fl job_heap task_heap ssn q i job) _ h in
      add_jobs-IsFilled ssn jobs r q' (suc i) todo (λ x m. sub x (mem-cons_of_mem job m))
        (add_job-IsFilled ssn q r i job jobs (sub job mem-cons_self) filled a) rest

  module _ (v : Vars fl) (job : JobInfo) (tasks : List TaskInfo)
      (n : Next (Vars fl) (Session.Session fl)) (filled : IsFilled v.ssn.jobs v.queues)
      (found : lookup job.uid v.queues.preemptor_tasks ≡ some tasks)
      (k : Tried fl job_heap task_heap v job tasks n) where
    pending_all : AllFrom v.ssn.jobs pending job.uid (k.preemptor ∷ k.left)
    pending_all =
        popped-AllFrom task_heap v.ssn.jobs pending job.uid (task_less fl v.ssn) tasks k.preemptor
          k.left (filled.0 job.uid tasks found) k.pop_task

    running_all : AllFrom v.ssn.jobs running k.victim.uid (k.preemptee ∷ k.rest)
    running_all =
        popped-AllFrom task_heap v.ssn.jobs running k.victim.uid (task_rev_order_fn fl v.ssn)
          k.running_tasks k.preemptee k.rest (filled.1 k.victim.uid k.running_tasks k.running_found)
          k.pop_running

    pub tried-Pair : Pair v.ssn.jobs k.preemptor k.preemptee
    tried-Pair = record {
      uid = job.uid;
      victim_uid = k.victim.uid;
      other = k.other;
      preemptor_from = pending_all k.preemptor mem-cons_self;
      preemptee_from = running_all k.preemptee mem-cons_self;
    }

    pub tried-IsFilled : (w : Vars fl) → n ≡ again w → IsFilled v.ssn.jobs w.queues
    tried-IsFilled w e =
        subst (λ (x : Vars fl). IsFilled v.ssn.jobs x.queues) (again_inj (sym k.ended.goes_on ∙ e))
          (
            Queued-insert v.ssn.jobs pending v.queues.preemptor_tasks job.uid k.left filled.0
                (λ t m. pending_all t (mem-cons_of_mem k.preemptor m)),
            Queued-insert v.ssn.jobs running v.queues.preemptee_tasks k.victim.uid k.ended.tasks
                filled.1
                (back-AllFrom task_heap v.ssn.jobs running k.victim.uid k.preemptee k.rest
                  k.ended.tasks running_all k.ended.kept),
          )
