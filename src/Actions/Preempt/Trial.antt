-- ===== src/Actions/Preempt/Trial.antt =====
-- A round of the preempt action in which a task was tried as the preemptor of another.
use kube_arbitrator.Common.{
  ℕ, ◌+◌, ◌≤◌, ◌≡◌, ◌≢◌, ◌⊎◌, inl, inr, sym, Bool, true, false, List, some, string_key, Outcome, ok,
  ok_inj, >>=-eq-ok, if◌then◌else◌,
}
use kube_arbitrator.Common.Lists.{length, get_elem?}
use kube_arbitrator.Common.Map.{lookup, insert}
use kube_arbitrator.Common.Loop.{Next, again}
use kube_arbitrator.Api.TaskInfo.{TaskInfo}
use kube_arbitrator.Api.JobInfo.{JobInfo}
use kube_arbitrator.Plugins.Drf
use kube_arbitrator.Queue
use kube_arbitrator.Queue.{Heap}
use kube_arbitrator.Framework.Session
use kube_arbitrator.Actions.Allocate.{job_less, task_less}
use kube_arbitrator.Actions.Allocate.Rounds.{pushed_back}
use kube_arbitrator.Actions.Preempt.{
  tasks_in, job_rev_order_fn, task_rev_order_fn, attempt, Vars, put_back, preempt_for,
}
use kube_arbitrator.Actions.Preempt.Taken.{taken, tasks_in-eq}

module _ (fl : Drf.Float64) (job_heap : Heap ℕ) (task_heap : Heap TaskInfo) where
  -- What `put_back` leaves: the preemptor's job may be queued again, and the preemptee too.
  pub record PutBack (v : Vars fl) (victim : JobInfo) (rest : List TaskInfo) (preemptee : TaskInfo)
      (n : Next (Vars fl) (Session.Session fl)) : Type 0 where
    pub preemptors : List ℕ
    pub preemptees : List ℕ
    pub tasks : List TaskInfo
    pub goes_on :
        n
        ≡ again (record v {
          queues = record v.queues {
            preemptors = preemptors;
            preemptees = preemptees;
            preemptee_tasks = insert victim.uid tasks v.queues.preemptee_tasks;
          };
        })
    pub preemptors_le : length preemptors ≤ length v.queues.preemptors + 1
    pub kept :
        (tasks ≡ rest)
        ⊎ ((less : TaskInfo → TaskInfo → Outcome Bool) × (Queue.push task_heap less rest preemptee
              ≡ ok tasks))

  kept_or_pushed :
      (less : TaskInfo → TaskInfo → Outcome Bool) (b : Bool) (rest tasks : List TaskInfo)
      (t : TaskInfo)
      → (if b then ok rest else Queue.push task_heap less rest t) ≡ ok tasks
      → (tasks ≡ rest)
        ⊎ ((less : TaskInfo → TaskInfo → Outcome Bool) × (Queue.push task_heap less rest t
              ≡ ok tasks))
  kept_or_pushed less true rest tasks t h = inl (ok_inj (sym h))
  kept_or_pushed less false rest tasks t h = inr (less, h)

  put_back-again :
      (v : Vars fl) (i j : ℕ) (victim : JobInfo) (rest : List TaskInfo) (preemptee : TaskInfo)
      (b : Bool) (n : Next (Vars fl) (Session.Session fl))
      → put_back fl job_heap task_heap v i j victim rest preemptee b ≡ ok n
      → PutBack v victim rest preemptee n
  unfolding put_back
  put_back-again v i j victim rest preemptee b n h =
      let (ps, p, h₁) =
        >>=-eq-ok
          (if b
            then Queue.push job_heap (job_less fl v.ssn) v.queues.preemptors i
            else ok v.queues.preemptors)
          _ h in
      let (ts, t, h₂) =
        >>=-eq-ok
          (if b then ok rest else Queue.push task_heap (task_rev_order_fn fl v.ssn) rest preemptee)
          _ h₁ in
      let (es, e, h₃) =
        >>=-eq-ok (Queue.push job_heap (job_rev_order_fn fl v.ssn) v.queues.preemptees j) _ h₂ in
      record {
        preemptors = ps;
        preemptees = es;
        tasks = ts;
        goes_on = ok_inj (sym h₃);
        preemptors_le = pushed_back job_heap (job_less fl v.ssn) b v.queues.preemptors ps i p;
        kept = kept_or_pushed (task_rev_order_fn fl v.ssn) b rest ts preemptee t;
      }

  -- A round in which a task was tried as the preemptor of another.
  pub record Tried (v : Vars fl) (job : JobInfo) (tasks : List TaskInfo)
      (n : Next (Vars fl) (Session.Session fl)) : Type 0 where
    pub j : ℕ
    pub victim : JobInfo
    pub preemptees : List ℕ
    pub victim_at : get_elem? v.ssn.jobs j ≡ some victim
    pub other : job.uid ≢ victim.uid
    pub preemptor : TaskInfo
    pub left : List TaskInfo
    pub pop_task : Queue.pop task_heap (task_less fl v.ssn) tasks ≡ ok (some preemptor, left)
    pub running_tasks : List TaskInfo
    pub running_found : lookup victim.uid v.queues.preemptee_tasks ≡ some running_tasks
    pub preemptee : TaskInfo
    pub rest : List TaskInfo
    pub pop_running :
        Queue.pop task_heap (task_rev_order_fn fl v.ssn) running_tasks ≡ ok (some preemptee, rest)
    pub t : Session.Session fl
    pub preempted : Bool
    pub tried : attempt fl v.ssn preemptor preemptee ≡ ok (t, preempted)
    pub ended :
        PutBack
          (record {
            ssn = t;
            queues = record v.queues {
              preemptees = preemptees;
              preemptor_tasks = insert job.uid left v.queues.preemptor_tasks;
            };
          })
          victim
          rest
          preemptee
          n

  pub preempt_for-Tried :
      (v : Vars fl) (i : ℕ) (job : JobInfo) (tasks : List TaskInfo) (j : ℕ) (victim : JobInfo)
      (preemptees : List ℕ) (n : Next (Vars fl) (Session.Session fl))
      → get_elem? v.ssn.jobs j ≡ some victim
      → job.uid ≢ victim.uid
      → preempt_for fl job_heap task_heap
          (record v { queues = record v.queues { preemptees = preemptees } })
          i
          job
          tasks
          j
          victim
        ≡ ok n
      → Tried v job tasks n
  unfolding preempt_for
  preempt_for-Tried v i job tasks j victim preemptees n at other h =
      let (p, left, pop, h₁) = taken task_heap (task_less fl v.ssn) tasks _ _ h in
      let (ts, found, h₂) = >>=-eq-ok (tasks_in v.queues.preemptee_tasks victim.uid) _ h₁ in
      let (e, rest, pop', h₃) = taken task_heap (task_rev_order_fn fl v.ssn) ts _ _ h₂ in
      let ((t, b), tried, h₄) = >>=-eq-ok (attempt fl v.ssn p e) _ h₃ in
      record {
        j = j;
        victim = victim;
        preemptees = preemptees;
        victim_at = at;
        other = other;
        preemptor = p;
        left = left;
        pop_task = pop;
        running_tasks = ts;
        running_found = tasks_in-eq v.queues.preemptee_tasks victim.uid ts found;
        preemptee = e;
        rest = rest;
        pop_running = pop';
        t = t;
        preempted = b;
        tried = tried;
        ended = put_back-again _ i j victim rest e b n h₄;
      }
