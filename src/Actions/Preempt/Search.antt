-- ===== src/Actions/Preempt/Search.antt =====
-- The search for a preemptee in the preempt action.
use kube_arbitrator.Common.{
  ℕ, zero, suc, ◌≤◌, ◌≡◌, ◌≢◌, inl, inr, refl, ap, true, not, ◌&&◌, List, [], ◌∷◌, none, some,
  String, string_key, Outcome-cases, ok, panic, Panic, ◌>>=◌, >>=-eq-ok, arith, if◌then◌else◌,
}
use mathlib.Core.List.{Mem, mem-cons_self, mem-cons_of_mem}
use mathlib.Core.List.Perm
use kube_arbitrator.Common.Lists.{length, get_elem?}
use kube_arbitrator.Common.Map.{Map, lookup}
use kube_arbitrator.Api.TaskInfo.{TaskInfo}
use kube_arbitrator.Api.JobInfo.{JobInfo}
use kube_arbitrator.Plugins.Drf
use kube_arbitrator.Queue
use kube_arbitrator.Queue.{Heap}
use kube_arbitrator.Framework.Session
use kube_arbitrator.Actions.Allocate.{job_at}
use kube_arbitrator.Actions.Allocate.Rounds.{job_at-eq}
use kube_arbitrator.Actions.Preempt.{tasks_in, same_text, job_rev_order_fn, next_preemptee}
use kube_arbitrator.Actions.Preempt.Taken.{taken, tasks_in-eq}

module _ (fl : Drf.Float64) (job_heap : Heap ℕ) (task_heap : Heap TaskInfo) where
  -- No job of the queue has running tasks left, nor is one the preemptor's.
  abbrev pub NoneLeft : Session.Session fl → Map String (List TaskInfo) → String → List ℕ → Type 0
  NoneLeft ssn tasks uid q =
      (j : ℕ)
      → Mem j q
      → (job : JobInfo) → get_elem? ssn.jobs j ≡ some job
      → (lookup job.uid tasks ≡ some []) × (uid ≢ job.uid)

  skipped :
      (tasks : Map String (List TaskInfo)) (uid : String) (job : JobInfo) (queue : List TaskInfo)
      → tasks_in tasks job.uid ≡ ok queue
      → (lookup job.uid tasks ≡ some []) × (uid ≢ job.uid)
      → (Queue.empty task_heap queue && not (same_text uid job.uid)) ≡ true
  unfolding Queue.empty
  skipped tasks uid job queue found none_left =
      let here = tasks_in-eq tasks job.uid queue found in
      let nothing : queue ≡ [] = ground (arith, here, none_left.0) in
      let other = none_left.1 in rw nothing (ground (arith, other))

  not_found :
      (n : ℕ) (ssn : Session.Session fl) (tasks : Map String (List TaskInfo)) (uid : String)
      (q : List ℕ) (r : ℕ × JobInfo × List ℕ)
      → NoneLeft ssn tasks uid q
      → next_preemptee fl job_heap task_heap n ssn tasks uid q ≡ ok r
      → ⊥
  unfolding next_preemptee
  not_found zero ssn tasks uid q r left h = cc
  not_found (suc n) ssn tasks uid q r left h =
      let (k, rest, p, h₁) = taken job_heap (job_rev_order_fn fl ssn) q _ _ h in
      let (job, at, h₂) = >>=-eq-ok (job_at fl ssn k) _ h₁ in
      let (queue, found, h₃) = >>=-eq-ok (tasks_in tasks job.uid) _ h₂ in
      let perm = Queue.pop-perm job_heap (job_rev_order_fn fl ssn) q k rest p in
      let e =
        skipped tasks uid job queue found
          (left k ((Perm.mem_iff perm).1 mem-cons_self) job (job_at-eq fl ssn k job at)) in
      not_found n ssn tasks uid rest r (λ j m. left j ((Perm.mem_iff perm).1 (mem-cons_of_mem k m)))
        (rw e at h₃)

  -- Where no queued preemptee has running tasks left and none is the preemptor's own job, the search
  -- panics: it pops from the empty queue in the end, unless a panic comes first.
  pub next_preemptee_panics :
      (n : ℕ) (ssn : Session.Session fl) (tasks : Map String (List TaskInfo)) (uid : String)
      (q : List ℕ)
      → NoneLeft ssn tasks uid q
      → (p : Panic) × (next_preemptee fl job_heap task_heap n ssn tasks uid q ≡ panic p)
  next_preemptee_panics n ssn tasks uid q left =
      elim (Outcome-cases (next_preemptee fl job_heap task_heap n ssn tasks uid q)) [
        | inl h ↦ h
        | inr (r, h) ↦ absurd (not_found n ssn tasks uid q r left h)
      ]

  -- With the length of the queue or more, the number of rounds does not matter.
  pub next_preemptee_more :
      (n m : ℕ) (ssn : Session.Session fl) (tasks : Map String (List TaskInfo)) (uid : String)
      (q : List ℕ)
      → length q ≤ n
      → length q ≤ m
      → next_preemptee fl job_heap task_heap n ssn tasks uid q
        ≡ next_preemptee fl job_heap task_heap m ssn tasks uid q
  unfolding next_preemptee Queue.pop
  next_preemptee_more zero zero ssn tasks uid q a b = refl
  next_preemptee_more zero (suc m) ssn tasks uid [] a b = refl
  next_preemptee_more zero (suc m) ssn tasks uid (x ∷ q) a b = absurd (omega arith)
  next_preemptee_more (suc n) zero ssn tasks uid [] a b = refl
  next_preemptee_more (suc n) zero ssn tasks uid (x ∷ q) a b = absurd (omega arith)
  next_preemptee_more (suc n) (suc m) ssn tasks uid q a b =
      elim (Outcome-cases (Queue.pop job_heap (job_rev_order_fn fl ssn) q)) [
        | inl (p, e) ↦ rw (e, next_preemptee) refl
        | inr ((none, r), e) ↦ rw (e, next_preemptee) refl
        | inr ((some k, r), e) ↦
            let shorter = Queue.length-pop job_heap (job_rev_order_fn fl ssn) q k r e in
            let ih =
              next_preemptee_more n m ssn tasks uid r (omega (arith, shorter))
                (omega (arith, shorter)) in
            rw (e, next_preemptee)
              (ap
                (λ next. job_at fl ssn k >>= λ job. tasks_in tasks job.uid >>= λ queue.
                  if Queue.empty task_heap queue && not (same_text uid job.uid)
                  then next
                  else ok (k, job, r))
                ih)
      ]
