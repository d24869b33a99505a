-- ===== src/Actions/Preempt/Taken.antt =====
-- Where the tasks and the jobs of a round of the preempt action are taken from.
use kube_arbitrator.Common.{
  ℕ, zero, suc, ◌≡◌, ◌≢◌, inl, inr, subst, Bool, false, not, ◌&&◌, List, Option, none, some, String,
  string_key, Outcome, ok, ok_inj, ◌>>=◌, >>=-eq-ok, arith, Bool-cases,
}
use kube_arbitrator.Common.Lists.{get_elem?}
use kube_arbitrator.Common.Map.{Map, lookup}
use kube_arbitrator.Api.TaskInfo.{TaskInfo}
use kube_arbitrator.Api.JobInfo.{JobInfo}
use kube_arbitrator.Plugins.Drf
use kube_arbitrator.Queue
use kube_arbitrator.Queue.{Heap}
use kube_arbitrator.Framework.Session
use kube_arbitrator.Actions.Allocate.{job_at}
use kube_arbitrator.Actions.Allocate.Rounds.{job_at-eq}
use kube_arbitrator.Actions.Preempt.{
  tasks_in, asserted, same_text, job_rev_order_fn, next_preemptee,
}

pub tasks_in-eq :
    (m : Map String (List TaskInfo)) (uid : String) (q : List TaskInfo)
    → tasks_in m uid ≡ ok q
    → lookup uid m ≡ some q
unfolding tasks_in
tasks_in-eq m uid q h = ground (arith, h)

asserted-eq : {A : Type 0} (o : Option A) (x : A) → asserted o ≡ ok x → o ≡ some x
asserted-eq none x h = cc
asserted-eq (some y) x h = ground (arith, h)

pub same_text-ne : (a b : String) → same_text a b ≡ false → a ≢ b
same_text-ne a b h = ground (arith, h)

module _ {A : Type 0} (heap : Heap A) where
  -- `Pop` with the assertion on its result.
  pub taken :
      {B : Type 0} (less : A → A → Outcome Bool) (q : List A) (rest : A → List A → Outcome B)
      (b : B)
      → (Queue.pop heap less q >>= λ (o, r). asserted o >>= λ x. rest x r) ≡ ok b
      → (x : A) × (r : List A) × (Queue.pop heap less q ≡ ok (some x, r)) × (rest x r ≡ ok b)
  taken less q rest b h =
      let ((o, r), p, h₁) = >>=-eq-ok (Queue.pop heap less q) _ h in
      let (x, e, h₂) = >>=-eq-ok (asserted o) _ h₁ in
      (x, r, subst (λ z. Queue.pop heap less q ≡ ok (z, r)) (asserted-eq o x e) p, h₂)

module _ (fl : Drf.Float64) (job_heap : Heap ℕ) (task_heap : Heap TaskInfo) where
  -- A preemptee that was found is a job of the session.
  pub next_preemptee-at :
      (n : ℕ) (ssn : Session.Session fl) (tasks : Map String (List TaskInfo)) (uid : String)
      (q : List ℕ) (j : ℕ) (job : JobInfo) (rest : List ℕ)
      → next_preemptee fl job_heap task_heap n ssn tasks uid q ≡ ok (j, job, rest)
      → get_elem? ssn.jobs j ≡ some job
  unfolding next_preemptee
  next_preemptee-at zero ssn tasks uid q j job rest h = cc
  next_preemptee-at (suc n) ssn tasks uid q j job rest h =
      let (k, left, p, h₁) = taken job_heap (job_rev_order_fn fl ssn) q _ _ h in
      let (job', at, h₂) = >>=-eq-ok (job_at fl ssn k) _ h₁ in
      let (queue, found, h₃) = >>=-eq-ok (tasks_in tasks job'.uid) _ h₂ in
      elim (Bool-cases (Queue.empty task_heap queue && not (same_text uid job'.uid))) [
        | inl e ↦ next_preemptee-at n ssn tasks uid left j job rest (rw e at h₃)
        | inr e ↦
            let same : ◌≡◌ {A = Outcome (ℕ × JobInfo × List ℕ)} (ok (k, job', left))
                (ok (j, job, rest)) =
              rw e at h₃ in
            subst (λ (r : ℕ × JobInfo × List ℕ). get_elem? ssn.jobs r.0 ≡ some r.1) (ok_inj same)
              (job_at-eq fl ssn k job' at)
      ]
