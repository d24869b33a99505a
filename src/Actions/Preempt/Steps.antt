-- ===== src/Actions/Preempt/Steps.antt =====
-- What the preempt action does to the session, as a sequence of single attempts.
use kube_arbitrator.Common.{
  ℕ, ◌≡◌, ◌⊎◌, inl, inr, refl, sym, ap, ◌∙◌, subst, Bool, true, false, List, [], Option, none, some,
  String, string_key, Outcome, ok, ok_inj, panic, >>=-eq-ok, arith, Bool-cases,
}
use kube_arbitrator.Common.Map.{lookup}
use kube_arbitrator.Common.Loop.{stop, again, again_inj, stop_inj, loop_inv}
use kube_arbitrator.Api.Status.{Error}
use kube_arbitrator.Api.TaskInfo.{TaskInfo}
use kube_arbitrator.Api.JobInfo.{JobInfo}
use kube_arbitrator.Cache.Sound.{IsSound}
use kube_arbitrator.Plugins.Drf
use kube_arbitrator.Queue.{Heap}
use kube_arbitrator.Framework.Session
use kube_arbitrator.Framework.Calls
use kube_arbitrator.Framework.Kept.{preempt-IsSound}
use kube_arbitrator.Actions.Preempt.{
  Queues, no_queues, preempted_by, attempt, Vars, round, start, execute,
}
use kube_arbitrator.Actions.Preempt.Rounds.{without, round-cases}
use kube_arbitrator.Actions.Preempt.Trial.{Tried}
use kube_arbitrator.Actions.Preempt.Origin.{
  IsFilled, add_jobs-IsFilled, Pair, tried-Pair, tried-IsFilled,
}

module _ (fl : Drf.Float64) where
  -- One call of `Preempt`, with what it answered.
  pub record Preempts (s t : Session.Session fl) (preemptor preemptee : TaskInfo) : Type 0 where
    pub answer : Option Error
    pub accepted : Session.preemptable fl s preemptor preemptee ≡ ok true
    pub call : Calls.preempt fl s preemptor preemptee ≡ ok (t, answer)

  answered :
      (o : Outcome (Session.Session fl × Option Error)) (t : Session.Session fl) (b : Bool)
      → preempted_by fl o ≡ ok (t, b)
      → (e : Option Error) × (o ≡ ok (t, e))
  answered (panic p) t b h = cc
  answered (ok (s, none)) t b h = (none, ground (arith, h))
  answered (ok (s, some e)) t b h = (some e, ground (arith, h))

  -- A pair is tried only where every registered function allows it; otherwise nothing changes.
  pub attempt-cases :
      (s t : Session.Session fl) (p q : TaskInfo) (b : Bool)
      → attempt fl s p q ≡ ok (t, b)
      → (s ≡ t) ⊎ Preempts s t p q
  unfolding attempt
  attempt-cases s t p q b h =
      let (good, g, h₁) = >>=-eq-ok (Session.preemptable fl s p q) _ h in
      elim (Bool-cases good) [
        | inl e ↦
            let (err, call) = answered (Calls.preempt fl s p q) t b (rw e at h₁) in
            inr (record { answer = err; accepted = rw e at g; call = call })
        | inr e ↦
            let same : ◌≡◌ {A = Outcome (Session.Session fl × Bool)} (ok (s, false)) (ok (t, b)) =
              rw e at h₁ in
            inl (ap (λ r. r.0) (ok_inj same))
      ]

  pub data Evictions : Session.Session fl → Session.Session fl → Type 0 where
    done : {s : Session.Session fl} → Evictions s s
    next :
        {s t u : Session.Session fl} (preemptor preemptee : TaskInfo)
        → Pair s.jobs preemptor preemptee
        → Preempts s t preemptor preemptee
        → Evictions t u
        → Evictions s u

  pub Evictions-IsSound :
      {s t : Session.Session fl} → Evictions s t → IsSound s.cache → IsSound t.cache
  Evictions-IsSound done h = h
  Evictions-IsSound (next {s} {t} p q pair step rest) h =
      Evictions-IsSound rest ((preempt-IsSound fl s t p q step.answer step.call).0 h)

module _ (fl : Drf.Float64) (job_heap : Heap ℕ) (task_heap : Heap TaskInfo) where
  -- The loop's invariant: what is queued comes from the session's jobs.
  abbrev Holds : Vars fl → Type 0
  Holds v = IsFilled v.ssn.jobs v.queues

  Tried-Evictions :
      (v w : Vars fl) (job : JobInfo) (tasks : List TaskInfo) (u : Session.Session fl)
      → Holds v
      → lookup job.uid v.queues.preemptor_tasks ≡ some tasks
      → Tried fl job_heap task_heap v job tasks (again w)
      → (Holds w → Evictions fl w.ssn u)
      → Evictions fl v.ssn u
  Tried-Evictions v w job tasks u filled found k rest =
      let same : w.ssn ≡ k.t = ap (λ (x : Vars fl). x.ssn) (again_inj k.ended.goes_on) in
      let queued =
        tried-IsFilled fl job_heap task_heap v job tasks (again w) filled found k w refl in
      elim (attempt-cases fl v.ssn k.t k.preemptor k.preemptee k.preempted k.tried) [
        | inl e ↦
            let here : w.ssn ≡ v.ssn = same ∙ sym e in
            subst (λ s. Evictions fl s u) here
              (rest
                (subst (λ (s : Session.Session fl). IsFilled s.jobs w.queues) (sym here) queued))
        | inr step ↦
            let jobs : k.t.jobs ≡ v.ssn.jobs =
              (preempt-IsSound fl v.ssn k.t k.preemptor k.preemptee step.answer step.call).1 in
            let there : w.ssn.jobs ≡ v.ssn.jobs =
              ap (λ (s : Session.Session fl). s.jobs) same ∙ jobs in
            next k.preemptor k.preemptee
              (tried-Pair fl job_heap task_heap v job tasks (again w) filled found k) step
              (subst (λ s. Evictions fl s u) same
                (rest (subst (λ js. IsFilled js w.queues) (sym there) queued)))
      ]

  round-Evictions :
      (v w : Vars fl) (u : Session.Session fl)
      → round fl job_heap task_heap v ≡ ok (again w)
      → (Holds w → Evictions fl w.ssn u)
      → Holds v
      → Evictions fl v.ssn u
  round-Evictions v w u h rest filled = elim (round-cases fl job_heap task_heap v (again w) h) [
    | inl e ↦ cc
    | inr (k, inl e) ↦
        let same : w ≡ without fl job_heap task_heap v k = again_inj e in
        subst (λ (x : Vars fl). Evictions fl x.ssn u) same
          (rest (subst (λ (x : Vars fl). IsFilled x.ssn.jobs x.queues) (sym same) filled))
    | inr (k, inr t) ↦
        Tried-Evictions (without fl job_heap task_heap v k) w k.job k.tasks u filled k.tasks_found t
          rest
  ]

  round-stop :
      (v : Vars fl) (u : Session.Session fl)
      → round fl job_heap task_heap v ≡ ok (stop u)
      → Holds v
      → Evictions fl v.ssn u
  round-stop v u h filled = elim (round-cases fl job_heap task_heap v (stop u) h) [
    | inl e ↦ subst (Evictions fl v.ssn) (stop_inj (sym e)) done
    | inr (k, inl e) ↦ cc
    | inr (k, inr t) ↦ let e = t.ended.goes_on in cc
  ]

  started :
      (fuel : ℕ) (ssn ssn' : Session.Session fl) (q : Outcome Queues)
      → ((queues : Queues) → q ≡ ok queues → IsFilled ssn.jobs queues)
      → start fl job_heap task_heap fuel ssn q ≡ some (ok ssn')
      → Evictions fl ssn ssn'
  unfolding start
  started fuel ssn ssn' (panic p) filled h = cc
  started fuel ssn ssn' (ok q) filled h =
      loop_inv (round fl job_heap task_heap) (λ v t. Holds v → Evictions fl v.ssn t) round-stop
        round-Evictions fuel (record { ssn = ssn; queues = q }) ssn' h (filled q refl)

  -- Where the action returns, all it has done is a sequence of calls of `Preempt`, for pairs that
  -- `Preemptable` accepts in the session as it is at that moment. The preemptor is a pending task
  -- of a job of the session, the preemptee a running task of a job of another UID.
  pub execute-Evictions :
      (fuel : ℕ) (ssn ssn' : Session.Session fl)
      → execute fl job_heap task_heap fuel ssn ≡ some (ok ssn')
      → Evictions fl ssn ssn'
  unfolding execute lookup
  execute-Evictions fuel ssn ssn' h =
      started fuel ssn ssn' _
        (λ q e.
          add_jobs-IsFilled fl job_heap task_heap ssn ssn.jobs no_queues q 0 ssn.jobs (λ j m. m)
            ((λ uid q l. absurd (not_empty uid q l)), (λ uid q l. absurd (not_empty uid q l))) e)
        h
    where
      not_empty : (uid : String) (q : List TaskInfo) → lookup uid [] ≡ some q → ⊥
      not_empty uid q l = cc

  pub execute-IsSound :
      (fuel : ℕ) (ssn ssn' : Session.Session fl)
      → IsSound ssn.cache
      → execute fl job_heap task_heap fuel ssn ≡ some (ok ssn')
      → IsSound ssn'.cache
  execute-IsSound fuel ssn ssn' s h = Evictions-IsSound fl (execute-Evictions fuel ssn ssn' h) s
