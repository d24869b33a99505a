-- ===== src/Cache/Keep/Specs.antt =====
-- The handlers for scheduling specs and disruption budgets keep the cache sound.
use kube_arbitrator.Common.{
  ◌≡◌, refl, [], ◌∷◌, string_key, ok, Option-cases, Bool-cases, inl, inr, text_is_empty, subst,
  ok_inj, none,
}
use kube_arbitrator.Common.Map.{lookup, insert}
use kube_arbitrator.Api.Objects.{SchedulingSpec, PodDisruptionBudget, get_controller}
use kube_arbitrator.Api.TaskInfo.{TasksMap}
use kube_arbitrator.Api.JobInfo.{JobInfo, set_scheduling_spec, set_pdb}
use kube_arbitrator.Cache.Store.{Cache, logged, job_or_new}
use kube_arbitrator.Cache.Specs.{store_spec, evacuate, delete_spec, store_pdb, delete_pdb}
use kube_arbitrator.Cache.Sound.{
  JobOk, IsSound, Keeps, Keeps-ok, Keeps-logged, insert_job-IsSound, remove_job-IsSound,
  job_or_new-JobOk,
}
use kube_arbitrator.Cache.Keep.Pods.{delete_from_node-IsSound}

set_scheduling_spec-JobOk :
    (job : JobInfo) (ss : SchedulingSpec) → JobOk job → JobOk (set_scheduling_spec job ss)
unfolding set_scheduling_spec
set_scheduling_spec-JobOk job ss j = record {
  distinct = j.distinct;
  keyed = j.keyed;
  total = j.total;
  held = j.held;
}

set_pdb-JobOk :
    (job job' : JobInfo) (pdb : PodDisruptionBudget)
    → JobOk job
    → set_pdb job pdb ≡ ok job'
    → JobOk job'
unfolding set_pdb
set_pdb-JobOk job job' pdb j h = elim (Option-cases pdb.min_available) [
  | inl e ↦ cc
  | inr (n, e) ↦
      subst JobOk (ok_inj (rw e at h))
        (record { distinct = j.distinct; keyed = j.keyed; total = j.total; held = j.held })
]

pub store_spec-Keeps :
    (sc : Cache) (ss : SchedulingSpec) → IsSound sc → Keeps (logged (store_spec sc ss))
unfolding store_spec
store_spec-Keeps sc ss s =
    let id = get_controller ss.owner in
    elim (Bool-cases (text_is_empty id)) [
      | inl e ↦ rw e (Keeps-ok s)
      | inr e ↦ rw e (
          Keeps-ok (
            insert_job-IsSound id s
              (set_scheduling_spec-JobOk (job_or_new id sc.jobs) ss (job_or_new-JobOk id s))))
    ]

pub store_pdb-Keeps :
    (sc : Cache) (pdb : PodDisruptionBudget) → IsSound sc → Keeps (logged (store_pdb sc pdb))
unfolding store_pdb
store_pdb-Keeps sc pdb s =
    let id = get_controller pdb.owner in
    elim (Bool-cases (text_is_empty id)) [
      | inl e ↦ rw e (Keeps-ok s)
      | inr e ↦ rw e (
          Keeps-logged (set_pdb (job_or_new id sc.jobs) pdb)
            (λ job. ok (record sc { jobs = insert id job sc.jobs }, none))
            (λ job stored. Keeps-ok (
              insert_job-IsSound id s
                (set_pdb-JobOk (job_or_new id sc.jobs) job pdb (job_or_new-JobOk id s) stored))))
    ]

evacuate-IsSound :
    (sc : Cache) (ts : TasksMap)
    → IsSound sc
    → (sc' : Cache) × (evacuate sc ts ≡ ok sc') × IsSound sc'
unfolding evacuate
evacuate-IsSound sc [] s = (sc, refl, s)
evacuate-IsSound sc ((k, t) ∷ ts) s =
    let (sc₁, e₁, s₁) = delete_from_node-IsSound sc t s in
    let (sc₂, e₂, s₂) = evacuate-IsSound sc₁ ts s₁ in (sc₂, rw e₁ e₂, s₂)

pub delete_spec-Keeps :
    (sc : Cache) (ss : SchedulingSpec) → IsSound sc → Keeps (logged (delete_spec sc ss))
unfolding delete_spec
delete_spec-Keeps sc ss s =
    let id = get_controller ss.owner in
    elim (Option-cases (lookup id sc.jobs)) [
      | inl l ↦ rw (l, delete_spec) (Keeps-ok s)
      | inr (job, l) ↦
          let (sc', e, s') = evacuate-IsSound sc job.tasks s in
          rw (l, delete_spec, e) (Keeps-ok (remove_job-IsSound id s'))
    ]

pub delete_pdb-Keeps :
    (sc : Cache) (pdb : PodDisruptionBudget) → IsSound sc → Keeps (logged (delete_pdb sc pdb))
unfolding delete_pdb
delete_pdb-Keeps sc pdb s = Keeps-ok s
