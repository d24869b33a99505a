-- ===== src/Cache/Sound.antt =====
-- The invariant of the cache, and how it passes through the parts of a handler.
use kube_arbitrator.Common.{
  ◌≡◌, refl, none, some, String, string_key, arith, Outcome, ok, panic, ◌>>=◌, >>=-eq-ok, ok_inj,
  subst, Option-cases, inl, inr,
}
use kube_arbitrator.Common.Map.{lookup, insert, remove, lookup-insert, lookup-remove}
use kube_arbitrator.Api.Resource.{empty_resource, add}
use kube_arbitrator.Api.Requested.{Distinct, Distinct-insert, Distinct-remove, requested}
use kube_arbitrator.Api.JobInfo.{JobInfo, new_job_info}
use kube_arbitrator.Api.JobInfo.Invariant.{IsAccounted}
use kube_arbitrator.Api.NodeInfo.{NodeInfo}
use kube_arbitrator.Api.NodeInfo.Accounts.{IsSettled}
use kube_arbitrator.Api.NodeInfo.Settled.{new_node_info-IsSettled}
use kube_arbitrator.Cache.Store.{Cache, Attempt, logged, empty_cache, job_or_new, node_or_new}

-- The accounts of a job in the cache are the sums of its tasks' requests.
abbrev pub JobOk : JobInfo → Type 0
JobOk = IsAccounted empty_resource empty_resource

pub record IsSound (sc : Cache) : Type 0 where
  pub jobs_distinct : Distinct sc.jobs
  pub nodes_distinct : Distinct sc.nodes
  pub jobs_ok : (id : String) (job : JobInfo) → lookup id sc.jobs ≡ some job → JobOk job
  pub nodes_ok : (name : String) (ni : NodeInfo) → lookup name sc.nodes ≡ some ni → IsSettled ni

-- If the computation returns, it returns a sound cache.
abbrev pub Keeps : Outcome Cache → Type 0
Keeps m = (sc : Cache) → m ≡ ok sc → IsSound sc

pub Keeps-ok : {sc : Cache} → IsSound sc → Keeps (ok sc)
Keeps-ok s sc' e = subst IsSound (ok_inj e) s

pub Keeps-bind :
    {A : Type 0} (m : Outcome A) (f : A → Outcome Cache)
    → ((a : A) → m ≡ ok a → Keeps (f a))
    → Keeps (m >>= f)
Keeps-bind m f keep sc e = let (a, first, then_) = >>=-eq-ok m f e in keep a first sc then_

pub empty_cache-IsSound : IsSound empty_cache
unfolding lookup
empty_cache-IsSound = record {
  jobs_distinct = tt;
  nodes_distinct = tt;
  jobs_ok = λ id job e. cc;
  nodes_ok = λ name ni e. cc;
}

pub insert_job-IsSound :
    {sc : Cache} (id : String) {job : JobInfo}
    → IsSound sc
    → JobOk job
    → IsSound (record sc { jobs = insert id job sc.jobs })
insert_job-IsSound {sc} id {job} s j = record {
  jobs_distinct = Distinct-insert id job sc.jobs s.jobs_distinct;
  nodes_distinct = s.nodes_distinct;
  jobs_ok = λ k w e. elim (string_key.dec id k) [
    | yes here ↦ subst JobOk (ground (arith, lookup-insert id k job sc.jobs)) j
    | no other ↦ s.jobs_ok k w (ground (arith, lookup-insert id k job sc.jobs))
  ];
  nodes_ok = s.nodes_ok;
}

pub remove_job-IsSound :
    {sc : Cache} (id : String) → IsSound sc → IsSound (record sc { jobs = remove id sc.jobs })
remove_job-IsSound {sc} id s = record {
  jobs_distinct = Distinct-remove id sc.jobs s.jobs_distinct;
  nodes_distinct = s.nodes_distinct;
  jobs_ok = λ k w e. s.jobs_ok k w (ground (arith, lookup-remove id k sc.jobs));
  nodes_ok = s.nodes_ok;
}

pub insert_node-IsSound :
    {sc : Cache} (name : String) {ni : NodeInfo}
    → IsSound sc
    → IsSettled ni
    → IsSound (record sc { nodes = insert name ni sc.nodes })
insert_node-IsSound {sc} name {ni} s n = record {
  jobs_distinct = s.jobs_distinct;
  nodes_distinct = Distinct-insert name ni sc.nodes s.nodes_distinct;
  jobs_ok = s.jobs_ok;
  nodes_ok = λ k w e. elim (string_key.dec name k) [
    | yes here ↦ subst IsSettled (ground (arith, lookup-insert name k ni sc.nodes)) n
    | no other ↦ s.nodes_ok k w (ground (arith, lookup-insert name k ni sc.nodes))
  ];
}

pub remove_node-IsSound :
    {sc : Cache} (name : String) → IsSound sc → IsSound (record sc { nodes = remove name sc.nodes })
remove_node-IsSound {sc} name s = record {
  jobs_distinct = s.jobs_distinct;
  nodes_distinct = Distinct-remove name sc.nodes s.nodes_distinct;
  jobs_ok = s.jobs_ok;
  nodes_ok = λ k w e. s.nodes_ok k w (ground (arith, lookup-remove name k sc.nodes));
}

new_job_info-JobOk : (id : String) → JobOk (new_job_info id)
unfolding lookup requested add
new_job_info-JobOk id = record { distinct = tt; keyed = λ u t e. cc; total = refl; held = refl }

pub job_or_new-JobOk : {sc : Cache} (id : String) → IsSound sc → JobOk (job_or_new id sc.jobs)
unfolding job_or_new
job_or_new-JobOk {sc} id s = elim (Option-cases (lookup id sc.jobs)) [
  | inl e ↦ rw (e, job_or_new) (new_job_info-JobOk id)
  | inr (job, e) ↦ rw (e, job_or_new) (s.jobs_ok id job e)
]

pub node_or_new-IsSettled :
    {sc : Cache} (name : String) → IsSound sc → IsSettled (node_or_new name sc.nodes)
unfolding node_or_new
node_or_new-IsSettled {sc} name s = elim (Option-cases (lookup name sc.nodes)) [
  | inl e ↦ rw (e, node_or_new) (new_node_info-IsSettled none)
  | inr (ni, e) ↦ rw (e, node_or_new) (s.nodes_ok name ni e)
]

-- The same for calls that also return an error value, which the handlers log.
pub Keeps-logged :
    {A : Type 0} (m : Outcome A) (f : A → Attempt)
    → ((a : A) → m ≡ ok a → Keeps (logged (f a)))
    → Keeps (logged (m >>= f))
Keeps-logged (ok a) f keep = keep a refl
Keeps-logged (panic p) f keep = λ sc e. cc
