-- ===== src/Cache/Snapshot.antt =====
-- What a session gets to see of a sound cache.
use kube_arbitrator.Common.{
  ◌≡◌, refl, if_pos, [], ◌∷◌, map, some, String, string_key, arith, Option-cases, inl, inr, ap₂,
}
use kube_arbitrator.Common.Lists.{All}
use kube_arbitrator.Common.Map.{Map, Key, lookup}
use kube_arbitrator.Api.JobInfo.{JobInfo, clone}
use kube_arbitrator.Api.JobInfo.Invariant.{IsIndexed}
use kube_arbitrator.Api.JobInfo.Clone.{clone-IsConsistent}
use kube_arbitrator.Api.NodeInfo.{NodeInfo}
use kube_arbitrator.Api.NodeInfo.Accounts.{IsSettled, IsKeyed}
use kube_arbitrator.Api.NodeInfo.Clone.{clone_lem}
use kube_arbitrator.Api.Requested.{Distinct}
use kube_arbitrator.Cache.Store.{Cache}
use kube_arbitrator.Cache.Calls.{clone_nodes, clone_jobs, snapshot}
use kube_arbitrator.Cache.Sound.{IsSound, JobOk}

-- A statement about what is found holds of every entry.
All-of_lookup {ℓ κ} :
    {K V : Type ℓ} ⦃d : Key K⦄ (P : V → Type κ) (m : Map K V)
    → Distinct m
    → ((k : K) (v : V) → lookup k m ≡ some v → P v)
    → All (λ (e : K × V). P e.1) m
unfolding lookup
All-of_lookup P [] h all = tt
All-of_lookup ⦃d⦄ P ((k, v) ∷ m) h all = (
  all k v (if_pos (d.dec k k) refl _ _),
  All-of_lookup P m h.1 (λ j w e. all j w (ground (arith, e, h.0))),
)

IsSettled-IsKeyed : (ni : NodeInfo) → IsSettled ni → IsKeyed ni.tasks
IsSettled-IsKeyed ni s = elim s.accounts [ inl b ↦ b.tasks_ok | inr (cap, b) ↦ b.tasks_ok ]

clone_nodes_lem :
    (m : Map String NodeInfo)
    → All (λ (e : String × NodeInfo). IsSettled e.1) m
    → clone_nodes m ≡ map (λ e. e.1) m
unfolding clone_nodes
clone_nodes_lem [] h = refl
clone_nodes_lem ((n, ni) ∷ m) h =
    ap₂ (λ a b. a ∷ b) (clone_lem ni (IsSettled-IsKeyed ni h.0)) (clone_nodes_lem m h.1)

clone_jobs-IsIndexed :
    (m : Map String JobInfo)
    → All (λ (e : String × JobInfo). JobOk e.1) m
    → All IsIndexed (clone_jobs m)
unfolding clone_jobs
clone_jobs-IsIndexed [] h = tt
clone_jobs-IsIndexed ((id, job) ∷ m) h =
    let here : IsIndexed (clone job) = (clone-IsConsistent job h.0.distinct h.0.keyed).0.index in
    let there = clone_jobs-IsIndexed m h.1 in
    elim (Option-cases job.sched_spec) [
      | inr (ss, e) ↦ rw (e, clone_jobs) (here, there)
      | inl e ↦ elim (Option-cases job.pdb) [
        | inr (pdb, f) ↦ rw (e, f, clone_jobs) (here, there)
        | inl f ↦ rw (e, f, clone_jobs) there
      ]
    ]

-- A snapshot of a sound cache holds the cache's nodes as they are, and in each of its jobs the
-- index by status lists exactly the job's tasks, also where the cache's own index was stale.
pub snapshot_lem :
    (sc : Cache)
    → IsSound sc
    → ((snapshot sc).nodes ≡ map (λ e. e.1) sc.nodes) × All IsIndexed (snapshot sc).jobs
unfolding snapshot
snapshot_lem sc s = (
  clone_nodes_lem sc.nodes (All-of_lookup IsSettled sc.nodes s.nodes_distinct s.nodes_ok),
  clone_jobs-IsIndexed sc.jobs (All-of_lookup JobOk sc.jobs s.jobs_distinct s.jobs_ok),
)
