-- ===== src/Framework/Uids.antt =====
-- The session's calls keep the jobs of the session, by their UIDs.
use kube_arbitrator.Common.{
  ◌≡◌, refl, ◌∙◌, List, [], ◌∷◌, map, some, String, string_key, ℕ, zero, suc, arith, Option-cases,
  inl, inr, ap,
}
use kube_arbitrator.Common.Lists.{get_elem?, set}
use kube_arbitrator.Common.Map.{lookup}
use kube_arbitrator.Api.JobInfo.{JobInfo}
use kube_arbitrator.Api.NodeInfo.{NodeInfo}
use kube_arbitrator.Plugins.Drf
use kube_arbitrator.Framework.Session
use kube_arbitrator.Framework.Calls
use kube_arbitrator.Framework.Frame.{IsFrame, SameNode}

map-set :
    {A B : Type 0} (f : A → B) (xs : List A) (i : ℕ) (x y : A)
    → get_elem? xs i ≡ some x
    → f y ≡ f x
    → map f (set xs i y) ≡ map f xs
map-set f [] i x y at e = refl
map-set f (z ∷ xs) zero x y at e = ground (arith, at, e)
map-set f (z ∷ xs) (suc i) x y at e = ap (λ r. f z ∷ r) (map-set f xs i x y at e)

module _ (fl : Drf.Float64) where
  -- The UIDs of the session's jobs.
  abbrev pub uids : Session.Session fl → List String
  uids s = map (λ (job : JobInfo). job.uid) s.jobs

  abbrev pub SameJobs : Session.Session fl → Session.Session fl → Type 0
  SameJobs s t = uids t ≡ uids s

  put_job-uids :
      (s : Session.Session fl) (id : String) (job job' : JobInfo)
      → Session.job_of fl s id ≡ some job
      → job'.uid ≡ job.uid
      → uids (Calls.put_job fl s id job') ≡ uids s
  unfolding Calls.put_job Session.job_of
  put_job-uids s id job job' at e = elim (Option-cases (lookup id s.job_index)) [
    | inl l ↦ rw (l, Calls.put_job) refl
    | inr (i, l) ↦
        rw (l, Calls.put_job) (map-set _ s.jobs i job job' (rw (l, Session.job_of) at at) e)
  ]

  put_node-uids :
      (s : Session.Session fl) (name : String) (ni : NodeInfo)
      → uids (Calls.put_node fl s name ni) ≡ uids s
  unfolding Calls.put_node
  put_node-uids s name ni = elim (Option-cases (lookup name s.node_index)) [
    | inl l ↦ rw (l, Calls.put_node) refl
    | inr (i, l) ↦ rw (l, Calls.put_node) refl
  ]

  pub uids-IsFrame : IsFrame fl SameNode SameJobs
  uids-IsFrame = record {
    same = λ s. refl;
    trans = λ s t u h k. k ∙ h;
    job = λ s id job job' at same. put_job-uids s id job job' at same.0;
    node = λ s name ni ni' at e. put_node-uids s name ni';
    drf = λ s d. refl;
  }
