-- ===== src/Framework/Owned.antt =====
-- The session's calls keep each job's tasks with it: the index of the jobs finds each job under its UID, and
-- each task that a job lists names that UID as its job.
use kube_arbitrator.Common.{ℕ, ◌≡◌, sym, subst, inl, inr, some, String, string_key, Option-cases}
use kube_arbitrator.Common.Lists.{get_elem?}
use kube_arbitrator.Common.Map.{lookup}
use kube_arbitrator.Api.JobInfo.{JobInfo}
use kube_arbitrator.Api.JobInfo.Owner.{Owns}
use kube_arbitrator.Api.NodeInfo.{NodeInfo}
use kube_arbitrator.Plugins.Drf
use kube_arbitrator.Framework.Session
use kube_arbitrator.Framework.Calls
use kube_arbitrator.Framework.Frame.{IsFrame, SameJob, SameNode}
use kube_arbitrator.Actions.Allocate.Candidates.{get_elem?-set}

module _ (fl : Drf.Float64) where
  pub record IsOwned (s : Session.Session fl) : Type 0 where
    pub named :
        (id : String) (i : ℕ) (job : JobInfo)
        → lookup id s.job_index ≡ some i
        → get_elem? s.jobs i ≡ some job
        → job.uid ≡ id
    pub placed :
        (i : ℕ) (job : JobInfo)
        → get_elem? s.jobs i ≡ some job
        → lookup job.uid s.job_index ≡ some i
    pub owns : (i : ℕ) (job : JobInfo) → get_elem? s.jobs i ≡ some job → Owns job.uid job

  abbrev pub KeepsOwned : Session.Session fl → Session.Session fl → Type 0
  KeepsOwned s t = IsOwned s → IsOwned t

  put_job-Owned :
      (s : Session.Session fl) (id : String) (job job' : JobInfo)
      → Session.job_of fl s id ≡ some job
      → SameJob id job job'
      → KeepsOwned s (Calls.put_job fl s id job')
  unfolding Calls.put_job Session.job_of
  put_job-Owned s id job job' at (uid, _, _, own) = elim (Option-cases (lookup id s.job_index)) [
    | inl l ↦ rw (l, Calls.put_job) (λ o. o)
    | inr (i, l) ↦
        let there : get_elem? s.jobs i ≡ some job = rw (l, Session.job_of) at at in
        rw (l, Calls.put_job)
          (λ o.
            let here : job.uid ≡ id = o.named id i job l there in
            record {
              named = λ id' j x l' found. elim (get_elem?-set s.jobs i j job job' x there found) [
                | inl (e, f) ↦ rw (f, uid) (o.named id' i job (rw e at l') there)
                | inr f ↦ o.named id' j x l' f
              ];
              placed = λ j x found. elim (get_elem?-set s.jobs i j job job' x there found) [
                | inl (e, f) ↦ rw (f, uid, e) (o.placed i job there)
                | inr f ↦ o.placed j x f
              ];
              owns = λ j x found. elim (get_elem?-set s.jobs i j job job' x there found) [
                | inl (e, f) ↦
                    subst (λ (y : JobInfo). Owns y.uid y) (sym f)
                      (rw (uid, here) (own (subst (λ u. Owns u job) here (o.owns i job there))))
                | inr f ↦ o.owns j x f
              ];
            })
  ]

  put_node-Owned :
      (s : Session.Session fl) (name : String) (ni : NodeInfo)
      → KeepsOwned s (Calls.put_node fl s name ni)
  unfolding Calls.put_node
  put_node-Owned s name ni = elim (Option-cases (lookup name s.node_index)) [
    | inl l ↦ rw (l, Calls.put_node) (λ o. o)
    | inr (i, l) ↦
        rw (l, Calls.put_node) (λ o. record { named = o.named; placed = o.placed; owns = o.owns })
  ]

  pub owned-IsFrame : IsFrame fl SameNode KeepsOwned
  owned-IsFrame = record {
    same = λ s o. o;
    trans = λ s t u f g o. g (f o);
    job = put_job-Owned;
    node = λ s name ni ni' at e. put_node-Owned s name ni';
    drf = λ s d o. record { named = o.named; placed = o.placed; owns = o.owns };
  }
