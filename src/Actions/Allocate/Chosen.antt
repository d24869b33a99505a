-- ===== src/Actions/Allocate/Chosen.antt =====
-- What makes a placement right for the job's selector, after the decorate action.
use kube_arbitrator.Common.{
  ℕ, zero, suc, ◌≡◌, ◌⊎◌, inl, inr, sym, subst, List, [], ◌∷◌, Option, some, String, string_key, ok,
  ok_inj, >>=-eq-ok, arith, Option-cases,
}
use kube_arbitrator.Common.Lists.{get_elem?, List-cases}
use kube_arbitrator.Common.Map.{lookup}
use kube_arbitrator.Api.TaskInfo.{TaskInfo}
use kube_arbitrator.Api.JobInfo.{JobInfo}
use kube_arbitrator.Api.NodeInfo.{NodeInfo}
use kube_arbitrator.Plugins.Drf
use kube_arbitrator.Framework.Session
use kube_arbitrator.Framework.Calls
use kube_arbitrator.Framework.Frame.{IsFrame, SameJob, SameNode, SameNode-IsNodeFrame}
use kube_arbitrator.Framework.Frame.Places.{pipeline-frame}
use kube_arbitrator.Framework.Frame.Dispatch.{allocate-frame}
use kube_arbitrator.Actions.Decorate
use kube_arbitrator.Actions.Decorate.{Matcher, matching, fetch_match_nodes}
use kube_arbitrator.Actions.Decorate.Laws.{Listed, Chosen}
use kube_arbitrator.Actions.Allocate.{nodes_for}
use kube_arbitrator.Actions.Allocate.Steps.{
  Place, allocated, pipelined, Places, done, next, place_job, place_task,
}
use kube_arbitrator.Actions.Allocate.Candidates.{
  get_elem?-set, Served, AllServed, Served-same, Served-set, matching-Chosen,
}

module _ (matches : Matcher) where
  fetch_match_nodes-Served :
      (job : JobInfo) (nodes : List NodeInfo) (found : Option (List ℕ))
      → fetch_match_nodes matches job nodes ≡ ok found
      → Served matches nodes (record job { candidates = found })
  unfolding fetch_match_nodes
  fetch_match_nodes-Served job nodes found h = elim (List-cases job.node_selector) [
    | inl e ↦ inl e
    | inr (entry, more, e) ↦
        let (ks, m, rest) =
          >>=-eq-ok (matching matches job.node_selector 0 nodes) (λ ks. ok (some ks))
            (ground (arith, e, h)) in
        inr (
          ks,
          sym (ok_inj rest),
          λ k l.
              let (d, at, c) = matching-Chosen matches job.node_selector 0 nodes ks m k l in
              subst (Chosen matches job.node_selector nodes) (omega (arith, at)) c,
        )
  ]

  -- After the decorate action, every job is served.
  pub decorate-AllServed :
      (jobs : List JobInfo) (nodes : List NodeInfo) (jobs' : List JobInfo)
      → Decorate.execute matches jobs nodes ≡ ok jobs'
      → AllServed matches nodes jobs'
  unfolding Decorate.execute
  decorate-AllServed [] nodes jobs' h i job at =
      absurd (empty i (subst (λ js. get_elem? js i ≡ some job) (sym (ok_inj h)) at))
    where
      empty : (i : ℕ) → get_elem? [] i ≡ some job → ⊥
      empty i e = cc
  decorate-AllServed (j ∷ jobs) nodes jobs' h i job at =
      let (found, f, h₁) = >>=-eq-ok (fetch_match_nodes matches j nodes) _ h in
      let (rest, r, h₂) = >>=-eq-ok (Decorate.execute matches jobs nodes) _ h₁ in
      here found f rest (decorate-AllServed jobs nodes rest r) i
        (subst (λ js. get_elem? js i ≡ some job) (sym (ok_inj h₂)) at)
    where
      here :
          (found : Option (List ℕ))
          → fetch_match_nodes matches j nodes ≡ ok found
          → (rest : List JobInfo) → AllServed matches nodes rest
          → (i : ℕ) → get_elem? (record j { candidates = found } ∷ rest) i ≡ some job
          → Served matches nodes job
      here found f rest all zero at =
          let e : record j { candidates = found } ≡ job = ground (arith, at) in
          subst (Served matches nodes) e (fetch_match_nodes-Served j nodes found f)
      here found f rest all (suc i) at = all i job at

module _ (fl : Drf.Float64) (matches : Matcher) where
  abbrev KeepsServed : Session.Session fl → Session.Session fl → Type 0
  KeepsServed s t = AllServed matches s.nodes s.jobs → AllServed matches t.nodes t.jobs

  put_job-Served :
      (s : Session.Session fl) (id : String) (job job' : JobInfo)
      → Session.job_of fl s id ≡ some job
      → SameJob id job job'
      → KeepsServed s (Calls.put_job fl s id job')
  unfolding Calls.put_job Session.job_of
  put_job-Served s id job job' at same = elim (Option-cases (lookup id s.job_index)) [
    | inl l ↦ rw (l, Calls.put_job) (λ all. all)
    | inr (i, l) ↦
        let there = rw (l, Session.job_of) at at in
        rw (l, Calls.put_job)
          (λ all k j found. elim (get_elem?-set s.jobs i k job job' j there found) [
            | inl (e, f) ↦
                subst (Served matches s.nodes) (sym f)
                  (Served-same matches s.nodes id job job' same (all i job there))
            | inr f ↦ all k j f
          ])
  ]

  put_node-Served :
      (s : Session.Session fl) (name : String) (ni ni' : NodeInfo)
      → Calls.node_of fl s name ≡ some ni
      → ni'.node ≡ ni.node
      → KeepsServed s (Calls.put_node fl s name ni')
  unfolding Calls.put_node Calls.node_of
  put_node-Served s name ni ni' at same = elim (Option-cases (lookup name s.node_index)) [
    | inl l ↦ rw (l, Calls.put_node) (λ all. all)
    | inr (i, l) ↦
        let there = rw (l, Calls.node_of) at at in
        rw (l, Calls.put_node)
          (λ all k j found. Served-set matches s.nodes i ni ni' j there same (all k j found))
  ]

  served-IsFrame : IsFrame fl SameNode KeepsServed
  served-IsFrame = record {
    same = λ s h. h;
    trans = λ s t u f g h. g (f h);
    job = put_job-Served;
    node = put_node-Served;
    drf = λ s d h. h;
  }

  pub place-Served : (s t : Session.Session fl) → Place fl s t → KeepsServed s t
  place-Served s t (allocated i k job node task at l n f call) =
      allocate-frame fl SameNode KeepsServed served-IsFrame SameNode-IsNodeFrame.shown
        (λ s task sc e h all. all) SameNode-IsNodeFrame s t task node.name call
  place-Served s t (pipelined i k job node task at l n u f call) =
      pipeline-frame fl SameNode KeepsServed served-IsFrame SameNode-IsNodeFrame s t task node.name
        call

  -- The job asked for no nodes, or its selector matches the node of the placement; and it is the job that the
  -- session's index gives for the task.
  abbrev pub IsChosen : Session.Session fl → ℕ → JobInfo → TaskInfo → Type 0
  IsChosen s k job task =
      (Session.job_of fl s task.job ≡ some job)
      × ((job.node_selector ≡ []) ⊎ Chosen matches job.node_selector s.nodes k)

  abbrev pub OnChosen : {s t : Session.Session fl} → Place fl s t → Type 0
  OnChosen {s} {t} (allocated i k job node task at l n f call) = IsChosen s k job task
  OnChosen {s} {t} (pipelined i k job node task at l n u f call) = IsChosen s k job task

  abbrev pub AllOnChosen : {s t : Session.Session fl} → Places fl s t → Type 0
  AllOnChosen done = Unit
  AllOnChosen (next p rest) = OnChosen p × AllOnChosen rest

  Listed-Chosen :
      (s : Session.Session fl) (k : ℕ) (job : JobInfo)
      → Served matches s.nodes job
      → Listed k (nodes_for fl s job)
      → (job.node_selector ≡ []) ⊎ Chosen matches job.node_selector s.nodes k
  Listed-Chosen s k job (inl e) l = inl e
  Listed-Chosen s k job (inr (ks, c, all)) l = inr (all k (rw c at l))

  pub place-OnChosen :
      (s t : Session.Session fl) (p : Place fl s t)
      → AllServed matches s.nodes s.jobs
      → Session.job_of fl s (place_task fl p).job ≡ some (place_job fl p)
      → OnChosen p
  place-OnChosen s t (allocated i k job node task at l n f call) all of =
      (of, Listed-Chosen s k job (all i job at) l)
  place-OnChosen s t (pipelined i k job node task at l n u f call) all of =
      (of, Listed-Chosen s k job (all i job at) l)
