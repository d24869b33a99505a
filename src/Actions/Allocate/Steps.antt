-- ===== src/Actions/Allocate/Steps.antt =====
-- What the allocate action does to the session, as a sequence of single placements.
use kube_arbitrator.Common.{
  ℕ, ◌≡◌, ◌⊎◌, inl, inr, refl, sym, ap, ◌∙◌, subst, Bool, true, false, List, [], ◌∷◌, some,
  string_key, Outcome, ok, panic, >>=-eq-ok, arith, Bool-cases,
}
use kube_arbitrator.Common.Lists.{get_elem?}
use kube_arbitrator.Common.Loop.{stop, again, loop_inv, again_inj, stop_inj}
use kube_arbitrator.Api.Resource.{less_equal}
use kube_arbitrator.Api.Resource.Order.{Fits, Fits-of_less_equal, less_equal-of_Fits}
use kube_arbitrator.Api.TaskInfo.{TaskInfo}
use kube_arbitrator.Api.JobInfo.{JobInfo}
use kube_arbitrator.Api.NodeInfo.{NodeInfo}
use kube_arbitrator.Cache.Sound.{IsSound}
use kube_arbitrator.Plugins.Drf
use kube_arbitrator.Queue.{Heap}
use kube_arbitrator.Framework.Session
use kube_arbitrator.Framework.Calls
use kube_arbitrator.Framework.Commit.{pipeline-cache}
use kube_arbitrator.Framework.Kept.{allocate-IsSound}
use kube_arbitrator.Actions.Decorate.Laws.{Listed}
use kube_arbitrator.Actions.Allocate.{
  node_at, nodes_for, assigned_by, try_nodes, Vars, round, start, execute,
}
use kube_arbitrator.Actions.Allocate.Rounds.{Took, round-cases, place_one-again}

module _ (fl : Drf.Float64) where
  -- One placement of a task on a node that the job of position `i` may use: allocated where the
  -- request fits into the idle resource, pipelined where it does not and fits into what is being
  -- released.
  pub data Place : Session.Session fl → Session.Session fl → Type 0 where
    allocated :
        {s t : Session.Session fl} (i k : ℕ) (job : JobInfo) (node : NodeInfo) (task : TaskInfo)
        → get_elem? s.jobs i ≡ some job
        → Listed k (nodes_for fl s job)
        → get_elem? s.nodes k ≡ some node
        → Fits task.resreq node.idle
        → Calls.allocate fl s task node.name ≡ ok t
        → Place s t
    pipelined :
        {s t : Session.Session fl} (i k : ℕ) (job : JobInfo) (node : NodeInfo) (task : TaskInfo)
        → get_elem? s.jobs i ≡ some job
        → Listed k (nodes_for fl s job)
        → get_elem? s.nodes k ≡ some node
        → ¬ Fits task.resreq node.idle
        → Fits task.resreq node.releasing
        → Calls.pipeline fl s task node.name ≡ ok t
        → Place s t

  -- The job and the task of a placement.
  abbrev pub place_job : {s t : Session.Session fl} → Place s t → JobInfo
  place_job (allocated i k job node task at l n f call) = job
  place_job (pipelined i k job node task at l n u f call) = job

  abbrev pub place_task : {s t : Session.Session fl} → Place s t → TaskInfo
  place_task (allocated i k job node task at l n f call) = task
  place_task (pipelined i k job node task at l n u f call) = task

  -- A placement of this task for this job.
  abbrev pub PlaceOf : Session.Session fl → Session.Session fl → JobInfo → TaskInfo → Type 0
  PlaceOf s t job task = (p : Place s t) × (place_job p ≡ job) × (place_task p ≡ task)

  pub data Places : Session.Session fl → Session.Session fl → Type 0 where
    done : {s : Session.Session fl} → Places s s
    next : {s t u : Session.Session fl} → Place s t → Places t u → Places s u

  node_at-eq :
      (s : Session.Session fl) (k : ℕ) (node : NodeInfo)
      → node_at fl s k ≡ ok node
      → get_elem? s.nodes k ≡ some node
  unfolding node_at
  node_at-eq s k node h = ground (arith, h)

  called :
      (call : Outcome (Session.Session fl)) (t : Session.Session fl) (b : Bool)
      → assigned_by fl call ≡ ok (t, b)
      → (call ≡ ok t) × (b ≡ true)
  called (panic p) t b h = cc
  called (ok s) t b h = (ground (arith, h), ground (arith, h))

  -- The loop over the nodes leaves the session, or places the task once.
  pub try_nodes-Place :
      (s t : Session.Session fl) (i : ℕ) (job : JobInfo) (task : TaskInfo) (ks : List ℕ) (b : Bool)
      → get_elem? s.jobs i ≡ some job
      → ((k : ℕ) → Listed k ks → Listed k (nodes_for fl s job))
      → try_nodes fl s task ks ≡ ok (t, b)
      → ((b ≡ false) × (s ≡ t)) ⊎ ((b ≡ true) × PlaceOf s t job task)
  unfolding try_nodes
  try_nodes-Place s t i job task [] b at sub h = inl (ground (arith, h), ground (arith, h))
  try_nodes-Place s t i job task (k ∷ ks) b at sub h =
      let (node, found, rest) = >>=-eq-ok (node_at fl s k) _ h in
      let there = node_at-eq s k node found in
      elim (Bool-cases (less_equal task.resreq node.idle)) [
        | inl fits ↦
            let (call, assigned) =
              called (Calls.allocate fl s task node.name) t b (ground (arith, fits, rest)) in
            inr (
              assigned,
              (
                allocated i k job node task at (sub k (inl refl)) there
                    (Fits-of_less_equal task.resreq node.idle fits) call,
                refl,
                refl,
              ),
            )
        | inr unfit ↦ elim (Bool-cases (less_equal task.resreq node.releasing)) [
          | inl fits ↦
              let (call, assigned) =
                called (Calls.pipeline fl s task node.name) t b
                  (ground (arith, unfit, fits, rest)) in
              inr (
                assigned,
                (
                  pipelined i k job node task at (sub k (inl refl)) there
                      (λ f. ground (arith, unfit, less_equal-of_Fits task.resreq node.idle f))
                      (Fits-of_less_equal task.resreq node.releasing fits) call,
                  refl,
                  refl,
                ),
              )
          | inr n ↦
              try_nodes-Place s t i job task ks b at (λ j l. sub j (inr l))
                (ground (arith, unfit, n, rest))
        ]
      ]

  -- What a round leaves of the session: the session as it is, or with one more placement.
  abbrev pub Leaves : Session.Session fl → Session.Session fl → Type 0
  Leaves s t = (s ≡ t) ⊎ Place s t

  pub Places-of_Leaves : {s t u : Session.Session fl} → Leaves s t → Places t u → Places s u
  Places-of_Leaves {s} {t} {u} (inl e) rest = subst (λ x. Places x u) (sym e) rest
  Places-of_Leaves (inr p) rest = next p rest

  Place-IsSound : {s t : Session.Session fl} → Place s t → IsSound s.cache → IsSound t.cache
  Place-IsSound {s} {t} (allocated i k job node task at l n f call) h =
      allocate-IsSound fl s t task node.name h call
  Place-IsSound {s} {t} (pipelined i k job node task at l n u f call) h =
      subst IsSound (sym (pipeline-cache fl s t task node.name call)) h

  -- A sequence of placements keeps the cache sound.
  pub Places-IsSound : {s t : Session.Session fl} → Places s t → IsSound s.cache → IsSound t.cache
  Places-IsSound done h = h
  Places-IsSound (next p rest) h = Places-IsSound rest (Place-IsSound p h)

module _ (fl : Drf.Float64) (job_heap : Heap ℕ) (task_heap : Heap TaskInfo) where
  pub Took-Leaves : (v w : Vars fl) → Took fl job_heap task_heap v (again w) → Leaves fl v.ssn w.ssn
  Took-Leaves v w k =
      let v' : Vars fl = record v { jobs = k.jobs } in
      let (w', e, pending, cases) =
        place_one-again fl job_heap task_heap v' k.i k.job k.rest k.task (again w) k.ended in
      let same : w' ≡ w = again_inj (sym e) in
      elim cases [
        | inl (no_task, ssn, jobs) ↦ inl (sym ssn ∙ ap (λ (x : Vars fl). x.ssn) same)
        | inr (t, one, p) ↦
            elim (try_nodes-Place fl v.ssn w'.ssn k.i k.job t (nodes_for fl v.ssn k.job) p.assigned
              k.at (λ j l. l) p.tried) [
                | inl (no_node, ssn) ↦ inl (ssn ∙ ap (λ (x : Vars fl). x.ssn) same)
                | inr (yes_node, (place, _, _)) ↦
                    inr (subst (λ (x : Vars fl). Place fl v.ssn x.ssn) same place)
              ]
      ]

  round-Places :
      (v w : Vars fl) (t : Session.Session fl)
      → round fl job_heap task_heap v ≡ ok (again w)
      → Places fl w.ssn t
      → Places fl v.ssn t
  round-Places v w t h rest = elim (round-cases fl job_heap task_heap v (again w) h) [
    | inl e ↦ cc
    | inr k ↦ Places-of_Leaves fl (Took-Leaves v w k) rest
  ]

  round-stop :
      (v : Vars fl) (t : Session.Session fl)
      → round fl job_heap task_heap v ≡ ok (stop t)
      → Places fl v.ssn t
  round-stop v t h = elim (round-cases fl job_heap task_heap v (stop t) h) [
    | inl e ↦ subst (Places fl v.ssn) (stop_inj (sym e)) done
    | inr k ↦
        let (w, e, _, _) =
          place_one-again fl job_heap task_heap (record v { jobs = k.jobs }) k.i k.job k.rest k.task
            (stop t) k.ended in
        cc
  ]

  started :
      (fuel : ℕ) (ssn ssn' : Session.Session fl) (q : Outcome (List ℕ))
      → start fl job_heap task_heap fuel ssn q ≡ some (ok ssn')
      → Places fl ssn ssn'
  unfolding start
  started fuel ssn ssn' (panic p) h = cc
  started fuel ssn ssn' (ok jobs) h =
      loop_inv (round fl job_heap task_heap) (λ v t. Places fl v.ssn t) round-stop round-Places fuel
        (record { ssn = ssn; jobs = jobs; pending_tasks = [] }) ssn' h

  -- Where the action returns, all it has done to the session is a sequence of placements, each of a
  -- task on a node that a job of the session may use and that has room for the task at that moment:
  -- `Allocate` into idle resources, `Pipeline` into those that are being released, only where the
  -- idle ones do not suffice.
  pub execute-Places :
      (fuel : ℕ) (ssn ssn' : Session.Session fl)
      → execute fl job_heap task_heap fuel ssn ≡ some (ok ssn')
      → Places fl ssn ssn'
  unfolding execute
  execute-Places fuel ssn ssn' h = started fuel ssn ssn' _ h

  pub execute-IsSound :
      (fuel : ℕ) (ssn ssn' : Session.Session fl)
      → IsSound ssn.cache
      → execute fl job_heap task_heap fuel ssn ≡ some (ok ssn')
      → IsSound ssn'.cache
  execute-IsSound fuel ssn ssn' s h = Places-IsSound fl (execute-Places fuel ssn ssn' h) s
