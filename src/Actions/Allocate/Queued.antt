-- ===== src/Actions/Allocate/Queued.antt =====
-- The allocate action after the decorate action: the queues hold the tasks of their jobs, and every placement
-- is on a node that the selector of the task's job matches.
use kube_arbitrator.Common.{
  ℕ, ◌≡◌, inl, inr, sym, ap, ◌∙◌, subst, List, [], some, string_key, Outcome, ok, panic, ok_inj,
  Option-cases,
}
use kube_arbitrator.Common.Lists.{get_elem?}
use kube_arbitrator.Common.Map.{lookup}
use kube_arbitrator.Common.Loop.{stop, again, loop_inv, again_inj, stop_inj}
use kube_arbitrator.Api.Status.{pending}
use kube_arbitrator.Api.TaskInfo.{TaskInfo}
use kube_arbitrator.Api.JobInfo.{JobInfo, tasks_with}
use kube_arbitrator.Api.JobInfo.Owner.{tasks_with-AreOf}
use kube_arbitrator.Plugins.Drf
use kube_arbitrator.Queue.{Heap}
use kube_arbitrator.Framework.Session
use kube_arbitrator.Framework.Frame.{SameNode, SameNode-IsNodeFrame}
use kube_arbitrator.Framework.Frame.Places.{pipeline-frame}
use kube_arbitrator.Framework.Frame.Dispatch.{allocate-frame}
use kube_arbitrator.Framework.Owned.{IsOwned, KeepsOwned, owned-IsFrame}
use kube_arbitrator.Actions.Decorate
use kube_arbitrator.Actions.Decorate.{Matcher}
use kube_arbitrator.Actions.Allocate.{
  values, task_less, nodes_for, Vars, tasks_of, round, start, execute,
}
use kube_arbitrator.Actions.Allocate.OfJob.{
  OfJob, AllOfJob, values-OfJob, AllOfJob-insert, filled-OfJob, popped-OfJob,
}
use kube_arbitrator.Actions.Allocate.Candidates.{AllServed}
use kube_arbitrator.Actions.Allocate.Chosen.{
  AllOnChosen, place-OnChosen, place-Served, decorate-AllServed,
}
use kube_arbitrator.Actions.Allocate.Rounds.{Took, round-cases, place_one-again}
use kube_arbitrator.Actions.Allocate.Steps.{
  Place, allocated, pipelined, Places, done, next, place_job, place_task, try_nodes-Place,
}

module _ (fl : Drf.Float64) (matches : Matcher) where
  place-Owned : (s t : Session.Session fl) → Place fl s t → KeepsOwned fl s t
  place-Owned s t (allocated i k job node task at l n f call) =
      allocate-frame fl SameNode (KeepsOwned fl) (owned-IsFrame fl) SameNode-IsNodeFrame.shown
        (λ s task sc e h o. record { named = o.named; placed = o.placed; owns = o.owns })
        SameNode-IsNodeFrame s t task node.name call
  place-Owned s t (pipelined i k job node task at l n u f call) =
      pipeline-frame fl SameNode (KeepsOwned fl) (owned-IsFrame fl) SameNode-IsNodeFrame s t task
        node.name call

  -- What holds in each round of the loop.
  record IsFine (v : Vars fl) : Type 0 where
    served : AllServed matches v.ssn.nodes v.ssn.jobs
    owned : IsOwned fl v.ssn
    queued : AllOfJob v.pending_tasks

  -- A sequence of placements that are all right for their tasks' jobs.
  abbrev Right : Session.Session fl → Session.Session fl → Type 0
  Right s t = (ps : Places fl s t) × AllOnChosen fl matches ps

  module _ (job_heap : Heap ℕ) (task_heap : Heap TaskInfo) where
    tasks_of-OfJob :
        (v : Vars fl) (i : ℕ) (job : JobInfo) (q : List TaskInfo)
        → IsFine v
        → get_elem? v.ssn.jobs i ≡ some job
        → tasks_of fl job_heap task_heap v job ≡ ok q
        → OfJob job.uid q
    unfolding tasks_of
    tasks_of-OfJob v i job q fine at h = elim (Option-cases (lookup job.uid v.pending_tasks)) [
      | inr (old, e) ↦
          subst (OfJob job.uid) (ok_inj (rw (e, tasks_of) at h)) (fine.queued job.uid old e)
      | inl e ↦
          filled-OfJob task_heap (task_less fl v.ssn) job.uid
            (values (tasks_with pending job.task_status_index)) q
            (values-OfJob job.uid (tasks_with pending job.task_status_index)
              (tasks_with-AreOf job.uid pending job.task_status_index (fine.owned.owns i job at)))
            (rw (e, tasks_of) at h)
    ]

    job_of-placed :
        (s : Session.Session fl) (i : ℕ) (job : JobInfo) (task : TaskInfo)
        → IsOwned fl s
        → get_elem? s.jobs i ≡ some job
        → task.job ≡ job.uid
        → Session.job_of fl s task.job ≡ some job
    unfolding Session.job_of
    job_of-placed s i job task o at e = rw (e, o.placed i job at, Session.job_of) at

    -- A round that took a job.
    Took-Right :
        (v w : Vars fl) (t : Session.Session fl)
        → Took fl job_heap task_heap v (again w)
        → IsFine v
        → (IsFine w → Right w.ssn t)
        → Right v.ssn t
    Took-Right v w t k fine later =
        let v' : Vars fl = record v { jobs = k.jobs } in
        let (w', e, pending_eq, cases) =
          place_one-again fl job_heap task_heap v' k.i k.job k.rest k.task (again w) k.ended in
        let same : w' ≡ w = again_inj (sym e) in
        let all =
          tasks_of-OfJob v' k.i k.job k.tasks
            (record { served = fine.served; owned = fine.owned; queued = fine.queued }) k.at
            k.tasks_found in
        let (left, taken) =
          popped-OfJob task_heap (task_less fl v.ssn) k.job.uid k.tasks k.rest k.task all
            k.pop_task in
        let queued : AllOfJob w'.pending_tasks =
          subst AllOfJob (sym pending_eq)
            (AllOfJob-insert v.pending_tasks k.job.uid k.rest fine.queued left) in
        let unchanged : w'.ssn ≡ v.ssn → Right v.ssn t = λ ssn.
          subst (λ s. Right s t) (ap (λ (x : Vars fl). x.ssn) (sym same) ∙ ssn)
            (later (
              subst IsFine same (record {
                served = rw ssn fine.served;
                owned = subst (IsOwned fl) (sym ssn) fine.owned;
                queued = queued;
              }))) in
        elim cases [
          | inl (no_task, ssn, jobs) ↦ unchanged ssn
          | inr (task, one, p) ↦
              elim (try_nodes-Place fl v.ssn w'.ssn k.i k.job task (nodes_for fl v.ssn k.job)
                p.assigned k.at (λ j l. l) p.tried) [
                  | inl (no_node, ssn) ↦ unchanged (sym ssn)
                  | inr (yes_node, (place, job_eq, task_eq)) ↦
                      let of : Session.job_of fl v.ssn (place_task fl place).job
                          ≡ some (place_job fl place) =
                        rw (task_eq, job_eq)
                          (job_of-placed v.ssn k.i k.job task fine.owned k.at (taken task one)) in
                      let (ps, rest) =
                        subst (λ (x : Vars fl). Right x.ssn t) (sym same)
                          (later (
                            subst IsFine same (record {
                              served = place-Served fl matches v.ssn w'.ssn place fine.served;
                              owned = place-Owned v.ssn w'.ssn place fine.owned;
                              queued = queued;
                            }))) in
                      (
                        next place ps,
                        (place-OnChosen fl matches v.ssn w'.ssn place fine.served of, rest),
                      )
                ]
        ]

    round-Right :
        (v w : Vars fl) (t : Session.Session fl)
        → round fl job_heap task_heap v ≡ ok (again w)
        → (IsFine w → Right w.ssn t)
        → IsFine v
        → Right v.ssn t
    round-Right v w t h later fine = elim (round-cases fl job_heap task_heap v (again w) h) [
      | inl e ↦ cc
      | inr k ↦ Took-Right v w t k fine later
    ]

    round-stop :
        (v : Vars fl) (t : Session.Session fl)
        → round fl job_heap task_heap v ≡ ok (stop t)
        → IsFine v
        → Right v.ssn t
    round-stop v t h fine = elim (round-cases fl job_heap task_heap v (stop t) h) [
      | inl e ↦ subst (Right v.ssn) (stop_inj (sym e)) (done, tt)
      | inr k ↦
          let (w, e, _, _) =
            place_one-again fl job_heap task_heap (record v { jobs = k.jobs }) k.i k.job k.rest
              k.task (stop t) k.ended in
          cc
    ]

    started :
        (fuel : ℕ) (ssn ssn' : Session.Session fl) (q : Outcome (List ℕ))
        → AllServed matches ssn.nodes ssn.jobs
        → IsOwned fl ssn
        → start fl job_heap task_heap fuel ssn q ≡ some (ok ssn')
        → Right ssn ssn'
    unfolding start lookup
    started fuel ssn ssn' (panic p) served owned h = cc
    started fuel ssn ssn' (ok jobs) served owned h =
        loop_inv (round fl job_heap task_heap) (λ v t. IsFine v → Right v.ssn t) round-stop
          round-Right fuel (record { ssn = ssn; jobs = jobs; pending_tasks = [] }) ssn' h
          (record { served = served; owned = owned; queued = λ uid q found. cc })

    -- On a session that the decorate action has prepared, in which the index of the jobs finds each job
    -- under its UID and each job lists only tasks that name it as their job: where the allocate action
    -- returns, all it has done is a sequence of placements, and each of them is of a task on a node whose
    -- labels match the selector of that task's job, the one that the session's index gives for it at that
    -- moment, unless that job has no selector.
    pub execute-AllOnChosen :
        (fuel : ℕ) (ssn ssn' : Session.Session fl) (jobs : List JobInfo)
        → Decorate.execute matches ssn.jobs ssn.nodes ≡ ok jobs
        → IsOwned fl (record ssn { jobs = jobs })
        → execute fl job_heap task_heap fuel (record ssn { jobs = jobs }) ≡ some (ok ssn')
        → (ps : Places fl (record ssn { jobs = jobs }) ssn') × AllOnChosen fl matches ps
    unfolding execute
    execute-AllOnChosen fuel ssn ssn' jobs decorated owned returned =
        started fuel (record ssn { jobs = jobs }) ssn' _
          (decorate-AllServed matches ssn.jobs ssn.nodes jobs decorated) owned returned
