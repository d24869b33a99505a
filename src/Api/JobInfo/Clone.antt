-- ===== src/Api/JobInfo/Clone.antt =====
-- `JobInfo.Clone`: what a snapshot keeps of a job, what it drops and what it gets wrong.
use kube_arbitrator.Common.{
  ℕ, ◌+◌, ◌≡◌, refl, if_pos, [], ◌∷◌, ◌++◌, none, some, String, string_key, arith, sym, ap, ◌∙◌,
}
use mathlib.Core.List.{append_assoc, append-nil}
use kube_arbitrator.Common.Int.{pos}
use kube_arbitrator.Common.Map.{lookup, insert}
use kube_arbitrator.Api.Resource.{Resource, empty_resource, add}
use kube_arbitrator.Api.Resource.Sum.{add-empty}
use kube_arbitrator.Api.TaskInfo.{TaskInfo, TasksMap}
use kube_arbitrator.Api.Requested.{Distinct, Distinct-middle, insert_absent, requested}
use kube_arbitrator.Api.JobInfo.{
  JobInfo, new_job_info, add_task_info, add_clones, copy_into, tasks_with, clone,
}
use kube_arbitrator.Api.JobInfo.Invariant.{IsAccounted, IsConsistent, any_task, is_allocated}
use kube_arbitrator.Api.JobInfo.Changes.{add_task_info-IsConsistent}

-- Every task stands under its own UID.
abbrev pub Keyed : TasksMap → Type 0
Keyed ts = (u : String) (t : TaskInfo) → lookup u ts ≡ some t → t.uid ≡ u

Keyed-tail :
    (k : String) (t : TaskInfo) (ts : TasksMap)
    → lookup k ts ≡ none
    → Keyed ((k, t) ∷ ts)
    → Keyed ts
unfolding lookup
Keyed-tail k t ts new keyed u w h = ground (arith, keyed u w)

Keyed-head : (k : String) (t : TaskInfo) (ts : TasksMap) → Keyed ((k, t) ∷ ts) → t.uid ≡ k
unfolding lookup
Keyed-head k t ts keyed = keyed k t (if_pos (string_key.dec k k) refl _ _)

tasks_of_add :
    (info : JobInfo) (t : TaskInfo) → (add_task_info info t).tasks ≡ insert t.uid t info.tasks
unfolding add_task_info
tasks_of_add info t = refl

-- What holds in each round of the loop over the tasks.
record Round (x y : Resource) (info : JobInfo) (ts : TasksMap) : Type 0 where
  consistent : IsConsistent x y info
  fresh : Distinct (info.tasks ++ ts)
  left : Distinct ts
  keyed : Keyed ts

module _ {x y : Resource} {info : JobInfo} {u : String} {t : TaskInfo} {ts : TasksMap} where
  Round-absent : Round x y info ((u, t) ∷ ts) → lookup t.uid info.tasks ≡ none
  Round-absent r = rw (Keyed-head u t ts r.keyed) (Distinct-middle u t info.tasks ts r.fresh)

  Round-whole :
      Round x y info ((u, t) ∷ ts) → (add_task_info info t).tasks ++ ts ≡ info.tasks ++ (u, t) ∷ ts
  Round-whole r =
      let grown : (add_task_info info t).tasks ≡ info.tasks ++ (u, t) ∷ [] =
        tasks_of_add info t
        ∙ insert_absent t.uid t info.tasks (Round-absent r)
        ∙ rw (Keyed-head u t ts r.keyed) refl in
      rw grown (append_assoc info.tasks ((u, t) ∷ []) ts)

  Round-next : Round x y info ((u, t) ∷ ts) → Round x y (add_task_info info t) ts
  Round-next r = record {
    consistent = add_task_info-IsConsistent info t r.consistent (Round-absent r);
    fresh = rw (Round-whole r) r.fresh;
    left = r.left.1;
    keyed = Keyed-tail u t ts r.left.0 r.keyed;
  }

-- The loop over the tasks: they come behind the ones that are there, and are indexed and counted.
add_clones-IsConsistent :
    (x y : Resource) (info : JobInfo) (ts : TasksMap)
    → Round x y info ts
    → IsConsistent x y (add_clones info ts) × ((add_clones info ts).tasks ≡ info.tasks ++ ts)
unfolding add_clones
add_clones-IsConsistent x y info [] r = (r.consistent, sym (append-nil info.tasks))
add_clones-IsConsistent x y info ((u, t) ∷ ts) r =
    let (c, e) = add_clones-IsConsistent x y (add_task_info info t) ts (Round-next r) in
    (c, e ∙ Round-whole r)

-- The sum of a weight over the tasks.
unfoldable pub weigh : (TaskInfo → ℕ) → TasksMap → ℕ
weigh w [] = 0
weigh w ((k, t) ∷ ts) = w t + weigh w ts

module _ (m : JobInfo → ℕ) (w : TaskInfo → ℕ)
    (grows : (x y : Resource) (info : JobInfo) (t : TaskInfo)
      → IsConsistent x y info
      → lookup t.uid info.tasks ≡ none
      → m (add_task_info info t) ≡ m info + w t) where
  add_clones-weigh :
      (x y : Resource) (info : JobInfo) (ts : TasksMap)
      → Round x y info ts
      → m (add_clones info ts) ≡ m info + weigh w ts
  unfolding add_clones weigh
  add_clones-weigh x y info [] r = omega arith
  add_clones-weigh x y info ((u, t) ∷ ts) r = omega (
    arith,
    add_clones-weigh x y (add_task_info info t) ts (Round-next r),
    grows x y info t r.consistent (Round-absent r),
  )

start : JobInfo → JobInfo
unfolding copy_into
start ps = record (new_job_info ps.uid) {
  name = ps.name;
  namespace = ps.namespace;
  min_available = ps.min_available;
  node_selector = copy_into [] ps.node_selector;
  allocated = ps.allocated;
  total_request = ps.total_request;
}

start-IsConsistent : (ps : JobInfo) → IsConsistent ps.total_request ps.allocated (start ps)
unfolding start lookup tasks_with requested add
start-IsConsistent ps = record {
  accounts = record {
    distinct = tt;
    keyed = λ u t h. cc;
    total = ground arith;
    held = ground arith;
  };
  index = λ s u. refl;
}

start-Round :
    (ps : JobInfo)
    → Distinct ps.tasks
    → Keyed ps.tasks
    → Round ps.total_request ps.allocated (start ps) ps.tasks
start-Round ps d k = record {
  consistent = start-IsConsistent ps;
  fresh = unfold start in d;
  left = d;
  keyed = k;
}

-- Whatever the index of the original holds, a clone has the same tasks and an index that lists
-- exactly these. Its accounts hold the tasks' requests on top of the original's accounts.
pub clone-IsConsistent :
    (ps : JobInfo)
    → Distinct ps.tasks
    → Keyed ps.tasks
    → IsConsistent ps.total_request ps.allocated (clone ps) × ((clone ps).tasks ≡ ps.tasks)
unfolding clone start
clone-IsConsistent ps d k =
    add_clones-IsConsistent ps.total_request ps.allocated (start ps) ps.tasks (start-Round ps d k)

-- A measure that each new task adds a weight to is, in a clone, what it is in a job with no task
-- and the weights of the tasks.
pub clone-weigh :
    (m : JobInfo → ℕ) (w : TaskInfo → ℕ)
    → ((x y : Resource) (info : JobInfo) (t : TaskInfo)
        → IsConsistent x y info
        → lookup t.uid info.tasks ≡ none
        → m (add_task_info info t) ≡ m info + w t)
    → ((info : JobInfo) → info.task_status_index ≡ [] → m info ≡ 0)
    → (ps : JobInfo) → Distinct ps.tasks
    → Keyed ps.tasks
    → m (clone ps) ≡ weigh w ps.tasks
unfolding clone start
clone-weigh m w grows zero_at ps d k = omega (
  arith,
  add_clones-weigh m w grows ps.total_request ps.allocated (start ps) ps.tasks (start-Round ps d k),
  zero_at (start ps) refl,
)

-- The clone of a job with right accounts counts every task twice: its total request and what it holds
-- are double those of the original.
pub clone_doubles :
    (ps : JobInfo)
    → IsAccounted empty_resource empty_resource ps
    → ((clone ps).total_request ≡ add ps.total_request ps.total_request)
      × ((clone ps).allocated ≡ add ps.allocated ps.allocated)
clone_doubles ps c =
    let (c', same) = clone-IsConsistent ps c.distinct c.keyed in
    let total : ps.total_request ≡ requested any_task ps.tasks = c.total ∙ add-empty _ in
    let held : ps.allocated ≡ requested is_allocated ps.tasks = c.held ∙ add-empty _ in
    (
      c'.total ∙ ap (λ r. add r ps.total_request) (ap (requested any_task) same ∙ sym total),
      c'.held ∙ ap (λ r. add r ps.allocated) (ap (requested is_allocated) same ∙ sym held),
    )

-- What the loop over the tasks leaves alone.
record SameHead (ps info : JobInfo) : Type 0 where
  uid : ps.uid ≡ info.uid
  name : ps.name ≡ info.name
  min_available : ps.min_available ≡ info.min_available
  priority : ps.priority ≡ info.priority
  candidates : ps.candidates ≡ info.candidates
  sched_spec : ps.sched_spec ≡ info.sched_spec
  pdb : ps.pdb ≡ info.pdb

add_clones-SameHead : (info : JobInfo) (ts : TasksMap) → SameHead (add_clones info ts) info
unfolding add_clones
add_clones-SameHead info [] = record {
  uid = refl;
  name = refl;
  min_available = refl;
  priority = refl;
  candidates = refl;
  sched_spec = refl;
  pdb = refl;
}
add_clones-SameHead info ((u, t) ∷ ts) =
    let h = add_clones-SameHead (add_task_info info t) ts in
    unfold add_task_info in
    record {
      uid = h.uid;
      name = h.name;
      min_available = h.min_available;
      priority = h.priority;
      candidates = h.candidates;
      sched_spec = h.sched_spec;
      pdb = h.pdb;
    }

-- A clone has the original's identity and gang size. It has neither its priority, its candidates,
-- its scheduling spec nor its disruption budget.
pub clone_head :
    (ps : JobInfo)
    → ((clone ps).uid ≡ ps.uid)
      × ((clone ps).name ≡ ps.name)
      × ((clone ps).min_available ≡ ps.min_available)
      × ((clone ps).priority ≡ pos 0)
      × ((clone ps).candidates ≡ none)
      × ((clone ps).sched_spec ≡ none)
      × ((clone ps).pdb ≡ none)
unfolding clone
clone_head ps =
    let h = add_clones-SameHead (unfold start in start ps) ps.tasks in
    unfold start in (h.uid, h.name, h.min_available, h.priority, h.candidates, h.sched_spec, h.pdb)
