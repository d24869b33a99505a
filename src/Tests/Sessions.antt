-- ===== src/Tests/Sessions.antt =====
-- Tests of the plugins, the decorate action and the session.
use kube_arbitrator.Common.{
  ℕ, ◌-◌, ◌*◌, ◌/◌, ◌≡◌, ◌↔◌, refl, true, false, [], ◌∷◌, List, none, some, String, String_discrete,
  string_key, ok, panic, nil_dereference, ltb, leb, ◌==◌, ite,
}
use kube_arbitrator.Common.Int.{pos}
use kube_arbitrator.Common.Map.{lookup, insert}
use kube_arbitrator.Api.Resource.{Resource, empty_resource, add, get}
use kube_arbitrator.Api.Status.{running, allocated_status}
use kube_arbitrator.Api.JobInfo.{
  JobInfo, new_job_info, add_task_info, set_scheduling_spec, copy_into,
}
use kube_arbitrator.Api.NodeInfo.{new_node_info}
use kube_arbitrator.Plugins.Gang
use kube_arbitrator.Plugins.Gang.Laws.{preemptable_iff}
use kube_arbitrator.Plugins.Drf
use kube_arbitrator.Plugins.Drf.Laws.{job_order-open, on_evict-on_allocate}
use kube_arbitrator.Actions.Decorate.{Matcher, fetch_match_nodes}
use kube_arbitrator.Actions.Decorate.Laws.{fetch_match_nodes_panics}
use kube_arbitrator.Tests.Data.{resource, node_of_size, spec_of_two, task_of}

-- Numbers in millionths, for a float64 without negative numbers.
abbrev pub millionths : Drf.Float64
millionths = record {
  F = ℕ;
  from_ℕ = λ n. 1000000 * n;
  div = λ a b. (1000000 * a) / b;
  minus = λ a b. a - b;
  abs = λ a. a;
  lt = ltb;
  le = leb;
  eq = λ a b. a == b;
  share_delta = 1;
  eq_zero = refl;
}

abbrev job_named : String → JobInfo
job_named id =
    add_task_info (set_scheduling_spec (new_job_info id) spec_of_two) (task_of "p1" running)

unready : (id : String) → Gang.job_ready (job_named id) ≡ false
unfolding Gang.job_ready Gang.ready_task_num add_task_info set_scheduling_spec insert
    allocated_status lookup
unready id = refl

preemptable_iff_example : (Gang.preemptable (some (job_named "a")) ≡ ok true) ↔ (
    (Gang.job_ready (job_named "a") ≡ true)
    × (Gang.job_ready (set_scheduling_spec (new_job_info "a") spec_of_two) ≡ true))
unfolding add_task_info set_scheduling_spec insert Gang.ready_task_num allocated_status lookup
preemptable_iff_example =
    preemptable_iff (job_named "a") (set_scheduling_spec (new_job_info "a") spec_of_two) refl refl

abbrev two_jobs : List JobInfo
two_jobs = job_named "a" ∷ new_job_info "b" ∷ []

abbrev attr : Resource → Drf.DrfAttr millionths
attr r = record { share = 0; dominant_resource = ""; allocated = r }

abbrev opened : Drf.DrfPlugin millionths
opened =
    Drf.on_session_open millionths (Drf.new_drf millionths)
      (new_node_info (some (node_of_size 5)) ∷ []) two_jobs

job_order-open_example :
    Drf.job_order millionths opened (job_named "a") (new_job_info "b") ≡ ok (pos 0)
unfolding Drf.on_session_open lookup insert String_discrete add_task_info set_scheduling_spec add
    allocated_status
job_order-open_example =
    job_order-open millionths (new_node_info (some (node_of_size 5)) ∷ []) two_jobs (job_named "a")
      (new_job_info "b") (attr (resource 2)) (attr empty_resource) refl refl

abbrev drf_with_job : Drf.DrfPlugin millionths
drf_with_job = record { total_resource = resource 5; job_opts = ("job", attr (resource 1)) ∷ [] }

-- A share of three fifths.
abbrev drf_allocated : Drf.DrfPlugin millionths
drf_allocated = record {
  total_resource = resource 5;
  job_opts =
      ("job", record { share = 600000; dominant_resource = ""; allocated = resource 3 }) ∷ [];
}

on_evict-on_allocate_example :
    (drf'' : Drf.DrfPlugin millionths) × (attr'' : Drf.DrfAttr millionths) × (Drf.on_evict
        millionths drf_allocated
        (task_of "p1" running)
      ≡ ok drf'')
    × (lookup "job" drf''.job_opts ≡ some attr'')
    × (attr''.allocated ≡ resource 1)
    × (Drf.calculate_share millionths (resource 1) (resource 5) ≡ ok attr''.share)
    × (drf''.total_resource ≡ resource 5)
unfolding lookup String_discrete Drf.on_allocate insert add get Drf.attr_of Drf.update_share
    Drf.calculate_share
on_evict-on_allocate_example =
    on_evict-on_allocate millionths drf_with_job drf_allocated (task_of "p1" running)
      (attr (resource 1)) refl refl

-- Every pair of the selector is a label, as documented for a selector made from a set.
abbrev all_labels : Matcher
all_labels [] labels = true
all_labels ((k, v) ∷ selector) labels = elim (lookup k labels) [
  | none ↦ false
  | some w ↦ ite (String_discrete v w) (all_labels selector labels) false
]

fetch_match_nodes_panics_example :
    fetch_match_nodes all_labels
      (job_named "a")
      (new_node_info (some (node_of_size 5)) ∷ new_node_info none ∷ [])
    ≡ panic nil_dereference
unfolding add_task_info set_scheduling_spec new_node_info insert copy_into
fetch_match_nodes_panics_example =
    fetch_match_nodes_panics all_labels (job_named "a")
      (new_node_info (some (node_of_size 5)) ∷ new_node_info none ∷ []) 1 (new_node_info none)
      (λ e. cc) refl refl
