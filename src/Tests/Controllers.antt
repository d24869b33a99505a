-- ===== src/Tests/Controllers.antt =====
-- Tests of the queue job controller: three replicas of which one pod is running, and the API server
-- refuses one creation.
use kube_arbitrator.Common.{
  ◌+◌, ℕ, ◌-◌, ◌≤◌, ◌≡◌, ◌↔◌, refl, [], ◌∷◌, ◌++◌, List, true, false, none, some, String, Option,
  arith,
}
use kube_arbitrator.Common.Int.{pos}
use kube_arbitrator.Common.Lists.{length}
use kube_arbitrator.Api.Objects.{get_controller, Pod, pod_pending}
use kube_arbitrator.Controller.{QueueJob, filter_pods}
use kube_arbitrator.Controller.Counted.{counted}
use kube_arbitrator.Controller.Race.{all_done, run_race, new_race}
use mathlib.Core.List.{Perm}
use kube_arbitrator.Controller.Race.Calls.{indices}
use kube_arbitrator.Controller.Race.Finish.{refusals, run_race_lem}
use kube_arbitrator.Controller.Race.Ends.{race-finishes}
use kube_arbitrator.Controller.Manage.{
  Answers, Sent, SyncError, Lookup, found, Listing, items, manage_queue_job,
}
use kube_arbitrator.Controller.Manage.Creates.{
  Made, Ended, manage_queue_job_lem, manage_queue_job-returns, manage_queue_job-settles,
}
use kube_arbitrator.Controller.Worker.{Object, pod_object, controlled_by, queue_job_for}
use kube_arbitrator.Tests.Data.{pod_named}

abbrev name_of : String → ℕ → String
name_of name ix = name

abbrev three : QueueJob ℕ
three = record {
  uid = "qj";
  name = "three";
  namespace = "ns";
  replicas = 3;
  sched_spec = record { node_selector = []; min_available = pos 3 };
  selector = none;
  template_labels = [];
  template_spec = 7;
  status = record { pending = 0; running = 0; succeeded = 0; failed = 0; min_available = 0 };
}

abbrev accepting : Answers
accepting = record { listed = 0; list_error = none; refused = λ i. false; update_error = none }

abbrev refusing : Answers
refusing = record { listed = 1; list_error = none; refused = λ i. true; update_error = none }

-- Both goroutines read `errs` before either writes it back.
abbrev lost : List ℕ
lost = 0 ∷ 1 ∷ 0 ∷ 1 ∷ 0 ∷ 1 ∷ []

abbrev or_nothing : Option (Sent ℕ × Option SyncError) → Sent ℕ × Option SyncError
or_nothing none = (record { specs = []; pods = []; updates = [] }, none)
or_nothing (some x) = x

abbrev first : Sent ℕ × Option SyncError
first = or_nothing (manage_queue_job name_of refusing three (pod_named "p1" ∷ []) lost)

managed :
    manage_queue_job name_of refusing three (pod_named "p1" ∷ []) lost ≡ some (first.0, first.1)
unfolding manage_queue_job filter_pods all_done run_race new_race
managed = refl

manage_queue_job_lem_example :
    Made name_of three (3 - counted (pod_named "p1" ∷ [])) first.0
    × Ended name_of refusing three
        (pod_named "p1" ∷ [])
        (3 - counted (pod_named "p1" ∷ []))
        first.0
        first.1
manage_queue_job_lem_example =
    manage_queue_job_lem name_of refusing three (pod_named "p1" ∷ []) lost first.0 first.1
      (omega arith) (omega arith) managed

manage_queue_job-returns_example :
    (order : List ℕ) × (sent : Sent ℕ) × (e : Option SyncError) × (manage_queue_job name_of refusing
        three
        (pod_named "p1" ∷ [])
        order
      ≡ some (sent, e))
manage_queue_job-returns_example =
    manage_queue_job-returns name_of refusing three (pod_named "p1" ∷ [])

abbrev pending_pod : String → Pod
pending_pod name = record (pod_named name) { phase = pod_pending }

abbrev created_pods : List Pod
created_pods = pending_pod "a" ∷ []

abbrev accepted : Sent ℕ × Option SyncError
accepted = or_nothing (manage_queue_job name_of accepting three (pod_named "p1" ∷ []) (0 ∷ 1 ∷ []))

abbrev second : Sent ℕ × Option SyncError
second =
    or_nothing
      (manage_queue_job name_of accepting three (created_pods ++ pod_named "p1" ∷ []) (0 ∷ []))

accepts :
    manage_queue_job name_of accepting three (pod_named "p1" ∷ []) (0 ∷ 1 ∷ [])
    ≡ some (accepted.0, accepted.1)
unfolding manage_queue_job filter_pods all_done run_race new_race
accepts = refl

settles :
    manage_queue_job name_of accepting three (created_pods ++ pod_named "p1" ∷ []) (0 ∷ [])
    ≡ some (second.0, second.1)
unfolding manage_queue_job filter_pods all_done run_race new_race
settles = refl

-- One of the two pods came.
no_more : length created_pods ≤ length accepted.0.pods
unfolding manage_queue_job filter_pods all_done run_race new_race
no_more = omega arith

manage_queue_job-settles_example : length second.0.pods + 1 ≡ length accepted.0.pods
manage_queue_job-settles_example =
    manage_queue_job-settles name_of accepting accepting three (pod_named "p1" ∷ []) created_pods
      (0 ∷ 1 ∷ []) (0 ∷ []) accepted.0 second.0 accepted.1 second.1 (omega arith) (omega arith)
      accepts no_more (refl, tt) settles

lost_done : all_done (run_race (λ i. true) (new_race 2) lost).goroutines ≡ true
unfolding run_race new_race all_done
lost_done = refl

run_race_lem_example :
    let r = run_race (λ i. true) (new_race 2) lost in
    Perm r.calls (indices 0 2)
    × (r.errs ≤ refusals (λ i. true) 0 2)
    × ((r.errs ≡ 0) ↔ (refusals (λ i. true) 0 2 ≡ 0))
run_race_lem_example = run_race_lem (λ i. true) 2 lost lost_done

-- An error of two is lost.
lost_error : (run_race (λ i. true) (new_race 2) lost).errs ≡ 1
unfolding run_race new_race
lost_error = refl

race-finishes_example :
    (order : List ℕ) × (all_done (run_race (λ i. true) (new_race 2) order).goroutines ≡ true)
race-finishes_example = race-finishes (λ i. true) (new_race 2)

abbrev owned : Pod
owned = record (pod_named "p1") { owner = some (some "qj") }

abbrev Fifo : Type 0
Fifo = List (String × Object ℕ)

abbrev add_first : String → Object ℕ → Fifo → Fifo
add_first key obj q = (key, obj) ∷ q

abbrev no_pods : QueueJob ℕ → Listing Pod
no_pods qj = items []

abbrev get_three : String → String → Lookup (QueueJob ℕ)
get_three namespace name = found three

owned_by_three : queue_job_for (items (three ∷ [])) (pod_object owned) ≡ some three
unfolding queue_job_for controlled_by get_controller
owned_by_three = refl
