-- ===== src/Controller/Manage.antt =====
-- `manageQueueJob` and `syncQueueJob`, pkg/controller/queuejob/queuejob_controller.go. What the API
-- server and the informers' stores answer is an argument.
pub mod Creates
use kube_arbitrator.Common.{
  ℕ, suc, Bool, true, false, List, [], ◌∷◌, map, Option, none, some, String, ◌==◌, if◌then◌else◌,
}
use kube_arbitrator.Api.Objects.{
  Pod, pod_pending, pod_running, pod_succeeded, pod_failed, SchedulingSpec,
}
use kube_arbitrator.Controller.{
  QueueJob, QueueJobStatus, NewPod, filter_pods, int32, int32_of_ℤ, sub_int32, positive_int32,
  create_queue_job_scheduling_spec, create_queue_job_pod,
}
use kube_arbitrator.Controller.Race.{Race, all_done, run_race, new_race}

-- The errors that the functions return: one of the API server or of a store, and `fmt.Errorf` for
-- the creations that failed, with their number and the number of creations.
pub data SyncError : Type 0 where
  api_error : String → SyncError
  failed_to_create : ℕ → ℕ → SyncError

-- What the API server answers: the number of scheduling specs that it lists and the error of the
-- call, which creations of pods it refuses, and the error of the update. The answer to the creation of
-- a scheduling spec is only logged.
pub record Answers : Type 0 where
  pub listed : ℕ
  pub list_error : Option String
  pub refused : ℕ → Bool
  pub update_error : Option String

-- What is sent to the API server.
pub record Sent (Spec : Type 0) : Type 0 where
  pub specs : List SchedulingSpec
  pub pods : List (NewPod Spec)
  pub updates : List (QueueJob Spec)

-- What a store answers to a lookup.
pub data Lookup (A : Type 0) : Type 0 where
  found : A → Lookup A
  not_found : Lookup A
  lookup_error : String → Lookup A

-- What a store answers to a listing.
pub data Listing (A : Type 0) : Type 0 where
  items : List A → Listing A
  listing_error : String → Listing A

abbrev pub as_error : Option String → Option SyncError
as_error none = none
as_error (some e) = some (api_error e)

-- The error that is returned at the end: of the update, or else of the listing, which `err` still
-- holds.
abbrev pub last_error : Answers → Option SyncError
last_error a = elim a.update_error [ none ↦ as_error a.list_error | some e ↦ some (api_error e) ]

module _ {Spec : Type 0} (name_of : String → ℕ → String) where
  -- `replicas - pending - running - succeeded`.
  unfoldable pub missing_pods : QueueJob Spec → List Pod → ℕ
  unfolding filter_pods
  missing_pods qj pods =
      sub_int32
        (sub_int32 (sub_int32 qj.replicas (int32 (filter_pods pods pod_pending)))
          (int32 (filter_pods pods pod_running)))
        (int32 (filter_pods pods pod_succeeded))

  unfoldable pub status_of : QueueJob Spec → List Pod → QueueJobStatus
  unfolding filter_pods
  status_of qj pods = record {
    pending = int32 (filter_pods pods pod_pending);
    running = int32 (filter_pods pods pod_running);
    succeeded = int32 (filter_pods pods pod_succeeded);
    failed = int32 (filter_pods pods pod_failed);
    min_available = int32_of_ℤ qj.sched_spec.min_available;
  }

  -- From the update of the status on.
  unfoldable pub update_status :
      Answers → QueueJob Spec → List Pod → Sent Spec → Sent Spec × Option SyncError
  unfolding status_of
  update_status a qj pods sent =
      (record sent { updates = record qj { status = status_of qj pods } ∷ [] }, last_error a)

  -- The creation of the pods, after the run of the goroutines: `none` where `Wait` still waits.
  unfoldable pub after_race :
      Answers
      → QueueJob Spec
      → List Pod
      → Sent Spec
      → ℕ
      → Race
      → Option (Sent Spec × Option SyncError)
  unfolding update_status create_queue_job_pod
  after_race a qj pods sent diff r =
      let sent' : Sent Spec = record sent {
        pods = map (create_queue_job_pod name_of qj) r.calls;
      } in
      if all_done r.goroutines
      then (if r.errs == 0
          then some (update_status a qj pods sent')
          else some (sent', some (failed_to_create r.errs diff)))
      else none

  -- The scheduling spec that is created where there is none.
  unfoldable pub ensure_spec : Answers → QueueJob Spec → Sent Spec
  unfolding create_queue_job_scheduling_spec
  ensure_spec a qj = record {
    specs = if a.listed == 0 then create_queue_job_scheduling_spec qj ∷ [] else [];
    pods = [];
    updates = [];
  }

  -- `manageQueueJob`. `order` says which goroutine makes each step.
  unfoldable pub manage_queue_job :
      Answers → QueueJob Spec → List Pod → List ℕ → Option (Sent Spec × Option SyncError)
  unfolding ensure_spec missing_pods after_race
  manage_queue_job a qj pods order =
      if positive_int32 (missing_pods qj pods)
      then after_race a qj pods (ensure_spec a qj) (missing_pods qj pods)
          (run_race a.refused (new_race (missing_pods qj pods)) order)
      else some (update_status a qj pods (ensure_spec a qj))

  abbrev pub nothing_sent : Sent Spec
  nothing_sent = record { specs = []; pods = []; updates = [] }

  -- `syncQueueJob`. The store of pods is asked by the job's selector (`getPodsForQueueJob`): the
  -- conversion of the selector can fail, and the listing can.
  unfoldable pub sync_pods :
      Answers → QueueJob Spec → Listing Pod → List ℕ → Option (Sent Spec × Option SyncError)
  unfolding manage_queue_job
  sync_pods a qj (items pods) order = manage_queue_job a qj pods order
  sync_pods a qj (listing_error e) order = some (nothing_sent, some (api_error e))

  unfoldable pub sync_queue_job :
      Answers
      → (QueueJob Spec → Listing Pod)
      → Lookup (QueueJob Spec)
      → List ℕ
      → Option (Sent Spec × Option SyncError)
  unfolding sync_pods
  sync_queue_job a pods_of (found qj) order = sync_pods a qj (pods_of qj) order
  sync_queue_job a pods_of not_found order = some (nothing_sent, none)
  sync_queue_job a pods_of (lookup_error e) order = some (nothing_sent, some (api_error e))
