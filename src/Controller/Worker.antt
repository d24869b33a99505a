-- ===== src/Controller/Worker.antt =====
-- The event handlers and the worker, pkg/controller/queuejob/queuejob_controller.go. The FIFO of
-- client-go is a parameter: `add` is its `Add` under a key.
use kube_arbitrator.Common.{ℕ, List, [], ◌∷◌, Option, none, some, String, text_same, if◌then◌else◌}
use kube_arbitrator.Api.Objects.{Pod, get_controller}
use kube_arbitrator.Controller.{QueueJob}
use kube_arbitrator.Controller.Manage.{
  Answers, Sent, SyncError, Lookup, Listing, items, listing_error, nothing_sent, sync_queue_job,
}

-- What the informers hand over. `gone` is `cache.DeletedFinalStateUnknown`, with the object where it
-- is a pod.
pub data Object (Spec : Type 0) : Type 0 where
  queue_job_object : QueueJob Spec → Object Spec
  pod_object : Pod → Object Spec
  gone : Option Pod → Object Spec
  other_object : Object Spec

module _ {Spec : Type 0} where
  -- `eventKey`: the UID, where `meta.Accessor` succeeds.
  unfoldable pub event_key : Object Spec → Option String
  event_key (queue_job_object qj) = some qj.uid
  event_key (pod_object p) = elim p.owner [ none ↦ none | some o ↦ some p.uid ]
  event_key (gone o) = none
  event_key other_object = none

  -- The loops that look for the queue job of that UID.
  unfoldable pub controlled_by : List (QueueJob Spec) → String → Option (QueueJob Spec)
  controlled_by [] ctl = none
  controlled_by (qj ∷ qjs) ctl =
      let rest = controlled_by qjs ctl in if text_same qj.uid ctl then some qj else rest

  -- A listing of queue jobs, of which the error is logged.
  abbrev pub listed_jobs : Listing (QueueJob Spec) → List (QueueJob Spec)
  listed_jobs (items qjs) = qjs
  listed_jobs (listing_error e) = []

  module _ {Q : Type 0} (add : String → Object Spec → Q → Q) where
    -- `enqueue`.
    unfoldable pub enqueue : Object Spec → Q → Q
    unfolding event_key
    enqueue obj q = elim (event_key obj) [ none ↦ q | some key ↦ add key obj q ]

    -- `addQueueJob`, `updateQueueJob` (on the new object) and `deleteQueueJob`.
    unfoldable pub add_queue_job : Object Spec → Q → Q
    unfolding enqueue
    add_queue_job (queue_job_object qj) q = enqueue (queue_job_object qj) q
    add_queue_job obj q = q

    unfoldable pub update_queue_job : Object Spec → Object Spec → Q → Q
    unfolding enqueue
    update_queue_job old (queue_job_object qj) q = enqueue (queue_job_object qj) q
    update_queue_job old obj q = q

    unfoldable pub delete_queue_job : Object Spec → Q → Q
    unfolding enqueue
    delete_queue_job (queue_job_object qj) q = enqueue (queue_job_object qj) q
    delete_queue_job obj q = q

    -- `addPod` and `updatePod`.
    unfoldable pub add_pod : Object Spec → Q → Q
    unfolding enqueue
    add_pod (pod_object p) q = enqueue (pod_object p) q
    add_pod obj q = q

    unfoldable pub update_pod : Object Spec → Object Spec → Q → Q
    unfolding enqueue
    update_pod old (pod_object p) q = enqueue (pod_object p) q
    update_pod old obj q = q

    -- `deletePod`.
    unfoldable pub enqueue_controller : Listing (QueueJob Spec) → Pod → Q → Q
    unfolding enqueue controlled_by
    enqueue_controller jobs pod q =
        elim (controlled_by (listed_jobs jobs) (get_controller pod.owner)) [
          | none ↦ q
          | some qj ↦ enqueue (queue_job_object qj) q
        ]

    unfoldable pub delete_pod : Listing (QueueJob Spec) → Object Spec → Q → Q
    unfolding enqueue_controller
    delete_pod jobs (pod_object p) q = enqueue_controller jobs p q
    delete_pod jobs (gone (some p)) q = enqueue_controller jobs p q
    delete_pod jobs obj q = q

  -- The queue job that the worker syncs for an object, if any.
  unfoldable pub queue_job_for : Listing (QueueJob Spec) → Object Spec → Option (QueueJob Spec)
  unfolding controlled_by
  queue_job_for jobs (queue_job_object qj) = some qj
  queue_job_for jobs (pod_object p) = controlled_by (listed_jobs jobs) (get_controller p.owner)
  queue_job_for jobs obj = none

  -- The function that `worker` hands to `Pop`. `get` is the store of queue jobs by namespace and name.
  unfoldable pub process :
      (String → ℕ → String)
      → Answers
      → Listing (QueueJob Spec)
      → (QueueJob Spec → Listing Pod)
      → (String → String → Lookup (QueueJob Spec))
      → Object Spec
      → List ℕ
      → Option (Sent Spec × Option SyncError)
  unfolding queue_job_for sync_queue_job
  process name_of a jobs pods_of get obj order = elim (queue_job_for jobs obj) [
    | none ↦ some (nothing_sent name_of, none)
    | some qj ↦ sync_queue_job name_of a pods_of (get qj.namespace qj.name) order
  ]
