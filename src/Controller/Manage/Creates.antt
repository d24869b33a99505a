-- ===== src/Controller/Manage/Creates.antt =====
-- What `manageQueueJob` creates and reports, on every order of its goroutines' steps.
use kube_arbitrator.Common.{
  ℕ, suc, ◌+◌, ◌-◌, ◌≤◌, ◌<◌, ◌≡◌, ◌⊎◌, inl, inr, refl, sym, ap, ◌∙◌, subst, true, List, [], ◌∷◌,
  ◌++◌, map, Option, none, some, String, arith, Bool-cases, ltb, ◌==◌,
}
use kube_arbitrator.Common.Lists.{length, length-append, All}
use kube_arbitrator.Api.Objects.{Pod, pod_pending, pod_running, pod_succeeded}
use kube_arbitrator.Controller.{QueueJob, filter_pods, positive_int32, create_queue_job_pod}
use kube_arbitrator.Controller.Race.{Race, all_done, run_race, new_race}
use kube_arbitrator.Controller.Race.Finish.{refusals, run_race_lem}
use kube_arbitrator.Controller.Race.Calls.{indices, length-indices}
use kube_arbitrator.Common.Lists.{length-perm}
use mathlib.Core.List.{Perm}
use mathlib.Core.List.Perm
use kube_arbitrator.Controller.Race.Ends.{race-finishes}
use kube_arbitrator.Controller.Manage.{
  Answers, Sent, SyncError, failed_to_create, last_error, missing_pods, status_of, update_status,
  after_race, ensure_spec, manage_queue_job,
}
use kube_arbitrator.Controller.Counted.{counted, counted_le, counted-append, int32_difference}

length-map : {A B : Type 0} (f : A → B) (xs : List A) → length (map f xs) ≡ length xs
length-map f [] = refl
length-map f (x ∷ xs) = ap suc (length-map f xs)

module _ {Spec : Type 0} (name_of : String → ℕ → String) where
  -- Within the range of int32, the pods that are missing are the replicas less the counted pods.
  missing_pods_lem :
      (qj : QueueJob Spec) (pods : List Pod)
      → qj.replicas < 2147483648
      → length pods < 2147483648
      → (positive_int32 (missing_pods name_of qj pods) ≡ ltb (counted pods) qj.replicas)
        × (counted pods ≤ qj.replicas → missing_pods name_of qj pods ≡ qj.replicas - counted pods)
  unfolding missing_pods counted
  missing_pods_lem qj pods h k =
      int32_difference qj.replicas (filter_pods pods pod_pending) (filter_pods pods pod_running)
        (filter_pods pods pod_succeeded) h (omega (arith, counted_le pods, k))

  -- One creation for each of `n` indices, in some order.
  abbrev pub Made : QueueJob Spec → ℕ → Sent Spec → Type 0
  Made qj n sent = Perm sent.pods (map (create_queue_job_pod name_of qj) (indices 0 n))

  Made-length :
      (qj : QueueJob Spec) (n : ℕ) (sent : Sent Spec) → Made qj n sent → length sent.pods ≡ n
  Made-length qj n sent h =
      length-perm h
      ∙ length-map (create_queue_job_pod name_of qj) (indices 0 n)
      ∙ length-indices 0 n

  -- The end of a call with `n` creations: all were accepted and the status is updated, or the
  -- creations that failed are reported.
  abbrev pub Ended : Answers → QueueJob Spec → List Pod → ℕ → Sent Spec → Option SyncError → Type 0
  Ended a qj pods n sent e =
      ((refusals a.refused 0 n ≡ 0)
        × (e ≡ last_error a)
        × (sent.updates ≡ record qj { status = status_of name_of qj pods } ∷ []))
      ⊎ ((k : ℕ) × (0 < k)
          × (k ≤ refusals a.refused 0 n)
          × (e ≡ some (failed_to_create k n))
          × (sent.updates ≡ []))

  none_distinct :
      {x : Sent Spec × Option SyncError}
      → ◌≡◌ {A = Option (Sent Spec × Option SyncError)} none (some x)
      → ⊥
  none_distinct h = cc

  some_inj :
      {x y : Sent Spec × Option SyncError}
      → ◌≡◌ {A = Option (Sent Spec × Option SyncError)} (some x) (some y)
      → x ≡ y
  some_inj h = cc

  after_race-Ended :
      (a : Answers) (qj : QueueJob Spec) (pods : List Pod) (n : ℕ) (order : List ℕ)
      (sent : Sent Spec) (e : Option SyncError)
      → after_race name_of a qj pods
          (ensure_spec name_of a qj)
          n
          (run_race a.refused (new_race n) order)
        ≡ some (sent, e)
      → Made qj n sent × Ended a qj pods n sent e
  unfolding after_race update_status ensure_spec
  after_race-Ended a qj pods n order sent e h =
      let r = run_race a.refused (new_race n) order in
      elim (Bool-cases (all_done r.goroutines)) [
        | inr d ↦ absurd (none_distinct (rw (d, after_race) at h))
        | inl d ↦
            let (calls, most, none_lost) = run_race_lem a.refused n order d in
            let made : Perm (map (create_queue_job_pod name_of qj) r.calls)
                (map (create_queue_job_pod name_of qj) (indices 0 n)) =
              Perm.map (create_queue_job_pod name_of qj) calls in
            elim (Bool-cases (r.errs == 0)) [
              | inl z ↦
                  let same = some_inj (rw (d, z, after_race) at h) in
                  (
                    subst (λ (x : Sent Spec × Option SyncError). Made qj n x.0) same made,
                    inl (
                      none_lost.0 (ground (arith, z)),
                      ap (λ x. x.1) (sym same),
                      ap (λ x. x.0.updates) (sym same),
                    ),
                  )
              | inr z ↦
                  let same = some_inj (rw (d, z, after_race) at h) in
                  (
                    subst (λ (x : Sent Spec × Option SyncError). Made qj n x.0) same made,
                    inr (
                      r.errs,
                      ground (arith, z),
                      most,
                      ap (λ x. x.1) (sym same),
                      ap (λ x. x.0.updates) (sym same),
                    ),
                  )
            ]
      ]

  -- Within the range of int32: where the call returns, in whatever order its goroutines ran, it has
  -- sent as many creations of pods as the replicas exceed the pods that are pending, running or
  -- succeeded, one for each index from 0 on, and none where they do not exceed them. Where none of them was refused, the status is updated once
  -- to the counts of the pods. Where some were refused, it is not, and the error reports at least one
  -- of them and at most all.
  pub manage_queue_job_lem :
      (a : Answers) (qj : QueueJob Spec) (pods : List Pod) (order : List ℕ) (sent : Sent Spec)
      (e : Option SyncError)
      → qj.replicas < 2147483648
      → length pods < 2147483648
      → manage_queue_job name_of a qj pods order ≡ some (sent, e)
      → Made qj (qj.replicas - counted pods) sent
        × Ended a qj pods (qj.replicas - counted pods) sent e
  unfolding manage_queue_job update_status ensure_spec
  manage_queue_job_lem a qj pods order sent e h k m =
      let (positive, missing) = missing_pods_lem qj pods h k in
      elim (Bool-cases (positive_int32 (missing_pods name_of qj pods))) [
        | inl p ↦
            let less : counted pods < qj.replicas = ground (arith, positive, p) in
            let n = missing (omega (arith, less)) in
            let ended =
              after_race-Ended a qj pods (missing_pods name_of qj pods) order sent e
                (rw (p, manage_queue_job) at m) in
            subst (λ n. Made qj n sent × Ended a qj pods n sent e) n ended
        | inr p ↦
            let enough : qj.replicas ≤ counted pods = ground (arith, positive, p) in
            let n : 0 ≡ qj.replicas - counted pods = omega (arith, enough) in
            let same = some_inj (rw (p, manage_queue_job) at m) in
            subst (λ n. Made qj n sent × Ended a qj pods n sent e) n
              (
                subst (λ (x : Sent Spec × Option SyncError). Made qj 0 x.0) same Perm.rfl,
                inl (refl, ap (λ x. x.1) (sym same), ap (λ x. x.0.updates) (sym same)),
              )
      ]

  -- The goroutines have an order in which the call returns.
  pub manage_queue_job-returns :
      (a : Answers) (qj : QueueJob Spec) (pods : List Pod)
      → (order : List ℕ) × (sent : Sent Spec) × (e : Option SyncError) × (manage_queue_job name_of a
            qj pods order
          ≡ some (sent, e))
  unfolding manage_queue_job
  manage_queue_job-returns a qj pods =
      elim (Bool-cases (positive_int32 (missing_pods name_of qj pods))) [
        | inl p ↦
            let n = missing_pods name_of qj pods in
            let (order, d) = race-finishes a.refused (new_race n) in
            let ((sent, e), h) = returns n (run_race a.refused (new_race n) order) d in
            (order, sent, e, rw (p, manage_queue_job) h)
        | inr p ↦ (
          [],
          (update_status name_of a qj pods (ensure_spec name_of a qj)).0,
          (update_status name_of a qj pods (ensure_spec name_of a qj)).1,
          rw (p, manage_queue_job) refl,
        )
      ]
    where
      made : Race → Sent Spec
      made r = record (ensure_spec name_of a qj) {
        pods = map (create_queue_job_pod name_of qj) r.calls;
      }

      returns :
          (n : ℕ) (r : Race)
          → all_done r.goroutines ≡ true
          → (x : Sent Spec × Option SyncError) × (after_race name_of a qj pods
                (ensure_spec name_of a qj)
                n
                r
              ≡ some x)
      returns n r d = elim (Bool-cases (r.errs == 0)) [
        | inl z ↦ (update_status name_of a qj pods (made r), rw (d, z, after_race) refl)
        | inr z ↦ ((made r, some (failed_to_create r.errs n)), rw (d, z, after_race) refl)
      ]

  -- For replicas, and for pods with the new ones, below 2^31: if a call has returned, and then some new pods
  -- are there, pending, no more than the creations that the call sent, refused ones included, then the next
  -- call, where it returns, sends as many creations as new pods are missing from those, and none if all came.
  pub manage_queue_job-settles :
      (a b : Answers) (qj : QueueJob Spec) (pods new : List Pod) (order order' : List ℕ)
      (sent sent' : Sent Spec) (e e' : Option SyncError)
      → qj.replicas < 2147483648
      → length new + length pods < 2147483648
      → manage_queue_job name_of a qj pods order ≡ some (sent, e)
      → length new ≤ length sent.pods
      → All (λ (p : Pod). p.phase ≡ pod_pending) new
      → manage_queue_job name_of b qj (new ++ pods) order' ≡ some (sent', e')
      → length sent'.pods + length new ≡ length sent.pods
  manage_queue_job-settles a b qj pods new order order' sent sent' e e' h k m some_new all m' =
      let (made, _) = manage_queue_job_lem a qj pods order sent e h (omega arith) m in
      let (next, _) =
        manage_queue_job_lem b qj (new ++ pods) order' sent' e' h
          (omega (arith, length-append new pods, k)) m' in
      let sum = counted-append pods new all in
      omega (arith, Made-length qj _ sent made, Made-length qj _ sent' next, sum, some_new)
