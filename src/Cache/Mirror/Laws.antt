-- ===== src/Cache/Mirror/Laws.antt =====
-- The cache follows the API server: its jobs hold the tasks of the pods that pass the filter.
use kube_arbitrator.Common.{
  ◌≡◌, refl, sym, ap, ◌∙◌, inl, inr, ite, false, Option, none, some, String, string_key, ok, ok_inj,
  arith, Bool-cases, text_is_empty, if◌then◌else◌, subst, ◌>>=◌, >>=-eq-ok,
}
use kube_arbitrator.Common.Map.{Map, lookup, insert, remove, lookup-insert, lookup-remove}
use kube_arbitrator.Api.Objects.{Pod}
use kube_arbitrator.Api.TaskInfo.{TaskInfo, new_task_info}
use kube_arbitrator.Cache.Store.{Cache, pod_object}
use kube_arbitrator.Cache.Pods.{
  is_watched, add_pod, delete_pod, update_pod, handle_add_pod, handle_update_pod, handle_delete_pod,
}
use kube_arbitrator.Cache.Sound.{IsSound, empty_cache-IsSound}
use kube_arbitrator.Cache.Keep.Pods.{add_pod-Keeps, delete_pod-IsSound}
use kube_arbitrator.Cache.Mirror.{
  added, updated, deleted, Filtering, pod_handler, on_pod, Followed, started, node_noted,
  pod_created, pod_changed, pod_removed,
}
use kube_arbitrator.Cache.Reach.{step-Keeps}
use kube_arbitrator.Cache.Mirror.Nodes.{node_event-jobs, node_event-free}
use kube_arbitrator.Cache.Mirror.Tasks.{task_at, add_pod-task_at, delete_pod-task_at}

-- The task that a job should hold for a pod: the one that `NewTaskInfo` makes, if the pod passes the
-- filter and the job is its controller.
unfoldable pub shown : String → String → Option Pod → Option TaskInfo
unfolding new_task_info is_watched
shown scheduler_name id none = none
shown scheduler_name id (some p) =
    ite (string_key.dec (new_task_info p).job id)
      (if is_watched scheduler_name (pod_object p) then some (new_task_info p) else none) none

module _ (filtering : Filtering) (scheduler_name : String) where
  -- What a notice leads to.
  on_pod-added :
      (sc : Cache) (p : Pod)
      → on_pod filtering scheduler_name sc (added (pod_object p))
        ≡ (if is_watched scheduler_name (pod_object p) then add_pod sc p else ok sc)
  unfolding on_pod pod_handler handle_add_pod
  on_pod-added sc p =
      ground (arith, filtering.deliver_added (is_watched scheduler_name) (pod_object p))

  on_pod-deleted :
      (sc : Cache) (p : Pod)
      → on_pod filtering scheduler_name sc (deleted (pod_object p))
        ≡ (if is_watched scheduler_name (pod_object p) then delete_pod sc p else ok sc)
  unfolding on_pod pod_handler handle_delete_pod
  on_pod-deleted sc p =
      ground (arith, filtering.deliver_deleted (is_watched scheduler_name) (pod_object p))

  -- A change is a deletion, if the pod passed the filter, and then an addition, if it passes now.
  on_pod-updated :
      (sc : Cache) (p q : Pod)
      → on_pod filtering scheduler_name sc (updated (pod_object p) (pod_object q)) ≡ (
          (if is_watched scheduler_name (pod_object p) then delete_pod sc p else ok sc) >>= λ sc'.
          if is_watched scheduler_name (pod_object q) then add_pod sc' q else ok sc')
  unfolding on_pod pod_handler handle_delete_pod handle_add_pod handle_update_pod update_pod
  on_pod-updated sc p q =
      ground
        (arith, filtering.deliver_updated (is_watched scheduler_name) (pod_object p) (pod_object q))

  -- The invariant: the cache is sound, and its jobs hold what they should for the pods.
  record Mirrors (pods : Map String Pod) (sc : Cache) : Type 0 where
    sound : IsSound sc
    held :
        (id u : String)
        → text_is_empty id ≡ false
        → task_at sc id u ≡ shown scheduler_name id (lookup u pods)

  Mirrors-same :
      (pods pods' : Map String Pod) (sc : Cache)
      → ((u : String) → lookup u pods ≡ lookup u pods')
      → Mirrors pods sc
      → Mirrors pods' sc
  Mirrors-same pods pods' sc same m = record {
    sound = m.sound;
    held = λ id u n. m.held id u n ∙ ap (shown scheduler_name id) (same u);
  }

  -- A pod that is gone.
  taken_out :
      (pods : Map String Pod) (sc sc' : Cache) (p : Pod)
      → Mirrors pods sc
      → lookup p.uid pods ≡ some p
      → (if is_watched scheduler_name (pod_object p) then delete_pod sc p else ok sc) ≡ ok sc'
      → Mirrors (remove p.uid pods) sc'
  unfolding shown new_task_info
  taken_out pods sc sc' p m found h = elim (Bool-cases (is_watched scheduler_name (pod_object p))) [
    | inl e ↦
        let (sc₁, d, s) = delete_pod-IsSound sc p m.sound in
        record {
          sound = subst IsSound (ok_inj (sym d ∙ rw e at h)) s;
          held = λ id u n.
              delete_pod-task_at sc sc' p id u m.sound n (rw e at h)
              ∙ ground (arith, m.held id u n, lookup-remove p.uid u pods, found);
        }
    | inr e ↦ record {
      sound = subst IsSound (ok_inj (rw e at h)) m.sound;
      held = λ id u n.
          ap (λ c. task_at c id u) (ok_inj (sym (rw e at h)))
          ∙ (m.held id u n ∙ ground (arith, lookup-remove p.uid u pods, found));
    }
  ]

  -- A pod that is new.
  taken_in :
      (pods : Map String Pod) (sc sc' : Cache) (p : Pod)
      → Mirrors pods sc
      → lookup p.uid pods ≡ none
      → (if is_watched scheduler_name (pod_object p) then add_pod sc p else ok sc) ≡ ok sc'
      → Mirrors (insert p.uid p pods) sc'
  unfolding shown new_task_info
  taken_in pods sc sc' p m absent h = elim (Bool-cases (is_watched scheduler_name (pod_object p))) [
    | inl e ↦ record {
      sound = add_pod-Keeps sc p m.sound sc' (rw e at h);
      held = λ id u n.
          add_pod-task_at sc sc' p id u m.sound n (rw e at h)
          ∙ ground (arith, m.held id u n, lookup-insert p.uid u p pods, absent);
    }
    | inr e ↦ record {
      sound = subst IsSound (ok_inj (rw e at h)) m.sound;
      held = λ id u n.
          ap (λ c. task_at c id u) (ok_inj (sym (rw e at h)))
          ∙ (m.held id u n ∙ ground (arith, lookup-insert p.uid u p pods, absent));
    }
  ]

  Followed-Mirrors :
      (pods : Map String Pod) (sc : Cache)
      → Followed filtering scheduler_name pods sc
      → Mirrors pods sc
  unfolding lookup task_at shown
  Followed-Mirrors _ _ started = record { sound = empty_cache-IsSound; held = λ id u n. refl }
  Followed-Mirrors _ _ (node_noted pods sc sc' e f node h) =
      let m = Followed-Mirrors pods sc f in
      record {
        sound = step-Keeps sc e (node_event-free sc e node) m.sound sc' h;
        held = λ id u n. rw (node_event-jobs sc e node sc' h) (m.held id u n);
      }
  Followed-Mirrors _ _ (pod_created pods sc sc' p f absent h) =
      taken_in pods sc sc' p (Followed-Mirrors pods sc f) absent (sym (on_pod-added sc p) ∙ h)
  Followed-Mirrors _ _ (pod_changed pods sc sc' p q f found same h) =
      let (sc₁, out, in_) =
        >>=-eq-ok (if is_watched scheduler_name (pod_object p) then delete_pod sc p else ok sc) _
          (sym (on_pod-updated sc p q) ∙ h) in
      Mirrors-same _ _ sc'
        (λ u. ground (
          arith,
          lookup-insert q.uid u q (remove p.uid pods),
          lookup-insert q.uid u q pods,
          lookup-remove p.uid u pods,
        ))
        (taken_in (remove p.uid pods) sc₁ sc' q
          (taken_out pods sc sc₁ p (Followed-Mirrors pods sc f) found out)
          (ground (arith, lookup-remove p.uid q.uid pods)) in_)
  Followed-Mirrors _ _ (pod_removed pods sc sc' p f found h) =
      taken_out pods sc sc' p (Followed-Mirrors pods sc f) found (sym (on_pod-deleted sc p) ∙ h)

  -- From the empty cache, after any sequence of pods that are created, changed and removed, with
  -- nodes that come, change and go in between, in which no handler panics: each job of the cache with
  -- a name holds under each UID exactly the task that `NewTaskInfo` makes of the API server's pod with
  -- that UID, if that pod passes the informer's filter now and the job is its controller, and else
  -- nothing.
  pub Followed-task_at :
      (pods : Map String Pod) (sc : Cache) (id u : String)
      → Followed filtering scheduler_name pods sc
      → text_is_empty id ≡ false
      → task_at sc id u ≡ shown scheduler_name id (lookup u pods)
  Followed-task_at pods sc id u f n = (Followed-Mirrors pods sc f).held id u n
