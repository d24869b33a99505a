-- ===== src/Controller/Counted.antt =====
-- The pods that count towards the replicas, and the int32 arithmetic on them.
use kube_arbitrator.Common.{
  ℕ, ◌+◌, ◌-◌, ◌≤◌, ◌<◌, ◌≡◌, inl, inr, ap, ◌∙◌, List, [], ◌∷◌, ◌++◌, if◌then◌else◌, arith,
  Bool-cases, ltb,
}
use kube_arbitrator.Common.Lists.{length, All}
use kube_arbitrator.Api.Objects.{Pod, PodPhase, pod_pending, pod_running, pod_succeeded}
use kube_arbitrator.Controller.{same_phase, filter_pods, int32, sub_int32, positive_int32}

-- The pods that count: pending, running and succeeded.
unfoldable pub counted : List Pod → ℕ
unfolding filter_pods
counted pods =
    filter_pods pods pod_pending + (filter_pods pods pod_running + filter_pods pods pod_succeeded)

one_phase :
    (p : PodPhase)
    → (if same_phase pod_pending p then 1 else 0)
        + ((if same_phase pod_running p then 1 else 0)
            + (if same_phase pod_succeeded p then 1 else 0))
      ≤ 1
unfolding same_phase
one_phase PodPhase.pod_pending = omega arith
one_phase PodPhase.pod_running = omega arith
one_phase PodPhase.pod_succeeded = omega arith
one_phase PodPhase.pod_failed = omega arith
one_phase PodPhase.pod_unknown = omega arith
one_phase (PodPhase.other_phase s) = omega arith

filter_pods-cons :
    (p : Pod) (ps : List Pod) (phase : PodPhase)
    → filter_pods (p ∷ ps) phase
      ≡ (if same_phase phase p.phase then 1 else 0) + filter_pods ps phase
unfolding filter_pods
filter_pods-cons p ps phase = elim (Bool-cases (same_phase phase p.phase)) [
  | inl e ↦ rw (e, filter_pods) (omega arith)
  | inr e ↦ rw (e, filter_pods) (omega arith)
]

pub counted_le : (pods : List Pod) → counted pods ≤ length pods
unfolding counted filter_pods
counted_le [] = omega arith
counted_le (p ∷ ps) = omega (
  arith,
  counted_le ps,
  one_phase p.phase,
  filter_pods-cons p ps pod_pending,
  filter_pods-cons p ps pod_running,
  filter_pods-cons p ps pod_succeeded,
)

-- New pods count as pending.
pub counted-append :
    (pods new : List Pod)
    → All (λ (p : Pod). p.phase ≡ pod_pending) new
    → counted (new ++ pods) ≡ length new + counted pods
unfolding counted filter_pods same_phase
counted-append pods [] h = omega arith
counted-append pods (p ∷ new) h =
    let e = h.0 in let ih = counted-append pods new h.1 in rw e (omega (arith, ih))

pub int32_difference :
    (a p r s : ℕ)
    → a < 2147483648
    → p + (r + s) < 2147483648
    → (positive_int32 (sub_int32 (sub_int32 (sub_int32 a (int32 p)) (int32 r)) (int32 s))
        ≡ ltb (p + (r + s)) a)
      × (p + (r + s) ≤ a
          → sub_int32 (sub_int32 (sub_int32 a (int32 p)) (int32 r)) (int32 s) ≡ a - (p + (r + s)))
int32_difference a p r s h k =
    let e₁ : int32 p ≡ p = omega arith in
    let e₂ : int32 r ≡ r = omega arith in
    let e₃ : int32 s ≡ s = omega arith in
    let d : sub_int32 (sub_int32 (sub_int32 a p) r) s ≡ sub_int32 a (p + (r + s)) = omega arith in
    (rw (e₁, e₂, e₃) (ap positive_int32 d ∙ ground arith), λ le. rw (e₁, e₂, e₃) (d ∙ omega arith))
