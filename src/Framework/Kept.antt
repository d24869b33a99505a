-- ===== src/Framework/Kept.antt =====
-- The session's calls keep the cache sound.
use kube_arbitrator.Common.{
  ◌≡◌, refl, sym, ap, subst, List, [], ◌∷◌, Option, none, some, String, Outcome, ok, ◌>>=◌,
  >>=-eq-ok, ok_inj,
}
use kube_arbitrator.Api.Status.{Error}
use kube_arbitrator.Api.TaskInfo.{TaskInfo}
use kube_arbitrator.Cache.Store.{logged}
use kube_arbitrator.Cache.Calls.{evict}
use kube_arbitrator.Cache.Sound.{IsSound}
use kube_arbitrator.Cache.Keep.Calls.{bind-Keeps, evict-Keeps}
use kube_arbitrator.Plugins.Drf
use kube_arbitrator.Framework.Session
use kube_arbitrator.Framework.Session.{EventHandler, drf_handler}
use kube_arbitrator.Framework.Calls
use kube_arbitrator.Framework.Commit
use kube_arbitrator.Framework.Frame.{IsFrame, SameNode, SameNode-IsNodeFrame}
use kube_arbitrator.Framework.Frame.Dispatch.{allocate-frame}

module _ (fl : Drf.Float64) where
  abbrev KeepsSound : Session.Session fl → Session.Session fl → Type 0
  KeepsSound s t = IsSound s.cache → IsSound t.cache

  sound-IsFrame : IsFrame fl SameNode KeepsSound
  sound-IsFrame = record {
    same = λ s h. h;
    trans = λ s t u f g h. g (f h);
    job = λ s id job job' at e. subst IsSound (sym (Commit.put_job-cache fl s id job'));
    node = λ s name ni ni' at e. subst IsSound (sym (Commit.put_node-cache fl s name ni'));
    drf = λ s d h. h;
  }

  -- Where `Allocate` returns, with or without binding the tasks of the job, the cache is still sound.
  pub allocate-IsSound :
      (ssn ssn' : Session.Session fl) (task : TaskInfo) (hostname : String)
      → IsSound ssn.cache
      → Calls.allocate fl ssn task hostname ≡ ok ssn'
      → IsSound ssn'.cache
  allocate-IsSound ssn ssn' task hostname s h =
      allocate-frame fl SameNode KeepsSound sound-IsFrame SameNode-IsNodeFrame.shown
        (λ s task sc e b sound. bind-Keeps s.cache task task.node_name sound sc (ap logged b))
        SameNode-IsNodeFrame ssn ssn' task hostname h s

  abbrev SameButDrf : Session.Session fl → Session.Session fl → Type 0
  SameButDrf s t = (t.cache ≡ s.cache) × (t.jobs ≡ s.jobs)

  fire_preempt-SameButDrf :
      (ssn ssn' : Session.Session fl) (ehs : List EventHandler) (preemptor preemptee : TaskInfo)
      → Calls.fire_preempt fl ssn ehs preemptor preemptee ≡ ok ssn'
      → SameButDrf ssn ssn'
  unfolding Calls.fire_preempt
  fire_preempt-SameButDrf ssn ssn' [] p q h = subst (SameButDrf ssn) (ok_inj h) (refl, refl)
  fire_preempt-SameButDrf ssn ssn' (drf_handler ∷ ehs) p q h =
      let (grown, a, h₁) = >>=-eq-ok (Drf.on_allocate fl ssn.drf p) _ h in
      let (drf, e, rest) = >>=-eq-ok (Drf.on_evict fl grown q) _ h₁ in
      fire_preempt-SameButDrf (record ssn { drf = drf }) ssn' ehs p q rest

  -- `Preempt` after the cache was called.
  evicted-SameButDrf :
      (ssn ssn' : Session.Session fl) (preemptor preemptee : TaskInfo) (e e' : Option Error)
      → ◌≡◌ {A = Outcome (Session.Session fl × Option Error)}
          (elim e as (λ o. Outcome (Session.Session fl × Option Error)) [
            | some err ↦ ok (ssn, some err)
            | none ↦ Calls.fire_preempt fl ssn ssn.event_handlers preemptor preemptee >>= λ d.
                ok (d, none)
          ])
          (ok (ssn', e'))
      → SameButDrf ssn ssn'
  evicted-SameButDrf ssn ssn' p q (some err) e' h =
      subst (SameButDrf ssn) (ap (λ r. r.0) (ok_inj h)) (refl, refl)
  evicted-SameButDrf ssn ssn' p q none e' h =
      let (d, f, rest) = >>=-eq-ok (Calls.fire_preempt fl ssn ssn.event_handlers p q) _ h in
      subst (SameButDrf ssn) (ap (λ r. r.0) (ok_inj rest))
        (fire_preempt-SameButDrf ssn d ssn.event_handlers p q f)

  -- Where `Preempt` returns, with an error or without, the cache is still sound and the session's
  -- jobs are as they were.
  pub preempt-IsSound :
      (ssn ssn' : Session.Session fl) (preemptor preemptee : TaskInfo) (e : Option Error)
      → Calls.preempt fl ssn preemptor preemptee ≡ ok (ssn', e)
      → (IsSound ssn.cache → IsSound ssn'.cache) × (ssn'.jobs ≡ ssn.jobs)
  unfolding Calls.preempt
  preempt-IsSound ssn ssn' p q e h =
      let ((sc, e₁), call, rest) = >>=-eq-ok (evict ssn.cache q) _ h in
      let same = evicted-SameButDrf (record ssn { cache = sc }) ssn' p q e₁ e rest in
      (λ s. subst IsSound (sym same.0) (evict-Keeps ssn.cache q s sc (ap logged call)), same.1)
