-- ===== src/Controller/Race/Ends.antt =====
-- The goroutines that create pods can always come to their end.
use kube_arbitrator.Common.{
  ℕ, zero, suc, ◌<◌, ◌≡◌, inl, inr, refl, Bool, true, false, List, [], ◌∷◌, some, arith, Bool-cases,
}
use kube_arbitrator.Common.Lists.{get_elem?}
use kube_arbitrator.Controller.Race.{
  Goroutine, starting, failing, loaded, created, appended, Race, is_done, all_done, advance, step,
  run_race,
}
use kube_arbitrator.Controller.Race.Counts.{sum_of, sum_of-set, steps_left}

-- A goroutine that is not done makes a step that brings it nearer to its end.
advance-steps_left :
    (fails : ℕ → Bool) (r : Race) (i : ℕ) (g : Goroutine)
    → get_elem? r.goroutines i ≡ some g
    → is_done g ≡ false
    → sum_of steps_left (advance fails r i g).goroutines < sum_of steps_left r.goroutines
unfolding advance
advance-steps_left fails r i starting at d = elim (Bool-cases (fails i)) [
  | inl e ↦
      rw (e, advance) (omega (arith, sum_of-set steps_left r.goroutines i starting failing at))
  | inr e ↦
      rw (e, advance) (omega (arith, sum_of-set steps_left r.goroutines i starting created at))
]
advance-steps_left fails r i failing at d =
    omega (arith, sum_of-set steps_left r.goroutines i failing (loaded r.errs) at)
advance-steps_left fails r i (loaded n) at d =
    omega (arith, sum_of-set steps_left r.goroutines i (loaded n) appended at)
advance-steps_left fails r i created at d = cc
advance-steps_left fails r i appended at d = cc

not_done :
    (gs : List Goroutine)
    → all_done gs ≡ false
    → (i : ℕ) × (g : Goroutine) × (get_elem? gs i ≡ some g) × (is_done g ≡ false)
unfolding all_done
not_done [] h = cc
not_done (g ∷ gs) h = elim (Bool-cases (is_done g)) [
  | inl e ↦ let (i, k, at, d) = not_done gs (rw (e, all_done) at h) in (suc i, k, at, d)
  | inr e ↦ (0, g, refl, e)
]

finishes :
    (fails : ℕ → Bool) (m : ℕ) (r : Race)
    → sum_of steps_left r.goroutines < m
    → (order : List ℕ) × (all_done (run_race fails r order).goroutines ≡ true)
unfolding run_race step
finishes fails zero r h = absurd (omega arith)
finishes fails (suc m) r h = elim (Bool-cases (all_done r.goroutines)) [
  | inl d ↦ ([], d)
  | inr n ↦
      let (i, g, at, d) = not_done r.goroutines n in
      let less = advance-steps_left fails r i g at d in
      let (order, done) = finishes fails m (advance fails r i g) (omega (arith, less, h)) in
      (i ∷ order, rw (at, run_race, step) done)
]

-- From every state that a run has reached, the goroutines can all come to their end.
pub race-finishes :
    (fails : ℕ → Bool) (r : Race)
    → (order : List ℕ) × (all_done (run_race fails r order).goroutines ≡ true)
race-finishes fails r = finishes fails (suc (sum_of steps_left r.goroutines)) r (omega arith)
