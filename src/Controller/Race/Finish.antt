-- ===== src/Controller/Race/Finish.antt =====
-- What every run of the goroutines that create pods leaves, whatever their order.
use kube_arbitrator.Common.{
  ℕ, zero, suc, ◌+◌, ◌≤◌, ◌<◌, ◌≡◌, ◌⊎◌, ◌↔◌, inl, inr, refl, sym, ap, ◌∙◌, subst, Bool, true,
  false, List, [], ◌∷◌, ◌++◌, some, if◌then◌else◌, arith, Bool-cases, Option-cases,
}
use kube_arbitrator.Common.Lists.{length, get_elem?, set, length-append}
use mathlib.Core.List.{Perm}
use kube_arbitrator.Controller.Race.Calls.{indices, run_race-calls}
use kube_arbitrator.Controller.Race.{
  Goroutine, starting, failing, loaded, created, appended, Race, all_done, start_all, advance, step,
  run_race, new_race,
}
use kube_arbitrator.Controller.Race.Counts.{
  sum_of, sum_of-set, is_starting, is_appended, Fits, AllFit, AllFit-more, fit_at, fit_set,
}

-- The invariant: `Create` was called as many times as goroutines have started, and `errs` holds no
-- more errors than were appended, and one at least once any was.
pub record Holds (fails : ℕ → Bool) (n : ℕ) (r : Race) : Type 0 where
  pub called : length r.calls + sum_of is_starting r.goroutines ≡ n
  pub size : length r.goroutines ≡ n
  pub most : r.errs ≤ sum_of is_appended r.goroutines
  pub some_error : (sum_of is_appended r.goroutines ≡ 0) ⊎ (0 < r.errs)
  pub fit : AllFit fails (sum_of is_appended r.goroutines) 0 r.goroutines

length-set : {A : Type 0} (xs : List A) (i : ℕ) (x : A) → length (set xs i x) ≡ length xs
length-set [] i x = refl
length-set (y ∷ xs) zero x = refl
length-set (y ∷ xs) (suc i) x = ap suc (length-set xs i x)

-- A step that leaves the errors alone keeps the invariant.
quiet :
    (fails : ℕ → Bool) (n : ℕ) (r : Race) (i : ℕ) (g h : Goroutine) (calls : List ℕ)
    → Holds fails n r
    → get_elem? r.goroutines i ≡ some g
    → is_appended g ≡ 0
    → is_appended h ≡ 0
    → length calls + is_starting h ≡ length r.calls + is_starting g
    → Fits fails (sum_of is_appended r.goroutines) i h
    → Holds fails n (record r { calls = calls; goroutines = set r.goroutines i h })
quiet fails n r i g h calls k at ag ah more fit =
    let starts = sum_of-set is_starting r.goroutines i g h at in
    let appends = sum_of-set is_appended r.goroutines i g h at in
    let same : sum_of is_appended r.goroutines ≡ sum_of is_appended (set r.goroutines i h) =
      omega (arith, appends, ag, ah) in
    record {
      called = omega (arith, k.called, starts, more);
      size = length-set r.goroutines i h ∙ k.size;
      most = subst (λ m. r.errs ≤ m) same k.most;
      some_error = subst (λ m. (m ≡ 0) ⊎ (0 < r.errs)) same k.some_error;
      fit =
          subst (λ m. AllFit fails m 0 (set r.goroutines i h)) same
            (fit_set fails (sum_of is_appended r.goroutines) i r.goroutines h k.fit fit);
    }

-- Writing the slice back keeps it.
stored :
    (fails : ℕ → Bool) (n : ℕ) (r : Race) (i m : ℕ)
    → Holds fails n r
    → get_elem? r.goroutines i ≡ some (loaded m)
    → Holds fails n (record r { errs = suc m; goroutines = set r.goroutines i appended })
stored fails n r i m k at =
    let starts = sum_of-set is_starting r.goroutines i (loaded m) appended at in
    let appends = sum_of-set is_appended r.goroutines i (loaded m) appended at in
    let gs = set r.goroutines i appended in
    let before : Fits fails (sum_of is_appended r.goroutines) i (loaded m) =
      fit_at fails (sum_of is_appended r.goroutines) i r.goroutines (loaded m) k.fit at in
    let le : sum_of is_appended r.goroutines ≤ sum_of is_appended gs = omega (arith, appends) in
    record {
      called = omega (arith, k.called, starts);
      size = length-set r.goroutines i appended ∙ k.size;
      most = omega (arith, appends, before.1);
      some_error = inr (omega arith);
      fit =
          fit_set fails (sum_of is_appended gs) i r.goroutines appended
            (AllFit-more fails (sum_of is_appended r.goroutines) (sum_of is_appended gs) 0
              r.goroutines le k.fit)
            before.0;
    }

advance-Holds :
    (fails : ℕ → Bool) (n : ℕ) (r : Race) (i : ℕ) (g : Goroutine)
    → Holds fails n r
    → get_elem? r.goroutines i ≡ some g
    → Holds fails n (advance fails r i g)
unfolding advance
advance-Holds fails n r i starting k at =
    let more : length (r.calls ++ i ∷ []) ≡ length r.calls + 1 = length-append r.calls (i ∷ []) in
    elim (Bool-cases (fails i)) [
      | inl e ↦
          rw (e, advance)
            (quiet fails n r i starting failing (r.calls ++ i ∷ []) k at refl refl
              (omega (arith, more)) e)
      | inr e ↦
          rw (e, advance)
            (quiet fails n r i starting created (r.calls ++ i ∷ []) k at refl refl
              (omega (arith, more)) e)
    ]
advance-Holds fails n r i failing k at =
    let before : fails i ≡ true =
      fit_at fails (sum_of is_appended r.goroutines) i r.goroutines failing k.fit at in
    quiet fails n r i failing (loaded r.errs) r.calls k at refl refl refl (before, k.most)
advance-Holds fails n r i (loaded m) k at = stored fails n r i m k at
advance-Holds fails n r i created k at = k
advance-Holds fails n r i appended k at = k

run_race-Holds :
    (fails : ℕ → Bool) (n : ℕ) (r : Race) (order : List ℕ)
    → Holds fails n r
    → Holds fails n (run_race fails r order)
unfolding run_race step
run_race-Holds fails n r [] k = k
run_race-Holds fails n r (i ∷ order) k = elim (Option-cases (get_elem? r.goroutines i)) [
  | inl e ↦ rw (e, run_race, step) (run_race-Holds fails n r order k)
  | inr (g, e) ↦
      rw (e, run_race, step)
        (run_race-Holds fails n (advance fails r i g) order (advance-Holds fails n r i g k e))
]

-- How many of the creations `i`, …, `i + n - 1` are refused.
abbrev pub refusals : (ℕ → Bool) → ℕ → ℕ → ℕ
refusals fails i zero = 0
refusals fails i (suc n) = (if fails i then 1 else 0) + refusals fails (suc i) n

new_race-Holds : (fails : ℕ → Bool) (n : ℕ) → Holds fails n (new_race n)
unfolding new_race start_all
new_race-Holds fails n = record {
  called = starts n;
  size = sizes n;
  most = omega arith;
  some_error = inl (none_appended n);
  fit = fits n 0 (sum_of is_appended (start_all n));
}
  where
    starts : (n : ℕ) → 0 + sum_of is_starting (start_all n) ≡ n
    starts zero = omega arith
    starts (suc n) = omega (arith, starts n)

    sizes : (n : ℕ) → length (start_all n) ≡ n
    sizes zero = refl
    sizes (suc n) = ap suc (sizes n)

    none_appended : (n : ℕ) → sum_of is_appended (start_all n) ≡ 0
    none_appended zero = refl
    none_appended (suc n) = omega (arith, none_appended n)

    fits : (n i most : ℕ) → AllFit fails most i (start_all n)
    fits zero i most = tt
    fits (suc n) i most = (tt, fits n (suc i) most)

-- Once all are done, the appends are the refusals.
done-counts :
    (fails : ℕ → Bool) (most i : ℕ) (gs : List Goroutine)
    → AllFit fails most i gs
    → all_done gs ≡ true
    → (sum_of is_starting gs ≡ 0) × (sum_of is_appended gs ≡ refusals fails i (length gs))
unfolding all_done
done-counts fails most i [] h d = (refl, refl)
done-counts fails most i (starting ∷ gs) h d = cc
done-counts fails most i (failing ∷ gs) h d = cc
done-counts fails most i (loaded n ∷ gs) h d = cc
done-counts fails most i (created ∷ gs) h d =
    let (a, b) = done-counts fails most (suc i) gs h.1 d in
    let e : fails i ≡ false = h.0 in (omega (arith, a), rw e (omega (arith, b)))
done-counts fails most i (appended ∷ gs) h d =
    let (a, b) = done-counts fails most (suc i) gs h.1 d in
    let e : fails i ≡ true = h.0 in (omega (arith, a), rw e (omega (arith, b)))

-- Whatever the order of the goroutines' steps, once all are done `Create` was called exactly once for each
-- index, `errs` holds no more errors than there were refusals, since appends can be
-- lost, and it is empty exactly where nothing was refused.
pub run_race_lem :
    (fails : ℕ → Bool) (n : ℕ) (order : List ℕ)
    → let r = run_race fails (new_race n) order in
      all_done r.goroutines ≡ true
      → Perm r.calls (indices 0 n)
        × (r.errs ≤ refusals fails 0 n)
        × ((r.errs ≡ 0) ↔ (refusals fails 0 n ≡ 0))
run_race_lem fails n order d =
    let r = run_race fails (new_race n) order in
    let k = run_race-Holds fails n (new_race n) order (new_race-Holds fails n) in
    let (_, b) = done-counts fails (sum_of is_appended r.goroutines) 0 r.goroutines k.fit d in
    let b' : sum_of is_appended r.goroutines ≡ refusals fails 0 n =
      b ∙ ap (refusals fails 0) k.size in
    (
      run_race-calls fails n order d,
      omega (arith, b', k.most),
      (
        λ z. elim k.some_error [ inl e ↦ sym b' ∙ e | inr l ↦ absurd (omega (arith, l, z)) ],
        λ z. omega (arith, b', k.most, z),
      ),
    )
