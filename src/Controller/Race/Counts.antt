-- ===== src/Controller/Race/Counts.antt =====
-- Sums over the goroutines that create pods, and what a goroutine's state says of the past.
use kube_arbitrator.Common.{
  ℕ, zero, suc, ◌+◌, ◌≤◌, ◌≡◌, subst, Bool, true, false, List, [], ◌∷◌, some, arith,
}
use kube_arbitrator.Common.Lists.{get_elem?, set}
use kube_arbitrator.Controller.Race.{Goroutine, starting, failing, loaded, created, appended}

-- A sum over the goroutines.
abbrev pub sum_of : (Goroutine → ℕ) → List Goroutine → ℕ
sum_of f [] = 0
sum_of f (g ∷ gs) = f g + sum_of f gs

pub sum_of-set :
    (f : Goroutine → ℕ) (gs : List Goroutine) (i : ℕ) (g h : Goroutine)
    → get_elem? gs i ≡ some g
    → sum_of f (set gs i h) + f g ≡ sum_of f gs + f h
sum_of-set f [] i g h at = cc
sum_of-set f (k ∷ gs) zero g h at = let e : f k ≡ f g = ground (arith, at) in omega (arith, e)
sum_of-set f (k ∷ gs) (suc i) g h at = omega (arith, sum_of-set f gs i g h at)

abbrev pub is_starting : Goroutine → ℕ
is_starting starting = 1
is_starting g = 0

abbrev pub is_appended : Goroutine → ℕ
is_appended appended = 1
is_appended g = 0

abbrev pub steps_left : Goroutine → ℕ
steps_left starting = 3
steps_left failing = 2
steps_left (loaded n) = 1
steps_left g = 0

-- A goroutine's state fits with the answer of the API server and with what `errs` has held.
abbrev pub Fits : (ℕ → Bool) → ℕ → ℕ → Goroutine → Type 0
Fits fails most i starting = Unit
Fits fails most i failing = fails i ≡ true
Fits fails most i (loaded n) = (fails i ≡ true) × (n ≤ most)
Fits fails most i created = fails i ≡ false
Fits fails most i appended = fails i ≡ true

abbrev pub AllFit : (ℕ → Bool) → ℕ → ℕ → List Goroutine → Type 0
AllFit fails most i [] = Unit
AllFit fails most i (g ∷ gs) = Fits fails most i g × AllFit fails most (suc i) gs

Fits-more :
    (fails : ℕ → Bool) (a b i : ℕ) (g : Goroutine) → a ≤ b → Fits fails a i g → Fits fails b i g
Fits-more fails a b i starting le h = tt
Fits-more fails a b i failing le h = h
Fits-more fails a b i (loaded n) le h = (h.0, omega (arith, h.1))
Fits-more fails a b i created le h = h
Fits-more fails a b i appended le h = h

pub AllFit-more :
    (fails : ℕ → Bool) (a b i : ℕ) (gs : List Goroutine)
    → a ≤ b
    → AllFit fails a i gs
    → AllFit fails b i gs
AllFit-more fails a b i [] le h = tt
AllFit-more fails a b i (g ∷ gs) le h =
    (Fits-more fails a b i g le h.0, AllFit-more fails a b (suc i) gs le h.1)

AllFit-at :
    (fails : ℕ → Bool) (most k i : ℕ) (gs : List Goroutine) (g : Goroutine)
    → AllFit fails most k gs
    → get_elem? gs i ≡ some g
    → Fits fails most (k + i) g
AllFit-at fails most k i [] g h at = cc
AllFit-at fails most k zero (x ∷ gs) g h at =
    let e : x ≡ g = ground (arith, at) in
    let z : k ≡ k + 0 = omega arith in
    subst (λ j. Fits fails most j g) z (subst (Fits fails most k) e h.0)
AllFit-at fails most k (suc i) (x ∷ gs) g h at =
    let z : suc k + i ≡ k + suc i = omega arith in
    subst (λ j. Fits fails most j g) z (AllFit-at fails most (suc k) i gs g h.1 at)

AllFit-set :
    (fails : ℕ → Bool) (most k i : ℕ) (gs : List Goroutine) (g : Goroutine)
    → AllFit fails most k gs
    → Fits fails most (k + i) g
    → AllFit fails most k (set gs i g)
AllFit-set fails most k i [] g h f = tt
AllFit-set fails most k zero (x ∷ gs) g h f =
    let z : k + 0 ≡ k = omega arith in (subst (λ j. Fits fails most j g) z f, h.1)
AllFit-set fails most k (suc i) (x ∷ gs) g h f =
    let z : k + suc i ≡ suc k + i = omega arith in
    (h.0, AllFit-set fails most (suc k) i gs g h.1 (subst (λ j. Fits fails most j g) z f))

pub fit_at :
    (fails : ℕ → Bool) (most i : ℕ) (gs : List Goroutine) (g : Goroutine)
    → AllFit fails most 0 gs
    → get_elem? gs i ≡ some g
    → Fits fails most i g
fit_at fails most i gs g h at =
    let z : 0 + i ≡ i = omega arith in
    subst (λ j. Fits fails most j g) z (AllFit-at fails most 0 i gs g h at)

pub fit_set :
    (fails : ℕ → Bool) (most i : ℕ) (gs : List Goroutine) (g : Goroutine)
    → AllFit fails most 0 gs
    → Fits fails most i g
    → AllFit fails most 0 (set gs i g)
fit_set fails most i gs g h f =
    let z : i ≡ 0 + i = omega arith in
    AllFit-set fails most 0 i gs g h (subst (λ j. Fits fails most j g) z f)
