-- ===== src/Controller/Race.antt =====
-- The goroutines of `manageQueueJob` that create pods. They share the slice `errs` without a lock: a
-- goroutine whose creation failed reads the slice and later writes it back with one more element, and
-- others may run between the two. A slice is read, and written, in one piece.
pub mod Counts
pub mod Calls
pub mod Finish
pub mod Ends
use kube_arbitrator.Common.{
  ℕ, zero, suc, ◌+◌, ◌≤◌, ◌<◌, Bool, true, false, ◌&&◌, List, [], ◌∷◌, ◌++◌, Option, none, some,
  if◌then◌else◌,
}
use kube_arbitrator.Common.Lists.{get_elem?, set}

-- Where a goroutine stands. `loaded n` has read `errs` with `n` elements.
pub data Goroutine : Type 0 where
  starting failing : Goroutine
  loaded : ℕ → Goroutine
  created appended : Goroutine

-- The indices for which `Create` was called, in that order, and the length of `errs`.
pub record Race : Type 0 where
  pub calls : List ℕ
  pub errs : ℕ
  pub goroutines : List Goroutine

-- Whether a goroutine has called `wait.Done`.
abbrev pub is_done : Goroutine → Bool
is_done created = true
is_done appended = true
is_done g = false

-- `wait.Wait` returns.
unfoldable pub all_done : List Goroutine → Bool
all_done [] = true
all_done (g ∷ gs) = let rest = all_done gs in if is_done g then rest else false

-- The loop that starts them.
unfoldable pub start_all : ℕ → List Goroutine
start_all zero = []
start_all (suc n) = starting ∷ start_all n

-- The next step of goroutine `i`, where `fails` says which creations the API server refuses.
unfoldable pub advance : (ℕ → Bool) → Race → ℕ → Goroutine → Race
advance fails r i starting = record r {
  calls = r.calls ++ i ∷ [];
  goroutines = set r.goroutines i (if fails i then failing else created);
}
advance fails r i failing = record r { goroutines = set r.goroutines i (loaded r.errs) }
advance fails r i (loaded n) = record r { errs = suc n; goroutines = set r.goroutines i appended }
advance fails r i created = r
advance fails r i appended = r

unfoldable pub step : (ℕ → Bool) → Race → ℕ → Race
unfolding advance
step fails r i = elim (get_elem? r.goroutines i) [ none ↦ r | some g ↦ advance fails r i g ]

-- A run: the goroutines that make a step, one after the other.
unfoldable pub run_race : (ℕ → Bool) → Race → List ℕ → Race
unfolding step
run_race fails r [] = r
run_race fails r (i ∷ is) = run_race fails (step fails r i) is

unfoldable pub new_race : ℕ → Race
unfolding start_all
new_race n = record { calls = []; errs = 0; goroutines = start_all n }
