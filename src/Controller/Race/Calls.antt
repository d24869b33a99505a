-- ===== src/Controller/Race/Calls.antt =====
-- For which indices the goroutines call `Create`.
use kube_arbitrator.Common.{
  ℕ, zero, suc, ◌+◌, ◌≡◌, refl, sym, ap, subst, List, [], ◌∷◌, ◌++◌, some, Bool, true, false, arith,
  if◌then◌else◌, Option-cases, Bool-cases, inl, inr,
}
use mathlib.Core.List.{Perm, append_assoc, append-nil}
use mathlib.Core.List.Perm
use kube_arbitrator.Common.Lists.{length, get_elem?, set}
use kube_arbitrator.Controller.Race.{
  Goroutine, starting, failing, loaded, created, appended, Race, all_done, start_all, advance, step,
  run_race, new_race,
}

-- `n` indices from `i` on.
abbrev pub indices : ℕ → ℕ → List ℕ
indices i zero = []
indices i (suc n) = i ∷ indices (suc i) n

pub length-indices : (i n : ℕ) → length (indices i n) ≡ n
length-indices i zero = refl
length-indices i (suc n) = ap suc (length-indices (suc i) n)

abbrev has_started : Goroutine → Bool
has_started starting = false
has_started g = true

-- The indices of the goroutines that have not started, of a list that begins at `i`.
abbrev left : ℕ → List Goroutine → List ℕ
left i [] = []
left i (g ∷ gs) = let rest = left (suc i) gs in if has_started g then rest else i ∷ rest

-- A goroutine that starts is no longer among them.
left-set_starting :
    (i : ℕ) (gs : List Goroutine) (k : ℕ) (g : Goroutine)
    → get_elem? gs k ≡ some starting
    → has_started g ≡ true
    → Perm (left i gs) ((i + k) ∷ left i (set gs k g))
left-set_starting i [] k g at h = cc
left-set_starting i (x ∷ gs) zero g at h =
    let e : starting ≡ x = ground (arith, at) in
    subst (λ y. Perm (left i (y ∷ gs)) ((i + 0) ∷ left i (g ∷ gs))) e
      (rw h (subst (λ j. Perm (i ∷ left (suc i) gs) (j ∷ left (suc i) gs)) (omega arith) Perm.rfl))
left-set_starting i (x ∷ gs) (suc k) g at h =
    let there = left-set_starting (suc i) gs k g at h in
    let same : suc i + k ≡ i + suc k = omega arith in
    let moved : Perm (left (suc i) gs) ((i + suc k) ∷ left (suc i) (set gs k g)) =
      subst (λ j. Perm (left (suc i) gs) (j ∷ left (suc i) (set gs k g))) same there in
    elim (Bool-cases (has_started x)) [
      | inl e ↦ rw e moved
      | inr e ↦
          rw e
            (Perm.trans (Perm.cons i moved) (Perm.swap (i + suc k) i (left (suc i) (set gs k g))))
    ]

-- One that has started stays out.
left-set_started :
    (i : ℕ) (gs : List Goroutine) (k : ℕ) (x g : Goroutine)
    → get_elem? gs k ≡ some x
    → has_started x ≡ true
    → has_started g ≡ true
    → left i (set gs k g) ≡ left i gs
left-set_started i [] k x g at e h = refl
left-set_started i (y ∷ gs) zero x g at e h =
    let same : x ≡ y = ground (arith, at) in
    rw h (sym (rw (subst (λ z. has_started z ≡ true) same e) refl))
left-set_started i (y ∷ gs) (suc k) x g at e h =
    ap (λ r. if has_started y then r else i ∷ r) (left-set_started (suc i) gs k x g at e h)

-- The calls so far, and those to come, are the indices of all goroutines.
abbrev CallsEach : ℕ → Race → Type 0
CallsEach n r = Perm (r.calls ++ left 0 r.goroutines) (indices 0 n)

advance-CallsEach :
    (fails : ℕ → Bool) (n : ℕ) (r : Race) (i : ℕ) (g : Goroutine)
    → get_elem? r.goroutines i ≡ some g
    → CallsEach n r
    → CallsEach n (advance fails r i g)
unfolding advance
advance-CallsEach fails n r i starting at h =
    let next : Goroutine = if fails i then failing else created in
    let started : has_started next ≡ true = ground arith in
    let rest = left 0 (set r.goroutines i next) in
    let zero_add : 0 + i ≡ i = omega arith in
    let moved : Perm (left 0 r.goroutines) (i ∷ rest) =
      subst (λ j. Perm (left 0 r.goroutines) (j ∷ rest)) zero_add
        (left-set_starting 0 r.goroutines i next at started) in
    subst (λ c. Perm c (indices 0 n)) (sym (append_assoc r.calls (i ∷ []) rest))
      (Perm.trans (Perm.append_left r.calls (Perm.symm moved)) h)
advance-CallsEach fails n r i failing at h =
    subst (λ q. Perm (r.calls ++ q) (indices 0 n))
      (sym (left-set_started 0 r.goroutines i failing (loaded r.errs) at refl refl)) h
advance-CallsEach fails n r i (loaded m) at h =
    subst (λ q. Perm (r.calls ++ q) (indices 0 n))
      (sym (left-set_started 0 r.goroutines i (loaded m) appended at refl refl)) h
advance-CallsEach fails n r i created at h = h
advance-CallsEach fails n r i appended at h = h

step-CallsEach :
    (fails : ℕ → Bool) (n : ℕ) (r : Race) (i : ℕ) → CallsEach n r → CallsEach n (step fails r i)
unfolding step
step-CallsEach fails n r i h = elim (Option-cases (get_elem? r.goroutines i)) [
  | inl e ↦ rw (e, step) h
  | inr (g, e) ↦ rw (e, step) (advance-CallsEach fails n r i g e h)
]

run_race-CallsEach :
    (fails : ℕ → Bool) (n : ℕ) (r : Race) (order : List ℕ)
    → CallsEach n r
    → CallsEach n (run_race fails r order)
unfolding run_race
run_race-CallsEach fails n r [] h = h
run_race-CallsEach fails n r (i ∷ order) h =
    run_race-CallsEach fails n (step fails r i) order (step-CallsEach fails n r i h)

start_all-left : (i n : ℕ) → left i (start_all n) ≡ indices i n
unfolding start_all
start_all-left i zero = refl
start_all-left i (suc n) = ap (λ r. i ∷ r) (start_all-left (suc i) n)

all_done-left : (i : ℕ) (gs : List Goroutine) → all_done gs ≡ true → left i gs ≡ []
unfolding all_done
all_done-left i [] h = refl
all_done-left i (starting ∷ gs) h = cc
all_done-left i (failing ∷ gs) h = cc
all_done-left i (loaded n ∷ gs) h = cc
all_done-left i (created ∷ gs) h = all_done-left (suc i) gs h
all_done-left i (appended ∷ gs) h = all_done-left (suc i) gs h

-- Once all goroutines are done, `Create` was called once for each index.
pub run_race-calls :
    (fails : ℕ → Bool) (n : ℕ) (order : List ℕ)
    → all_done (run_race fails (new_race n) order).goroutines ≡ true
    → Perm (run_race fails (new_race n) order).calls (indices 0 n)
unfolding new_race
run_race-calls fails n order h =
    let r = run_race fails (new_race n) order in
    let all =
      run_race-CallsEach fails n (new_race n) order
        (subst (λ q. Perm q (indices 0 n)) (sym (start_all-left 0 n)) Perm.rfl) in
    subst (λ q. Perm q (indices 0 n)) (append-nil r.calls)
      (subst (λ q. Perm (r.calls ++ q) (indices 0 n)) (all_done-left 0 r.goroutines h) all)
