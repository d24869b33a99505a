-- ===== src/Queue.antt =====
-- The priority queue, pkg/scheduler/util/priority_queue.go, over Go's container/heap, which enters as
-- a parameter; Container fills it. The queue's `lessFn` is a method of the session or a function that calls
-- one, so that it can panic and depends on the session's present state: it is handed over at each call. A
-- `lessFn` that is nil is left out, since no caller passes it.
pub mod Slice
pub mod Container
pub mod Order
pub mod Items
pub mod Rises
pub mod Sinks
pub mod Least
pub mod Sorts
use kube_arbitrator.Common.{
  suc, false, ◌⊎◌, inl, inr, >>=-eq-ok, ok_inj, ◌≡◌, ◌+◌, ◌==◌, Bool, List, [], ◌∷◌, Option, none,
  some, Outcome, ok, panic, ◌>>=◌, ap, ◌∙◌, refl, arith, subst, ◌++◌, if◌then◌else◌,
}
use kube_arbitrator.Common.Lists.{length, length-perm}
use mathlib.Core.List.{Perm, Permᴰ, perm_middle}
use mathlib.Core.List.Perm
use mathlib.Core.Logic.{∥∥₁_elim}
use native.Mathlib.Nat.{ℕ_set}

-- `heap.Push` and `heap.Pop` on the queue's slice. They move elements by `Swap`, and by the `Push`
-- and `Pop` of `heap.Interface`, only: no element is lost or made, whatever `Less` answers.
pub record Heap (A : Type 0) : Type 0 where
  pub push : (A → A → Outcome Bool) → List A → A → Outcome (List A)
  pub pop : (A → A → Outcome Bool) → List A → Outcome (A × List A)
  pub push_perm :
      (less : A → A → Outcome Bool) (xs : List A) (x : A) (ys : List A)
      → push less xs x ≡ ok ys
      → Perm ys (x ∷ xs)
  pub pop_perm :
      (less : A → A → Outcome Bool) (xs : List A) (x : A) (ys : List A)
      → pop less xs ≡ ok (x, ys)
      → Perm xs (x ∷ ys)

module _ {A : Type 0} (heap : Heap A) where
  -- `NewPriorityQueue`: its items.
  abbrev pub new_priority_queue : List A
  new_priority_queue = []

  -- `Empty`, by `Len`.
  unfoldable pub empty : List A → Bool
  empty q = length q == 0

  -- `Push`.
  unfoldable pub push : (A → A → Outcome Bool) → List A → A → Outcome (List A)
  push less q it = heap.push less q it

  -- `Pop`, which returns nil on an empty queue.
  unfoldable pub pop : (A → A → Outcome Bool) → List A → Outcome (Option A × List A)
  pop less q =
      if length q == 0 then ok (none, q) else do (it, rest) ← heap.pop less q; ok (some it, rest)

  -- The loops of the actions that push elements one by one.
  unfoldable pub push_all : (A → A → Outcome Bool) → List A → List A → Outcome (List A)
  unfolding push
  push_all less q [] = ok q
  push_all less q (x ∷ xs) = do q' ← push less q x; push_all less q' xs

  pub length-push :
      (less : A → A → Outcome Bool) (q : List A) (it : A) (q' : List A)
      → push less q it ≡ ok q'
      → length q' ≡ length q + 1
  unfolding push
  length-push less q it q' h = omega (arith, length-perm (heap.push_perm less q it q' h))

  pub length-push_all :
      (less : A → A → Outcome Bool) (q xs q' : List A)
      → push_all less q xs ≡ ok q'
      → length q' ≡ length q + length xs
  unfolding push_all
  length-push_all less q [] q' h = omega (arith, ap length (ok_inj h))
  length-push_all less q (x ∷ xs) q' h =
      let (r, p, rest) = >>=-eq-ok (push less q x) _ h in
      omega (arith, length-push less q x r p, length-push_all less r xs q' rest)

  pub push-perm :
      (less : A → A → Outcome Bool) (q : List A) (it : A) (q' : List A)
      → push less q it ≡ ok q'
      → Perm q' (it ∷ q)
  unfolding push
  push-perm = heap.push_perm

  pub push_all-perm :
      (less : A → A → Outcome Bool) (q xs q' : List A)
      → push_all less q xs ≡ ok q'
      → Perm q' (xs ++ q)
  unfolding push_all
  push_all-perm less q [] q' h = subst (λ r. Perm r q) (ok_inj h) Perm.rfl
  push_all-perm less q (x ∷ xs) q' h =
      let (r, p, rest) = >>=-eq-ok (push less q x) _ h in
      Perm.trans (push_all-perm less r xs q' rest)
        (Perm.trans (Perm.append_left xs (push-perm less q x r p)) (perm_middle xs q))

  popped :
      (call : Outcome (A × List A)) (it : Option A) (rest : List A)
      → ◌≡◌ {A = Outcome (Option A × List A)} (call >>= λ (x, r). ok (some x, r)) (ok (it, rest))
      → (x : A) × (call ≡ ok (x, rest)) × (it ≡ some x)
  popped (panic p) it rest h = cc
  popped (ok (x, r)) it rest h = (x, ground (arith, h), ground (arith, h))

  -- A queue gives up an element and shrinks by one, or is empty and gives up none.
  pub pop-cases :
      (less : A → A → Outcome Bool) (q : List A) (it : Option A) (rest : List A)
      → pop less q ≡ ok (it, rest)
      → ((it ≡ none) × (q ≡ []) × (rest ≡ []))
        ⊎ ((x : A) × (it ≡ some x) × (length q ≡ length rest + 1))
  unfolding pop
  pop-cases less [] it rest h = inl (ground (arith, h), refl, ground (arith, h))
  pop-cases less (y ∷ q) it rest h =
      let full : (suc (length q) == 0) ≡ false = ground arith in
      let (x, p, e) = popped (heap.pop less (y ∷ q)) it rest (rw full at h) in
      inr (x, e, omega (arith, length-perm (heap.pop_perm less (y ∷ q) x rest p)))

  pub pop-perm :
      (less : A → A → Outcome Bool) (q : List A) (x : A) (rest : List A)
      → pop less q ≡ ok (some x, rest)
      → Perm q (x ∷ rest)
  unfolding pop
  pop-perm less [] x rest h = cc
  pop-perm less (y ∷ q) x rest h =
      let full : (suc (length q) == 0) ≡ false = ground arith in
      let (z, p, e) = popped (heap.pop less (y ∷ q)) (some x) rest (rw full at h) in
      heap.pop_perm less (y ∷ q) x rest (ground (arith, p, e))

  pub length-pop :
      (less : A → A → Outcome Bool) (q : List A) (x : A) (rest : List A)
      → pop less q ≡ ok (some x, rest)
      → length q ≡ length rest + 1
  length-pop less q x rest h = omega (arith, length-perm (pop-perm less q x rest h))
