-- ===== src/Tests/Queues.antt =====
-- Tests of the priority queue over container/heap.
use kube_arbitrator.Common.{
  ℕ, ◌≡◌, refl, List, [], ◌∷◌, Bool, Outcome, ok, panic, out_of_range, ltb, arith,
}
use mathlib.Core.List.{Perm}
use kube_arbitrator.Common.Lists.{length}
use kube_arbitrator.Queue
use kube_arbitrator.Queue.Slice.{swap}
use kube_arbitrator.Queue.Container.{go_heap, heap_push}
use kube_arbitrator.Queue.Order.{IsOrder}
use kube_arbitrator.Queue.Sorts.{drain, IsSorted, push_all-IsSorted}

ltb-IsOrder : IsOrder ltb
ltb-IsOrder = record {
  asym = λ a b h. ground (arith, h);
  le_trans = λ a b c h k. ground (arith, h, k);
}

abbrev less : ℕ → ℕ → Outcome Bool
less a b = ok (ltb a b)

pushed : Queue.push_all (go_heap ℕ) less [] (5 ∷ 3 ∷ 4 ∷ 1 ∷ 3 ∷ []) ≡ ok (1 ∷ 3 ∷ 4 ∷ 5 ∷ 3 ∷ [])
unfolding Queue.push_all heap_push
pushed = refl

drained : drain 5 less (1 ∷ 3 ∷ 4 ∷ 5 ∷ 3 ∷ []) ≡ ok (1 ∷ 3 ∷ 3 ∷ 4 ∷ 5 ∷ [])
unfolding drain
drained = refl

beyond_end : swap {A = ℕ} (1 ∷ []) 0 1 ≡ panic out_of_range
unfolding swap
beyond_end = refl

push_all-IsSorted_example :
    (q : List ℕ) × (ys : List ℕ) × (Queue.push_all (go_heap ℕ) less [] (5 ∷ 3 ∷ 4 ∷ 1 ∷ 3 ∷ [])
      ≡ ok q)
    × (drain (length q) less q ≡ ok ys)
    × Perm ys (5 ∷ 3 ∷ 4 ∷ 1 ∷ 3 ∷ [])
    × IsSorted ltb ltb-IsOrder ys
push_all-IsSorted_example = push_all-IsSorted ltb ltb-IsOrder (5 ∷ 3 ∷ 4 ∷ 1 ∷ 3 ∷ [])
