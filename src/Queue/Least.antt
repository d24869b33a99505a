-- ===== src/Queue/Least.antt =====
-- `heap.Pop` with a `lessFn` that is an order and does not panic gives a least item.
use kube_arbitrator.Common.{ℕ, suc, ◌-◌, ◌<◌, ◌≡◌, sym, ap, ◌∙◌, subst, List, Bool, ok, arith}
use native.Mathlib.Decide.{ℕ_discrete}
use kube_arbitrator.Common.Lists.{length, All}
use kube_arbitrator.Queue.Slice.{swap, pop_last}
use kube_arbitrator.Queue.Container.{down, heap_pop}
use kube_arbitrator.Queue.Order.{parent, Swapped, IsOrder, le, Ordered, SinksAt, Ordered-root}
use kube_arbitrator.Queue.Items.{nth, swap-Swapped, pop_last-nth, All-of_nth}
use kube_arbitrator.Queue.Rises.{less, IsHeap, le_refl}
use kube_arbitrator.Queue.Sinks.{down-Sunk}

module _ {A : Type 0} (lt : A → A → Bool) (order : IsOrder lt) (d : A) where
  -- The root and the last item have changed places.
  Ordered-SinksAt :
      (f g : ℕ → A) (n : ℕ) → Ordered lt f (suc n) → Swapped f g 0 n → SinksAt lt g n 0
  Ordered-SinksAt f g n h s = record {
    others = λ k kp kn off.
        subst (λ a. le lt a (g k)) (sym (s.rest (parent k) off (omega (arith, kn))))
          (subst (le lt (f (parent k))) (sym (s.rest k (omega (arith, kp)) (omega (arith, kn))))
            (h k kp (omega (arith, kn))));
    around = λ k kp kn at none_above. absurd (omega (arith, none_above));
  }

  popped_eq :
      (items moved sifted rest : List A) (n : ℕ) (x y : A)
      → length items - 1 ≡ n
      → swap items 0 n ≡ ok moved
      → down n (less lt order d) moved 0 n ≡ ok sifted
      → pop_last sifted ≡ ok (x, rest)
      → x ≡ y
      → heap_pop (less lt order d) items ≡ ok (y, rest)
  unfolding heap_pop
  popped_eq items moved sifted rest n x y l s run p e =
      rw l (rw s (rw run (p ∙ ap (λ z. ok (z, rest)) e)))

  -- `heap.Pop` on a heap that is not empty returns its first item, and leaves a heap.
  pub heap_pop-IsHeap :
      (items : List A) (n : ℕ)
      → length items ≡ suc n
      → IsHeap lt order d items
      → (rest : List A) × (heap_pop (less lt order d) items ≡ ok (nth d items 0, rest))
        × IsHeap lt order d rest
  heap_pop-IsHeap items n l h =
      let last : length items - 1 ≡ n = omega (arith, l) in
      let (moved, s, l₁, exchanged) =
        swap-Swapped d items 0 n (omega (arith, l)) (omega (arith, l)) in
      let sinks =
        Ordered-SinksAt (nth d items) (nth d moved) n (subst (Ordered lt (nth d items)) l h)
          exchanged in
      let (sifted, run, sunk) =
        down-Sunk lt order d n moved 0 n (omega arith) (omega (arith, l, l₁)) sinks in
      let (rest, popped, l₂, same) = pop_last-nth d sifted n (sunk.same_length ∙ l₁ ∙ l) in
      let first : nth d sifted n ≡ nth d items 0 = sunk.others n (omega arith) ∙ exchanged.second in
      (
        rest,
        popped_eq items moved sifted rest n _ _ last s run popped first,
        λ k kp kn.
            let low : k < n = omega (arith, kn, l₂) in
            subst (λ a. le lt a (nth d rest k)) (sym (same (parent k) (omega (arith, low))))
              (subst (le lt (nth d sifted (parent k))) (sym (same k low)) (sunk.sorted k kp low)),
      )

  -- The first item of a heap is no greater than any item.
  pub IsHeap-first :
      (items : List A) → IsHeap lt order d items → All (λ x. le lt (nth d items 0) x) items
  IsHeap-first items h =
      All-of_nth d (λ x. le lt (nth d items 0) x) items
        (λ k kn. elim (ℕ_discrete k 0) [
          | yes e ↦
              subst (λ x. le lt (nth d items 0) (nth d items x)) (sym e)
                (le_refl lt order d (nth d items 0))
          | no ne ↦
              Ordered-root lt order (nth d items) (length items) h (suc k) k (omega arith)
                (omega (arith, ne)) kn
        ])
