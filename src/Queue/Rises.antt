-- ===== src/Queue/Rises.antt =====
-- `heap.Push` with a `lessFn` that is an order and does not panic: `up` restores the order of the heap.
use kube_arbitrator.Common.{
  ℕ, zero, suc, ◌<◌, ◌≤◌, ◌≡◌, refl, sym, ◌∙◌, subst, List, [], ◌∷◌, ◌++◌, Bool, Outcome, ok, arith,
  ◌==◌, Bool-cases, inl, inr,
}
use kube_arbitrator.Common.Lists.{length, length-append}
use kube_arbitrator.Queue.Container.{up, heap_push}
use kube_arbitrator.Queue.Order.{
  parent, IsOrder, le, Ordered, RisesAt, Swapped-RisesAt, RisesAt-Ordered,
}
use kube_arbitrator.Queue.Items.{nth, less_at-nth, swap-Swapped, nth-append_left}

module _ {A : Type 0} (lt : A → A → Bool) (order : IsOrder lt) (d : A) where
  -- The `lessFn`.
  abbrev pub less : A → A → Outcome Bool
  less a b = ok (lt a b)

  abbrev pub IsHeap : List A → Type 0
  IsHeap items = Ordered lt (nth d items) (length items)

  pub le_refl : (a : A) → le lt a a
  le_refl a = elim (Bool-cases (lt a a)) [ inl h ↦ order.asym a a h | inr h ↦ h ]

  up-IsHeap :
      (n : ℕ) (items : List A) (j : ℕ)
      → j ≤ n
      → j < length items
      → RisesAt lt (nth d items) (length items) j
      → (items' : List A) × (up n less items j ≡ ok items')
        × (length items' ≡ length items)
        × IsHeap items'
  unfolding up
  up-IsHeap zero items j jn jl r = (
    items,
    refl,
    refl,
    RisesAt-Ordered lt order (nth d items) (length items) j (inl (omega arith)) r,
  )
  up-IsHeap (suc n) items j jn jl r = elim (Bool-cases (parent j == j)) [
    | inl e ↦ (
      items,
      rw e refl,
      refl,
      RisesAt-Ordered lt order (nth d items) (length items) j (inl (ground (arith, e))) r,
    )
    | inr e ↦
        let pos : 0 < j = ground (arith, e) in
        let tested = less_at-nth d lt items j (parent j) jl (omega (arith, jl)) in
        elim (Bool-cases (lt (nth d items j) (nth d items (parent j)))) [
          | inr no_less ↦ (
            items,
            rw e (rw tested (rw no_less refl)),
            refl,
            RisesAt-Ordered lt order (nth d items) (length items) j (inr no_less) r,
          )
          | inl smaller ↦
              let (moved, s, l, exchanged) =
                swap-Swapped d items (parent j) j (omega (arith, jl)) jl in
              let risen =
                Swapped-RisesAt lt order (nth d items) (nth d moved) (length items) j pos jl smaller
                  exchanged r in
              let (items', run, l', heap) =
                up-IsHeap n moved (parent j) (omega (arith, jn, pos)) (omega (arith, l, jl))
                  (subst (λ m. RisesAt lt (nth d moved) m (parent j)) (sym l) risen) in
              (items', rw e (rw tested (rw smaller (rw s run))), l' ∙ l, heap)
        ]
  ]

  -- `heap.Push` on a heap returns a heap.
  pub heap_push-IsHeap :
      (items : List A) (x : A)
      → IsHeap items
      → (items' : List A) × (heap_push less items x ≡ ok items') × IsHeap items'
  unfolding heap_push
  heap_push-IsHeap items x h =
      let n = length items in
      let long : length (items ++ x ∷ []) ≡ suc n = length-append items (x ∷ []) ∙ omega arith in
      let (items', run, _, heap) =
        up-IsHeap n (items ++ x ∷ []) n (omega arith) (omega (arith, long)) (record {
          others = λ k kp kn off.
              let low : k < n = omega (arith, long, kn, off) in
              subst (λ a. le lt a (nth d (items ++ x ∷ []) k))
                (sym (nth-append_left d items x (parent k) (omega (arith, low))))
                (subst (le lt (nth d items (parent k))) (sym (nth-append_left d items x k low))
                  (h k kp low));
          around = λ k kp kn at jp. absurd (omega (arith, long, kn, at, kp));
        }) in
      (items', run, heap)
