-- ===== src/Queue/Sorts.antt =====
-- The priority queue over container/heap, with a `lessFn` that is an order.
use kube_arbitrator.Common.{
  ℕ, zero, suc, ◌≡◌, refl, subst, List, [], ◌∷◌, some, none, Bool, false, Outcome, ok, ◌>>=◌, arith,
  ◌==◌,
}
use mathlib.Core.List.{Perm, Permᴰ, append-nil}
use mathlib.Core.List.Perm
use mathlib.Core.Logic.{∥∥₁_elim}
use kube_arbitrator.Common.Lists.{length, All}
use kube_arbitrator.Queue
use kube_arbitrator.Queue.{push_all-perm, pop-perm, length-pop}
use kube_arbitrator.Queue.Container.{go_heap, heap_pop, heap_pop-perm}
use kube_arbitrator.Queue.Order.{IsOrder, le}
use kube_arbitrator.Queue.Items.{nth}
use kube_arbitrator.Queue.Rises.{IsHeap, heap_push-IsHeap}
use kube_arbitrator.Queue.Least.{heap_pop-IsHeap, IsHeap-first}

module _ {A : Type 0} (P : A → Type 0) where
  All-permᴰ : {xs ys : List A} → Permᴰ xs ys → All P xs → All P ys
  All-permᴰ Permᴰ.nil h = tt
  All-permᴰ (Permᴰ.cons e p) h = (subst P e h.0, All-permᴰ p h.1)
  All-permᴰ (Permᴰ.swap e f) h = (subst P f h.1.0, (subst P e h.0, h.1.1))
  All-permᴰ (Permᴰ.trans p q) h = All-permᴰ q (All-permᴰ p h)

  All-prop : ((x : A) → IsProp (P x)) → (xs : List A) → IsProp (All P xs)
  All-prop h [] = hlevel
  All-prop h (x ∷ xs) = hlevel (h x, All-prop h xs)

  All-perm : {xs ys : List A} → ((x : A) → IsProp (P x)) → Perm xs ys → All P xs → All P ys
  All-perm {xs} {ys} h p all = ∥∥₁_elim p (All-prop h ys) (λ q. All-permᴰ q all)

module _ {A : Type 0} where
  -- `Pop` until the queue is empty.
  unfoldable pub drain : ℕ → (A → A → Outcome Bool) → List A → Outcome (List A)
  unfolding Queue.pop heap_pop
  drain zero less q = ok []
  drain (suc n) less q = do
    (it, rest) ← Queue.pop (go_heap A) less q
    let more = drain n less rest
    elim it [ none ↦ ok [] | some x ↦ do xs ← more; ok (x ∷ xs) ]

module _ {A : Type 0} (lt : A → A → Bool) (order : IsOrder lt) where
  abbrev less : A → A → Outcome Bool
  less a b = ok (lt a b)

  -- Each item is no greater than those after it.
  abbrev pub IsSorted : List A → Type 0
  IsSorted [] = Unit
  IsSorted (x ∷ xs) = All (le lt x) xs × IsSorted xs

  push_all-IsHeap :
      (d : A) (q xs : List A)
      → IsHeap lt order d q
      → (q' : List A) × (Queue.push_all (go_heap A) less q xs ≡ ok q') × IsHeap lt order d q'
  unfolding Queue.push_all Queue.push
  push_all-IsHeap d q [] h = (q, refl, h)
  push_all-IsHeap d q (x ∷ xs) h =
      let (q₁, pushed, h₁) = heap_push-IsHeap lt order d q x h in
      let (q₂, rest, h₂) = push_all-IsHeap d q₁ xs h₁ in (q₂, rw pushed rest, h₂)

  popped :
      (d : A) (q : List A) (n : ℕ)
      → length q ≡ suc n
      → IsHeap lt order d q
      → (rest : List A) × (Queue.pop (go_heap A) less q ≡ ok (some (nth d q 0), rest))
        × IsHeap lt order d rest
        × All (le lt (nth d q 0)) (nth d q 0 ∷ rest)
        × Perm q (nth d q 0 ∷ rest)
  unfolding Queue.pop
  popped d q n l h =
      let (rest, e, heap) = heap_pop-IsHeap lt order d q n l h in
      let p = heap_pop-perm less q (nth d q 0) rest e in
      let full : (length q == 0) ≡ false = ground (arith, l) in
      (
        rest,
        rw full (rw e refl),
        heap,
        All-perm (le lt (nth d q 0)) (λ x. hlevel) p (IsHeap-first lt order d q h),
        p,
      )

  drain-IsSorted :
      (d : A) (n : ℕ) (q : List A)
      → length q ≡ n
      → IsHeap lt order d q
      → (ys : List A) × (drain n less q ≡ ok ys) × Perm ys q × IsSorted ys
  unfolding drain
  drain-IsSorted d zero [] l h = ([], refl, Perm.rfl, tt)
  drain-IsSorted d zero (x ∷ q) l h = absurd (omega arith)
  drain-IsSorted d (suc n) q l h =
      let (rest, e, heap, least, p) = popped d q n l h in
      let shorter = length-pop (go_heap A) less q (nth d q 0) rest e in
      let (ys, run, perm, sorted) = drain-IsSorted d n rest (omega (arith, l, shorter)) heap in
      (
        nth d q 0 ∷ ys,
        rw e (rw run refl),
        Perm.trans (Perm.cons (nth d q 0) perm) (Perm.symm p),
        (All-perm (le lt (nth d q 0)) (λ x. hlevel) (Perm.symm perm) least.1, sorted),
      )

  -- A priority queue over container/heap, with a `lessFn` that is a strict order and does not panic:
  -- items that are pushed one by one and popped until the queue is empty come out sorted, each as often as
  -- it was pushed, and none of the calls panics.
  pub push_all-IsSorted :
      (xs : List A)
      → (q : List A) × (ys : List A) × (Queue.push_all (go_heap A) less [] xs ≡ ok q)
        × (drain (length q) less q ≡ ok ys)
        × Perm ys xs
        × IsSorted ys
  unfolding Queue.push_all drain
  push_all-IsSorted [] = ([], [], refl, refl, Perm.rfl, tt)
  push_all-IsSorted (x ∷ xs) =
      let (q, pushed, heap) = push_all-IsHeap x [] (x ∷ xs) (λ k kp kn. absurd (omega arith)) in
      let (ys, drained, perm, sorted) = drain-IsSorted x (length q) q refl heap in
      (
        q,
        ys,
        pushed,
        drained,
        Perm.trans perm (
            subst (Perm q) (append-nil (x ∷ xs))
              (push_all-perm (go_heap A) less [] (x ∷ xs) q pushed)),
        sorted,
      )
