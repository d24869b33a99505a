-- ===== src/Queue/Container.antt =====
-- Go's container/heap on the queue's slice: the algorithm that fills the parameter of the queue.
use kube_arbitrator.Common.{
  ℕ, zero, suc, ◌+◌, ◌-◌, ◌*◌, ◌/◌, ◌≡◌, subst, List, [], ◌∷◌, ◌++◌, Bool, true, false, Outcome, ok,
  ◌>>=◌, >>=-eq-ok, ok_inj, ltb, leb, ◌==◌, if◌then◌else◌, Bool-cases, inl, inr,
}
use kube_arbitrator.Common.Lists.{length}
use mathlib.Core.List.{Perm, perm_append_singleton}
use mathlib.Core.List.Perm
use kube_arbitrator.Queue.{Heap}
use kube_arbitrator.Queue.Slice.{less_at, swap, pop_last, swap-perm, pop_last-perm}

module _ {A : Type 0} where
  -- `up`: the item at `j` rises as long as it is less than its parent. The position at least halves, so
  -- that `j` rounds are enough.
  unfoldable pub up : ℕ → (A → A → Outcome Bool) → List A → ℕ → Outcome (List A)
  unfolding less_at swap
  up zero less items j = ok items
  up (suc n) less items j =
      let i = (j - 1) / 2 in
      if i == j then ok items else do
        smaller ← less_at less items j i
        let next = swap items i j >>= λ moved. up n less moved i
        if smaller then next else ok items

  -- The smaller one of the children of `i`, of which the left one is at `j₁`.
  unfoldable pub child : (A → A → Outcome Bool) → List A → ℕ → ℕ → Outcome ℕ
  unfolding less_at
  child less items j₁ n =
      if ltb (j₁ + 1) n
      then (do right ← less_at less items (j₁ + 1) j₁; ok (if right then j₁ + 1 else j₁))
      else ok j₁

  -- `down`: the item at `i` sinks below children that are less, among the first `n` items. The position
  -- grows, so that `n` rounds are enough.
  unfoldable pub down : ℕ → (A → A → Outcome Bool) → List A → ℕ → ℕ → Outcome (List A)
  unfolding child swap
  down zero less items i n = ok items
  down (suc m) less items i n = if leb n (2 * i + 1) then ok items else do
    j ← child less items (2 * i + 1) n
    smaller ← less_at less items j i
    let next = swap items i j >>= λ moved. down m less moved j n
    if smaller then next else ok items

  -- `heap.Push` and `heap.Pop`.
  unfoldable pub heap_push : (A → A → Outcome Bool) → List A → A → Outcome (List A)
  unfolding up
  heap_push less items x = up (length items) less (items ++ x ∷ []) (length items)

  unfoldable pub heap_pop : (A → A → Outcome Bool) → List A → Outcome (A × List A)
  unfolding down pop_last
  heap_pop less items = do
    swapped ← swap items 0 (length items - 1)
    sifted ← down (length items - 1) less swapped 0 (length items - 1)
    pop_last sifted

  -- One round that swaps, or leaves the items.
  swapped_or_same :
      (items items' : List A) (i j : ℕ) (smaller : Bool) (go : List A → Outcome (List A))
      → ((moved moved' : List A) → go moved ≡ ok moved' → Perm moved' moved)
      → (if smaller then swap items i j >>= go else ok items) ≡ ok items'
      → Perm items' items
  swapped_or_same items items' i j true go rest h =
      let (moved, s, h₁) = >>=-eq-ok (swap items i j) _ h in
      Perm.trans (rest moved items' h₁) (swap-perm items moved i j s)
  swapped_or_same items items' i j false go rest h = subst (λ q. Perm q items) (ok_inj h) Perm.rfl

  up-perm :
      (n : ℕ) (less : A → A → Outcome Bool) (items items' : List A) (j : ℕ)
      → up n less items j ≡ ok items'
      → Perm items' items
  unfolding up
  up-perm zero less items items' j h = subst (λ q. Perm q items) (ok_inj h) Perm.rfl
  up-perm (suc n) less items items' j h = elim (Bool-cases ((j - 1) / 2 == j)) [
    | inl e ↦ subst (λ q. Perm q items) (ok_inj (rw e at h)) Perm.rfl
    | inr e ↦
        let (smaller, _, h₁) = >>=-eq-ok (less_at less items j ((j - 1) / 2)) _ (rw e at h) in
        swapped_or_same items items' ((j - 1) / 2) j smaller
          (λ moved. up n less moved ((j - 1) / 2))
          (λ moved moved' k. up-perm n less moved moved' ((j - 1) / 2) k) h₁
  ]

  down-perm :
      (m : ℕ) (less : A → A → Outcome Bool) (items items' : List A) (i n : ℕ)
      → down m less items i n ≡ ok items'
      → Perm items' items
  unfolding down
  down-perm zero less items items' i n h = subst (λ q. Perm q items) (ok_inj h) Perm.rfl
  down-perm (suc m) less items items' i n h = elim (Bool-cases (leb n (2 * i + 1))) [
    | inl e ↦ subst (λ q. Perm q items) (ok_inj (rw e at h)) Perm.rfl
    | inr e ↦
        let (j, _, h₁) = >>=-eq-ok (child less items (2 * i + 1) n) _ (rw e at h) in
        let (smaller, _, h₂) = >>=-eq-ok (less_at less items j i) _ h₁ in
        swapped_or_same items items' i j smaller (λ moved. down m less moved j n)
          (λ moved moved' k. down-perm m less moved moved' j n k) h₂
  ]

  pub heap_push-perm :
      (less : A → A → Outcome Bool) (items : List A) (x : A) (items' : List A)
      → heap_push less items x ≡ ok items'
      → Perm items' (x ∷ items)
  unfolding heap_push
  heap_push-perm less items x items' h =
      Perm.trans (up-perm (length items) less (items ++ x ∷ []) items' (length items) h)
        (perm_append_singleton x items)

  pub heap_pop-perm :
      (less : A → A → Outcome Bool) (items : List A) (x : A) (rest : List A)
      → heap_pop less items ≡ ok (x, rest)
      → Perm items (x ∷ rest)
  unfolding heap_pop
  heap_pop-perm less items x rest h =
      let n = length items - 1 in
      let (swapped, s, h₁) = >>=-eq-ok (swap items 0 n) _ h in
      let (sifted, d, h₂) = >>=-eq-ok (down n less swapped 0 n) _ h₁ in
      Perm.trans (Perm.symm (swap-perm items swapped 0 n s)) (
        Perm.trans (Perm.symm (down-perm n less swapped sifted 0 n d))
          (pop_last-perm sifted x rest h₂))

-- container/heap as the queue uses it.
abbrev pub go_heap : (A : Type 0) → Heap A
go_heap A = record {
  push = heap_push;
  pop = heap_pop;
  push_perm = heap_push-perm;
  pop_perm = heap_pop-perm;
}
