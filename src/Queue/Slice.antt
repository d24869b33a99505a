-- ===== src/Queue/Slice.antt =====
-- The methods of `heap.Interface` on the queue's slice, pkg/scheduler/util/priority_queue.go.
use kube_arbitrator.Common.{
  ℕ, zero, suc, ◌≡◌, refl, sym, subst, List, [], ◌∷◌, none, some, Bool, Outcome, ok, panic,
  out_of_range, ◌>>=◌, >>=-eq-ok, ok_inj, arith,
}
use kube_arbitrator.Common.Lists.{get_elem?, set}
use mathlib.Core.List.{Perm}
use mathlib.Core.List.Perm

module _ {A : Type 0} where
  -- `items[i]`.
  unfoldable pub item_at : List A → ℕ → Outcome A
  item_at items i = elim (get_elem? items i) [ none ↦ panic out_of_range | some x ↦ ok x ]

  -- `Less`, with a `lessFn`.
  unfoldable pub less_at : (A → A → Outcome Bool) → List A → ℕ → ℕ → Outcome Bool
  unfolding item_at
  less_at less items i j = do l ← item_at items i; r ← item_at items j; less l r

  -- `Swap`.
  unfoldable pub swap : List A → ℕ → ℕ → Outcome (List A)
  unfolding item_at
  swap items i j = do l ← item_at items i; r ← item_at items j; ok (set (set items i r) j l)

  -- `Pop`: the last item.
  unfoldable pub pop_last : List A → Outcome (A × List A)
  pop_last [] = panic out_of_range
  pop_last (x ∷ []) = ok (x, [])
  pop_last (x ∷ y ∷ items) = do (last, rest) ← pop_last (y ∷ items); ok (last, x ∷ rest)

  item_at-eq :
      (items : List A) (i : ℕ) (x : A) → item_at items i ≡ ok x → get_elem? items i ≡ some x
  unfolding item_at
  item_at-eq items i x h = ground (arith, h)

  -- An item that is written in another one's place changes places with it.
  set-perm :
      (items : List A) (i : ℕ) (x y : A)
      → get_elem? items i ≡ some x
      → Perm (y ∷ items) (x ∷ set items i y)
  set-perm [] i x y h = cc
  set-perm (z ∷ items) zero x y h =
      let e : z ≡ x = ground (arith, h) in
      subst (λ w. Perm (y ∷ w ∷ items) (x ∷ y ∷ items)) (sym e) (Perm.swap x y items)
  set-perm (z ∷ items) (suc i) x y h =
      Perm.trans (Perm.swap z y items)
        (Perm.trans (Perm.cons z (set-perm items i x y h)) (Perm.swap x z (set items i y)))

  -- The item at the other place, after the first write.
  get_elem?-set_other :
      (items : List A) (i j : ℕ) (x y : A)
      → get_elem? items i ≡ some x
      → get_elem? items j ≡ some y
      → get_elem? (set items i y) j ≡ some y
  get_elem?-set_other [] i j x y h k = cc
  get_elem?-set_other (z ∷ items) zero zero x y h k = refl
  get_elem?-set_other (z ∷ items) zero (suc j) x y h k = k
  get_elem?-set_other (z ∷ items) (suc i) zero x y h k = k
  get_elem?-set_other (z ∷ items) (suc i) (suc j) x y h k = get_elem?-set_other items i j x y h k

  -- `Swap` loses and makes no item.
  pub swap-perm : (items items' : List A) (i j : ℕ) → swap items i j ≡ ok items' → Perm items' items
  unfolding swap
  swap-perm items items' i j h =
      let (x, l, h₁) = >>=-eq-ok (item_at items i) _ h in
      let (y, r, h₂) = >>=-eq-ok (item_at items j) _ h₁ in
      let here = item_at-eq items i x l in
      let there = get_elem?-set_other items i j x y here (item_at-eq items j y r) in
      subst (λ q. Perm q items) (ok_inj h₂)
        (Perm.symm (
          Perm.cons_inv
            (Perm.trans (set-perm items i x y here) (set-perm (set items i y) j y x there))))

  pub pop_last-perm :
      (items : List A) (x : A) (rest : List A)
      → pop_last items ≡ ok (x, rest)
      → Perm items (x ∷ rest)
  unfolding pop_last
  pop_last-perm [] x rest h = cc
  pop_last-perm (y ∷ []) x rest h = subst (Perm (y ∷ [])) (ground (arith, h)) Perm.rfl
  pop_last-perm (y ∷ z ∷ items) x rest h =
      let ((last, r), p, e) = >>=-eq-ok (pop_last (z ∷ items)) _ h in
      let same : ◌≡◌ {A = List A} (last ∷ y ∷ r) (x ∷ rest) = ground (arith, e) in
      subst (Perm (y ∷ z ∷ items)) same
        (Perm.trans (Perm.cons y (pop_last-perm (z ∷ items) last r p)) (Perm.swap last y r))
