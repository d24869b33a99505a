-- ===== src/Queue/Items.antt =====
-- The items of a slice as values at positions, and what the methods of `heap.Interface` do to them.
use kube_arbitrator.Common.{
  ℕ, zero, suc, ◌<◌, ◌≡◌, ◌≢◌, refl, ap, ◌∙◌, List, [], ◌∷◌, ◌++◌, Bool, ok, arith,
}
use native.Mathlib.Decide.{ℕ_discrete}
use kube_arbitrator.Common.Lists.{length, set, All}
use kube_arbitrator.Queue.Slice.{item_at, less_at, swap, pop_last}
use kube_arbitrator.Queue.Order.{Swapped}

module _ {A : Type 0} (d : A) where
  -- The item at a position, and `d` beyond the end.
  abbrev pub nth : List A → ℕ → A
  nth [] i = d
  nth (x ∷ items) zero = x
  nth (x ∷ items) (suc i) = nth items i

  item_at-nth : (items : List A) (i : ℕ) → i < length items → item_at items i ≡ ok (nth items i)
  unfolding item_at
  item_at-nth [] i h = absurd (omega arith)
  item_at-nth (x ∷ items) zero h = refl
  item_at-nth (x ∷ items) (suc i) h = item_at-nth items i (omega arith)

  pub less_at-nth :
      (lt : A → A → Bool) (items : List A) (i j : ℕ)
      → i < length items
      → j < length items
      → less_at (λ a b. ok (lt a b)) items i j ≡ ok (lt (nth items i) (nth items j))
  unfolding less_at
  less_at-nth lt items i j hi hj = ground (arith, item_at-nth items i hi, item_at-nth items j hj)

  pub length-set : (items : List A) (i : ℕ) (y : A) → length (set items i y) ≡ length items
  length-set [] i y = refl
  length-set (x ∷ items) zero y = refl
  length-set (x ∷ items) (suc i) y = ap suc (length-set items i y)

  nth-set_self : (items : List A) (i : ℕ) (y : A) → i < length items → nth (set items i y) i ≡ y
  nth-set_self [] i y h = absurd (omega arith)
  nth-set_self (x ∷ items) zero y h = refl
  nth-set_self (x ∷ items) (suc i) y h = nth-set_self items i y (omega arith)

  nth-set_other : (items : List A) (i k : ℕ) (y : A) → k ≢ i → nth (set items i y) k ≡ nth items k
  nth-set_other [] i k y h = refl
  nth-set_other (x ∷ items) zero zero y h = absurd (h refl)
  nth-set_other (x ∷ items) zero (suc k) y h = refl
  nth-set_other (x ∷ items) (suc i) zero y h = refl
  nth-set_other (x ∷ items) (suc i) (suc k) y h = nth-set_other items i k y (λ e. h (ap suc e))

  -- `Swap` within the slice returns, with the two items exchanged.
  pub swap-Swapped :
      (items : List A) (i j : ℕ)
      → i < length items
      → j < length items
      → (items' : List A) × (swap items i j ≡ ok items')
        × (length items' ≡ length items)
        × Swapped (nth items) (nth items') i j
  unfolding swap
  swap-Swapped items i j hi hj =
      let x = nth items i in
      let y = nth items j in
      let once = set items i y in
      let room : j < length once = omega (arith, length-set items i y, hj) in
      (
        set once j x,
        ground (arith, item_at-nth items i hi, item_at-nth items j hj),
        length-set once j x ∙ length-set items i y,
        record {
          first = elim (ℕ_discrete i j) [
            | yes e ↦ ap (nth (set once j x)) e ∙ nth-set_self once j x room ∙ ap (nth items) e
            | no ne ↦ nth-set_other once j i x ne ∙ nth-set_self items i y hi
          ];
          second = nth-set_self once j x room;
          rest = λ k ni nj. nth-set_other once j k x nj ∙ nth-set_other items i k y ni;
        },
      )

  pub nth-append_left :
      (items : List A) (x : A) (k : ℕ) → k < length items → nth (items ++ x ∷ []) k ≡ nth items k
  nth-append_left [] x k h = absurd (omega arith)
  nth-append_left (y ∷ items) x zero h = refl
  nth-append_left (y ∷ items) x (suc k) h = nth-append_left items x k (omega arith)

  -- `Pop` of a slice that is not empty returns its last item and the others.
  pub pop_last-nth :
      (items : List A) (n : ℕ)
      → length items ≡ suc n
      → (rest : List A) × (pop_last items ≡ ok (nth items n, rest))
        × (length rest ≡ n)
        × ((k : ℕ) → k < n → nth rest k ≡ nth items k)
  unfolding pop_last
  pop_last-nth [] n h = absurd (omega arith)
  pop_last-nth (x ∷ []) zero h = ([], refl, refl, λ k kn. absurd (omega arith))
  pop_last-nth (x ∷ []) (suc n) h = absurd (omega arith)
  pop_last-nth (x ∷ y ∷ items) zero h = absurd (omega arith)
  pop_last-nth (x ∷ y ∷ items) (suc n) h =
      let (rest, e, l, same) = pop_last-nth (y ∷ items) n (omega arith) in
      (x ∷ rest, rw e refl, ap suc l, shifted rest same)
    where
      shifted :
          (rest : List A)
          → ((k : ℕ) → k < n → nth rest k ≡ nth (y ∷ items) k)
          → (k : ℕ) → k < suc n
          → nth (x ∷ rest) k ≡ nth (x ∷ y ∷ items) k
      shifted rest same zero kn = refl
      shifted rest same (suc k) kn = same k (omega arith)

  pub All-of_nth {κ} :
      (P : A → Type κ) (items : List A)
      → ((k : ℕ) → k < length items → P (nth items k))
      → All P items
  All-of_nth P [] h = tt
  All-of_nth P (x ∷ items) h =
      (h 0 (omega arith), All-of_nth P items (λ k kn. h (suc k) (omega arith)))
