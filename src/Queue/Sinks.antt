-- ===== src/Queue/Sinks.antt =====
-- `down` with a `lessFn` that is an order and does not panic.
use kube_arbitrator.Common.{
  ℕ, zero, suc, ◌+◌, ◌*◌, ◌<◌, ◌≤◌, ◌≡◌, refl, sym, ◌∙◌, subst, List, Bool, ok, arith, ltb, leb,
  Bool-cases, ◌⊎◌, inl, inr,
}
use native.Mathlib.Decide.{ℕ_discrete}
use kube_arbitrator.Common.Lists.{length}
use kube_arbitrator.Queue.Container.{child, down}
use kube_arbitrator.Queue.Order.{
  parent, Swapped, IsOrder, le, Ordered, SinksAt, Swapped-SinksAt, SinksAt-Ordered,
}
use kube_arbitrator.Queue.Items.{nth, less_at-nth, swap-Swapped}
use kube_arbitrator.Queue.Rises.{less, le_refl}

module _ {A : Type 0} (lt : A → A → Bool) (order : IsOrder lt) (d : A) where
  -- What `child` finds.
  pub record Finds (f : ℕ → A) (n i j : ℕ) : Type 0 where
    pub below : parent j ≡ i
    pub pos : 0 < j
    pub inside : j < n
    pub least : (k : ℕ) → 0 < k → k < n → parent k ≡ i → le lt (f j) (f k)

  only_child : (f : ℕ → A) (n i : ℕ) → 2 * i + 1 < n → n ≤ 2 * i + 2 → Finds f n i (2 * i + 1)
  only_child f n i left none_right = record {
    below = omega arith;
    pos = omega arith;
    inside = left;
    least = λ k kp kn at.
        let e : k ≡ 2 * i + 1 = omega (arith, kp, kn, at, none_right) in
        subst (λ x. le lt (f (2 * i + 1)) (f x)) (sym e) (le_refl lt order d (f (2 * i + 1)));
  }

  -- One of two children, no greater than the other one.
  lesser_child :
      (f : ℕ → A) (n i a b : ℕ)
      → 2 * i + 2 < n
      → ((a ≡ 2 * i + 1) × (b ≡ 2 * i + 2)) ⊎ ((a ≡ 2 * i + 2) × (b ≡ 2 * i + 1))
      → le lt (f a) (f b)
      → Finds f n i a
  lesser_child f n i a b room two h = record {
    below = ground (arith, two);
    pos = ground (arith, two);
    inside = ground (arith, two, room);
    least = λ k kp kn at. elim (ℕ_discrete k a) [
      | yes e ↦ subst (λ x. le lt (f a) (f x)) (sym e) (le_refl lt order d (f a))
      | no ne ↦
          let e : k ≡ b = ground (arith, two, kp, at, ne) in
          subst (λ x. le lt (f a) (f x)) (sym e) h
    ];
  }

  child-Finds :
      (items : List A) (i n : ℕ)
      → 2 * i + 1 < n
      → n ≤ length items
      → (j : ℕ) × (child (less lt order d) items (2 * i + 1) n ≡ ok j) × Finds (nth d items) n i j
  unfolding child
  child-Finds items i n left fits = elim (Bool-cases (ltb (2 * i + 1 + 1) n)) [
    | inr e ↦ (2 * i + 1, rw e refl, only_child (nth d items) n i left (ground (arith, e)))
    | inl e ↦
        let room : 2 * i + 2 < n = ground (arith, e) in
        let tested =
          less_at-nth d lt items (2 * i + 1 + 1) (2 * i + 1) (omega (arith, room, fits))
            (omega (arith, room, fits)) in
        elim (Bool-cases (lt (nth d items (2 * i + 1 + 1)) (nth d items (2 * i + 1)))) [
          | inl smaller ↦ (
            2 * i + 1 + 1,
            rw e (rw tested (rw smaller refl)),
            lesser_child (nth d items) n i (2 * i + 1 + 1) (2 * i + 1) room
                (inr (omega arith, refl)) (order.asym _ _ smaller),
          )
          | inr no_less ↦ (
            2 * i + 1,
            rw e (rw tested (rw no_less refl)),
            lesser_child (nth d items) n i (2 * i + 1) (2 * i + 1 + 1) room
                (inl (refl, omega arith)) no_less,
          )
        ]
  ]

  -- What `down` leaves: a heap of the first `n` items, and the others.
  pub record Sunk (items items' : List A) (n : ℕ) : Type 0 where
    pub same_length : length items' ≡ length items
    pub sorted : Ordered lt (nth d items') n
    pub others : (k : ℕ) → n ≤ k → nth d items' k ≡ nth d items k

  Sunk-here :
      (items : List A) (i n : ℕ)
      → ((k : ℕ) → 0 < k → k < n → parent k ≡ i → le lt (nth d items i) (nth d items k))
      → SinksAt lt (nth d items) n i
      → Sunk items items n
  Sunk-here items i n stop r = record {
    same_length = refl;
    sorted = SinksAt-Ordered lt order (nth d items) n i stop r;
    others = λ k kn. refl;
  }

  Sunk-after :
      (items moved items' : List A) (i j n : ℕ)
      → i < n
      → j < n
      → length moved ≡ length items
      → Swapped (nth d items) (nth d moved) i j
      → Sunk moved items' n
      → Sunk items items' n
  Sunk-after items moved items' i j n hi hj l s r = record {
    same_length = r.same_length ∙ l;
    sorted = r.sorted;
    others = λ k kn.
        r.others k kn
        ∙ s.rest k (λ e. absurd (omega (arith, e, hi, kn)))
            (λ e. absurd (omega (arith, e, hj, kn)));
  }

  pub down-Sunk :
      (m : ℕ) (items : List A) (i n : ℕ)
      → n ≤ i + m
      → n ≤ length items
      → SinksAt lt (nth d items) n i
      → (items' : List A) × (down m (less lt order d) items i n ≡ ok items') × Sunk items items' n
  unfolding down
  down-Sunk zero items i n enough fits r = (
    items,
    refl,
    Sunk-here items i n (λ k kp kn at. absurd (omega (arith, enough, kp, kn, at))) r,
  )
  down-Sunk (suc m) items i n enough fits r = elim (Bool-cases (leb n (2 * i + 1))) [
    | inl e ↦
        let leaf : n ≤ 2 * i + 1 = ground (arith, e) in
        (
          items,
          rw e refl,
          Sunk-here items i n (λ k kp kn at. absurd (omega (arith, leaf, kp, kn, at))) r,
        )
    | inr e ↦
        let left : 2 * i + 1 < n = ground (arith, e) in
        let (j, found, c) = child-Finds items i n left fits in
        let tested =
          less_at-nth d lt items j i (omega (arith, c.inside, fits)) (omega (arith, left, fits)) in
        elim (Bool-cases (lt (nth d items j) (nth d items i))) [
          | inr no_less ↦ (
            items,
            rw e (rw found (rw tested (rw no_less refl))),
            Sunk-here items i n
                (λ k kp kn at.
                  order.le_trans (nth d items i) (nth d items j) (nth d items k) no_less
                    (c.least k kp kn at))
                r,
          )
          | inl smaller ↦
              let (moved, s, l, exchanged) =
                swap-Swapped d items i j (omega (arith, left, fits))
                  (omega (arith, c.inside, fits)) in
              let sunk =
                Swapped-SinksAt lt order (nth d items) (nth d moved) n i j c.below c.pos c.inside
                  c.least smaller exchanged r in
              let (items', run, rest) =
                down-Sunk m moved j n (omega (arith, enough, c.below, c.pos))
                  (omega (arith, l, fits)) sunk in
              (
                items',
                rw e (rw found (rw tested (rw smaller (rw s run)))),
                Sunk-after items moved items' i j n (omega (arith, left)) c.inside l exchanged rest,
              )
        ]
  ]
