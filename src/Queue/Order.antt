-- ===== src/Queue/Order.antt =====
-- The order of a heap, of the values at its positions: an exchange of a parent and a child moves the one
-- place where the order is broken up or down.
use kube_arbitrator.Common.{
  ℕ, zero, suc, ◌-◌, ◌/◌, ◌<◌, ◌≡◌, ◌≢◌, refl, sym, ap, ◌∙◌, Bool, true, false, arith, ◌⊎◌, inl,
  inr,
}
use native.Mathlib.Decide.{ℕ_discrete}

abbrev pub parent : ℕ → ℕ
parent k = (k - 1) / 2

module _ {A : Type 0} where
  -- The values at two positions have changed places.
  pub record Swapped (f g : ℕ → A) (i j : ℕ) : Type 0 where
    pub first : g i ≡ f j
    pub second : g j ≡ f i
    pub rest : (k : ℕ) → k ≢ i → k ≢ j → g k ≡ f k

module _ {A : Type 0} (lt : A → A → Bool) where
  -- A strict order of which the negation is transitive: what `sort` and `heap` ask of `Less`.
  pub record IsOrder : Type 0 where
    pub asym : (a b : A) → lt a b ≡ true → lt b a ≡ false
    pub le_trans : (a b c : A) → lt b a ≡ false → lt c b ≡ false → lt c a ≡ false

  abbrev pub le : A → A → Type 0
  le a b = lt b a ≡ false

  -- No item among the first `n` is less than its parent.
  abbrev pub Ordered : (ℕ → A) → ℕ → Type 0
  Ordered f n = (k : ℕ) → 0 < k → k < n → le (f (parent k)) (f k)

  -- But for the item at `j`, which is no greater than what is below it.
  pub record RisesAt (f : ℕ → A) (n j : ℕ) : Type 0 where
    pub others : (k : ℕ) → 0 < k → k < n → k ≢ j → le (f (parent k)) (f k)
    pub around : (k : ℕ) → 0 < k → k < n → parent k ≡ j → 0 < j → le (f (parent j)) (f k)

  -- But for the item at `i`, which may be greater than its children.
  pub record SinksAt (f : ℕ → A) (n i : ℕ) : Type 0 where
    pub others : (k : ℕ) → 0 < k → k < n → parent k ≢ i → le (f (parent k)) (f k)
    pub around : (k : ℕ) → 0 < k → k < n → parent k ≡ i → 0 < i → le (f (parent i)) (f k)

  module _ (order : IsOrder) where
    le_by : {a a' b b' : A} → a ≡ a' → b ≡ b' → le a' b' → le a b
    le_by e e' h = ground (arith, e, e', h)

    -- One round of `up`.
    pub Swapped-RisesAt :
        (f g : ℕ → A) (n j : ℕ)
        → 0 < j
        → j < n
        → lt (f j) (f (parent j)) ≡ true
        → Swapped f g (parent j) j
        → RisesAt f n j
        → RisesAt g n (parent j)
    Swapped-RisesAt f g n j pos below smaller s r = record {
      others = λ k kp kn off. elim (ℕ_discrete k j) [
        | yes e ↦
            le_by (ap (λ x. g (parent x)) e ∙ s.first) (ap g e ∙ s.second)
              (order.asym (f j) (f (parent j)) smaller)
        | no ne ↦
            let same : g k ≡ f k = s.rest k off ne in
            elim (ℕ_discrete (parent k) j) [
              | yes e ↦ le_by (ap g e ∙ s.second) same (r.around k kp kn e pos)
              | no np ↦ elim (ℕ_discrete (parent k) (parent j)) [
                | yes e ↦ le_by (ap g e ∙ s.first) same (
                    order.le_trans (f j) (f (parent j)) (f k)
                      (order.asym (f j) (f (parent j)) smaller)
                      (le_by (ap f (sym e)) refl (r.others k kp kn ne)))
                | no nq ↦ le_by (s.rest (parent k) nq np) same (r.others k kp kn ne)
              ]
            ]
      ];
      around = λ k kp kn at ip.
          let above : le (f (parent (parent j))) (f (parent j)) =
            r.others (parent j) ip (omega (arith, below)) (omega (arith, pos)) in
          let high : g (parent (parent j)) ≡ f (parent (parent j)) =
            s.rest (parent (parent j)) (omega (arith, ip)) (omega (arith, pos)) in
          elim (ℕ_discrete k j) [
            | yes e ↦ le_by high (ap g e ∙ s.second) above
            | no ne ↦ le_by high (s.rest k (omega (arith, kp, at)) ne) (
                order.le_trans (f (parent (parent j))) (f (parent j)) (f k) above
                  (le_by (ap f (sym at)) refl (r.others k kp kn ne)))
          ];
    }

    -- The last round of `up`.
    pub RisesAt-Ordered :
        (f : ℕ → A) (n j : ℕ) → (j ≡ 0) ⊎ le (f (parent j)) (f j) → RisesAt f n j → Ordered f n
    RisesAt-Ordered f n j stop r k kp kn = elim (ℕ_discrete k j) [
      | no ne ↦ r.others k kp kn ne
      | yes e ↦ elim stop [
        | inl z ↦ absurd (omega (arith, kp, e, z))
        | inr h ↦ le_by (ap (λ x. f (parent x)) e) (ap f e) h
      ]
    ]

    -- One round of `down`, to the child `j` that is less than the other one.
    pub Swapped-SinksAt :
        (f g : ℕ → A) (n i j : ℕ)
        → parent j ≡ i
        → 0 < j
        → j < n
        → ((k : ℕ) → 0 < k → k < n → parent k ≡ i → le (f j) (f k))
        → lt (f j) (f i) ≡ true
        → Swapped f g i j
        → SinksAt f n i
        → SinksAt g n j
    Swapped-SinksAt f g n i j up pos below least smaller s r = record {
      others = λ k kp kn off. elim (ℕ_discrete k j) [
        | yes e ↦
            le_by (ap (λ x. g (parent x)) e ∙ ap g up ∙ s.first) (ap g e ∙ s.second)
              (order.asym (f j) (f i) smaller)
        | no ne ↦ elim (ℕ_discrete (parent k) i) [
          | yes e ↦ le_by (ap g e ∙ s.first) (s.rest k (omega (arith, e, kp)) ne) (least k kp kn e)
          | no np ↦ elim (ℕ_discrete k i) [
            | yes e ↦ le_by (s.rest (parent k) np off) (ap g e ∙ s.first) (
                le_by (ap (λ x. f (parent x)) e) refl
                  (r.around j pos below up (omega (arith, e, kp))))
            | no ni ↦ le_by (s.rest (parent k) np off) (s.rest k ni ne) (r.others k kp kn np)
          ]
        ]
      ];
      around = λ k kp kn at jp.
          le_by (ap g up ∙ s.first)
            (s.rest k (omega (arith, kp, at, up, pos)) (omega (arith, kp, at)))
            (le_by (ap f (sym at)) refl (r.others k kp kn (omega (arith, at, up, pos))));
    }

    -- The last round of `down`.
    pub SinksAt-Ordered :
        (f : ℕ → A) (n i : ℕ)
        → ((k : ℕ) → 0 < k → k < n → parent k ≡ i → le (f i) (f k))
        → SinksAt f n i
        → Ordered f n
    SinksAt-Ordered f n i stop r k kp kn = elim (ℕ_discrete (parent k) i) [
      | no ne ↦ r.others k kp kn ne
      | yes e ↦ le_by (ap f e) refl (stop k kp kn e)
    ]

    -- The root of a heap is no greater than any other item.
    pub Ordered-root :
        (f : ℕ → A) (n : ℕ)
        → Ordered f n
        → (bound k : ℕ) → k < bound
        → 0 < k
        → k < n
        → le (f 0) (f k)
    Ordered-root f n h zero k kb kp kn = absurd (omega arith)
    Ordered-root f n h (suc bound) k kb kp kn = elim (ℕ_discrete (parent k) 0) [
      | yes e ↦ le_by (ap f (sym e)) refl (h k kp kn)
      | no ne ↦
          order.le_trans (f 0) (f (parent k)) (f k)
            (Ordered-root f n h bound (parent k) (omega arith) (omega arith) (omega arith))
            (h k kp kn)
    ]
