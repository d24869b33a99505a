-- ===== src/Common/Loop.antt =====
-- Loops of which a round runs code that can panic, on fuel. `none` is the model's: the fuel ran out.
use Prim.Native.Nat.{ℕ, zero, suc, ◌≤◌, ◌<◌}
use mathlib.Core.Path.{◌≡◌, refl}
use mathlib.Core.Logic.{◌⊎◌, inl, inr}
use mathlib.Core.Option.{Option, none, some}
use native.Mathlib.Omega.{arith}
use kube_arbitrator.Common.Effect.{Outcome, ok, panic}

-- How a round ends: the loop stops with a result, or goes on with new variables.
pub data Next {ℓ} (S R : Type ℓ) : Type ℓ where
  stop : R → Next S R
  again : S → Next S R

module _ {ℓ} {S R : Type ℓ} where
  pub again_inj : {s t : S} → ◌≡◌ {A = Next S R} (again s) (again t) → s ≡ t
  again_inj h = cc

  pub stop_inj : {r q : R} → ◌≡◌ {A = Next S R} (stop r) (stop q) → r ≡ q
  stop_inj h = cc

-- What follows a round.
abbrev pub follow {ℓ} :
    {S R : Type ℓ} → (S → Option (Outcome R)) → Outcome (Next S R) → Option (Outcome R)
follow go (panic p) = some (panic p)
follow go (ok (stop r)) = some (ok r)
follow go (ok (again s)) = go s

-- What follows code that has ended.
abbrev pub and_then {ℓ} :
    {A B : Type ℓ} → Option (Outcome A) → (A → Option (Outcome B)) → Option (Outcome B)
and_then none rest = none
and_then (some (panic p)) rest = some (panic p)
and_then (some (ok x)) rest = rest x

pub and_then-eq-ok {ℓ} :
    {A B : Type ℓ} (o : Option (Outcome A)) (rest : A → Option (Outcome B)) (b : B)
    → and_then o rest ≡ some (ok b)
    → (x : A) × (o ≡ some (ok x)) × (rest x ≡ some (ok b))
and_then-eq-ok none rest b h = cc
and_then-eq-ok (some (panic p)) rest b h = cc
and_then-eq-ok (some (ok x)) rest b h = (x, refl, h)

pub and_then_more {ℓ} :
    {A B : Type ℓ} (o o' : Option (Outcome A)) (rest rest' : A → Option (Outcome B)) (r : Outcome B)
    → ((x : Outcome A) → o ≡ some x → o' ≡ some x)
    → ((x : A) → rest x ≡ some r → rest' x ≡ some r)
    → and_then o rest ≡ some r
    → and_then o' rest' ≡ some r
and_then_more none o' rest rest' r f g h = cc
and_then_more (some (panic p)) o' rest rest' r f g h =
    let e : o' ≡ some (panic p) = f (panic p) refl in rw e h
and_then_more (some (ok x)) o' rest rest' r f g h =
    let e : o' ≡ some (ok x) = f (ok x) refl in rw e (g x h)

module _ {ℓ} {S R : Type ℓ} (round : S → Outcome (Next S R)) where
  unfoldable pub loop : ℕ → S → Option (Outcome R)
  loop zero s = none
  loop (suc n) s = follow (loop n) (round s)

  module _ {κ} (P : S → R → Type κ) where
    after_round :
        (go : S → Option (Outcome R)) (s : S) (r : R) (o : Outcome (Next S R))
        → ((r : R) → o ≡ ok (stop r) → P s r)
        → ((t : S) (r : R) → o ≡ ok (again t) → P t r → P s r)
        → ((t : S) → go t ≡ some (ok r) → P t r)
        → follow go o ≡ some (ok r)
        → P s r
    after_round go s r (panic p) last back rest h = cc
    after_round go s r (ok (stop q)) last back rest h = last r (cc)
    after_round go s r (ok (again t)) last back rest h = back t r refl (rest t h)

    -- A relation that holds at each round that stops, and passes back through the others, holds
    -- between the start of a loop and its result.
    pub loop_inv :
        ((s : S) (r : R) → round s ≡ ok (stop r) → P s r)
        → ((s t : S) (r : R) → round s ≡ ok (again t) → P t r → P s r)
        → (n : ℕ) (s : S) (r : R) → loop n s ≡ some (ok r)
        → P s r
    unfolding loop
    loop_inv last back zero s r h = cc
    loop_inv last back (suc n) s r h =
        after_round (loop n) s r (round s) (last s) (back s) (λ t e. loop_inv last back n t r e) h

  after_more :
      (go go' : S → Option (Outcome R)) (o : Outcome (Next S R)) (r : Outcome R)
      → ((t : S) → go t ≡ some r → go' t ≡ some r)
      → follow go o ≡ some r
      → follow go' o ≡ some r
  after_more go go' (panic p) r keep h = h
  after_more go go' (ok (stop q)) r keep h = h
  after_more go go' (ok (again t)) r keep h = keep t h

  -- More fuel does not change a result.
  pub loop_more : (n m : ℕ) (s : S) (r : Outcome R) → n ≤ m → loop n s ≡ some r → loop m s ≡ some r
  unfolding loop
  loop_more zero m s r le h = cc
  loop_more (suc n) zero s r le h = absurd (omega arith)
  loop_more (suc n) (suc m) s r le h =
      after_more (loop n) (loop m) (round s) r (λ t e. loop_more n m t r (omega arith) e) h

  -- Some fuel is enough for the loop from here.
  abbrev pub Ends : S → Type ℓ
  Ends s = (n : ℕ) × (r : Outcome R) × (loop n s ≡ some r)

  after-Ends :
      (s : S) (o : Outcome (Next S R))
      → round s ≡ o
      → ((t : S) → o ≡ ok (again t) → Ends t)
      → Ends s
  unfolding loop
  after-Ends s (panic p) e rest = (1, panic p, rw e refl)
  after-Ends s (ok (stop r)) e rest = (1, ok r, rw e refl)
  after-Ends s (ok (again t)) e rest = let (n, r, h) = rest t refl in (suc n, r, rw e h)

  module _ {κ} (P : S → Type κ) where
    -- A loop ends of which each round that goes on lowers two ranks, in lexicographic order.
    pub loop-Ends :
        (outer inner : S → ℕ)
        → ((s t : S)
            → P s
            → round s ≡ ok (again t)
            → P t × ((outer t < outer s) ⊎ ((outer t ≤ outer s) × (inner t < inner s))))
        → (a b : ℕ) (s : S) → P s
        → outer s < a
        → inner s < b
        → Ends s
    loop-Ends outer inner lower zero b s p ha hb = absurd (omega arith)
    loop-Ends outer inner lower (suc a) zero s p ha hb = absurd (omega arith)
    loop-Ends outer inner lower (suc a) (suc b) s p ha hb = after-Ends s (round s) refl (λ t e.
        let (q, ranks) = lower s t p e in
        elim ranks [
          | inl h ↦ loop-Ends outer inner lower a (suc (inner t)) t q (omega arith) (omega arith)
          | inr (h, k) ↦ loop-Ends outer inner lower (suc a) b t q (omega arith) (omega arith)
        ])

    after_enough :
        (n : ℕ) (o : Outcome (Next S R))
        → ((t : S) → o ≡ ok (again t) → (r : Outcome R) × (loop n t ≡ some r))
        → (r : Outcome R) × (follow (loop n) o ≡ some r)
    after_enough n (panic p) rest = (panic p, refl)
    after_enough n (ok (stop r)) rest = (ok r, refl)
    after_enough n (ok (again t)) rest = rest t refl

    -- Fuel above a measure that each round lowers is enough.
    pub loop_enough :
        (measure : S → ℕ)
        → ((s t : S) → P s → round s ≡ ok (again t) → P t × (measure t < measure s))
        → (n : ℕ) (s : S) → P s
        → measure s < n
        → (r : Outcome R) × (loop n s ≡ some r)
    unfolding loop
    loop_enough measure lower zero s p h = absurd (omega arith)
    loop_enough measure lower (suc n) s p h =
        after_enough n (round s)
          (λ t e. let (q, less) = lower s t p e in loop_enough measure lower n t q (omega arith))
