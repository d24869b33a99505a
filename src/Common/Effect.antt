-- ===== src/Common/Effect.antt =====
-- What a Go call can do besides returning: panic. An `error` that is returned is a value.
use mathlib.Core.Path.{◌≡◌, refl}
use mathlib.Core.Logic.{◌⊎◌, inl, inr}

pub data Panic : Type 0 where
  insufficient_resource unknown_resource nil_dereference empty_queue out_of_range : Panic

-- The result of a call on values of type `V`.
pub data Outcome {ℓ} (V : Type ℓ) : Type ℓ where
  panic : Panic → Outcome V
  ok : V → Outcome V

infixl 5 ◌>>=◌
-- A panic skips the rest of the chain.
abbrev pub ◌>>=◌ {ℓ κ} :
    {V : Type ℓ} {W : Type κ} (call : Outcome V) (rest : V → Outcome W) → Outcome W
panic p >>= rest = panic p
ok v >>= rest = rest v

-- A chain returned: so did its first call, with a value from which the rest returned.
pub >>=-eq-ok {ℓ κ} :
    {V : Type ℓ} {W : Type κ} (call : Outcome V) (rest : V → Outcome W) {w : W}
    → (call >>= rest) ≡ ok w
    → (v : V) × (call ≡ ok v) × (rest v ≡ ok w)
>>=-eq-ok (panic p) rest returned = cc
>>=-eq-ok (ok v) rest returned = (v, refl, returned)

pub Outcome-cases {ℓ} :
    {A : Type ℓ} (m : Outcome A) → ((p : Panic) × (m ≡ panic p)) ⊎ ((a : A) × (m ≡ ok a))
Outcome-cases (ok a) = inr (a, refl)
Outcome-cases (panic p) = inl (p, refl)

pub ok_inj {ℓ} : {A : Type ℓ} {a b : A} → ok a ≡ ok b → a ≡ b
ok_inj h = cc

pub ok_not_panic {ℓ} : {A : Type ℓ} {a : A} {p : Panic} → ok a ≡ panic p → ⊥
ok_not_panic h = cc
