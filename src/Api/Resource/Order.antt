-- ===== src/Api/Resource/Order.antt =====
-- The order on resources, and what `sub` makes of it.
use kube_arbitrator.Common.{
  ◌-◌, ◌≤◌, ◌≡◌, ◌↔◌, inl, inr, true, false, arith, Bool-cases, ok, Panic, panic,
  insufficient_resource,
}
use kube_arbitrator.Api.Resource.{Resource, less, less_equal, add, sub}

-- One amount fits into another, name by name.
pub record Fits (r rr : Resource) : Type 0 where
  pub milli_cpu_le : r.milli_cpu ≤ rr.milli_cpu
  pub memory_le : r.memory ≤ rr.memory
  pub gpu_le : r.gpu ≤ rr.gpu

pub Fits-of_less_equal : (r rr : Resource) → less_equal r rr ≡ true → Fits r rr
unfolding less_equal
Fits-of_less_equal r rr h = ground arith

pub less_equal-of_Fits : (r rr : Resource) → Fits r rr → less_equal r rr ≡ true
unfolding less_equal
less_equal-of_Fits r rr h = ground arith

pub Fits-trans : {r s t : Resource} → Fits r s → Fits s t → Fits r t
Fits-trans h k = omega arith

-- Strictly less in every component implies `LessEqual`, and excludes it the other way round.
pub less-less_equal :
    (r rr : Resource) → less r rr ≡ true → (less_equal r rr ≡ true) × (less_equal rr r ≡ false)
unfolding less less_equal
less-less_equal r rr h = (ground arith, ground arith)

-- `Sub` gives back what `Add` put in, whatever the two amounts.
pub sub-add : (r rr : Resource) → sub (add r rr) rr ≡ ok r
unfolding sub add
sub-add r rr = ground arith

-- `Sub` returns `s` exactly when `s` and the subtrahend add up to the minuend.
pub sub_iff : (r rr s : Resource) → (sub r rr ≡ ok s) ↔ (add s rr ≡ r)
unfolding sub add
sub_iff r rr s = (λ h. ground arith, λ h. ground arith)

-- `Sub` panics exactly where the subtrahend does not fit.
pub sub_panics_iff : (r rr : Resource) → (sub r rr ≡ panic insufficient_resource) ↔ (¬ Fits rr r)
unfolding sub less_equal
sub_panics_iff r rr = (λ h k. ground arith, λ h. ground arith)

pub sub-of_Fits :
    (r rr : Resource) → Fits rr r → (s : Resource) × (sub r rr ≡ ok s) × (add s rr ≡ r)
unfolding sub add less_equal
sub-of_Fits r rr h = (
  record {
    milli_cpu = r.milli_cpu - rr.milli_cpu;
    memory = r.memory - rr.memory;
    gpu = r.gpu - rr.gpu;
  },
  ground arith,
  ground arith,
)

pub sub_panic : (r rr : Resource) {p : Panic} → sub r rr ≡ panic p → p ≡ insufficient_resource
unfolding sub
sub_panic r rr h = ground arith

pub dec_Fits : (r rr : Resource) → Dec (Fits r rr)
dec_Fits r rr = elim (Bool-cases (less_equal r rr)) [
  | inl h ↦ yes (Fits-of_less_equal r rr h)
  | inr h ↦ no (λ fits. ground (arith, less_equal-of_Fits r rr fits))
]
