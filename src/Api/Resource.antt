-- ===== src/Api/Resource.antt =====
-- pkg/scheduler/api/resource_info.go. `MilliCPU` and `Memory` are float64 in the source, and are
-- only ever filled with whole numbers (`float64(q.MilliValue())`, `float64(q.Value())`), which
-- float64 adds, subtracts and compares exactly below 2^53. So the fields are natural numbers, and
-- the tolerances of `LessEqual` stay written out. Amounts in Kubernetes are not negative.
pub mod Order
pub mod Sum
use kube_arbitrator.Common.{
  ℕ, ◌+◌, ◌-◌, ◌*◌, Bool, ◌&&◌, ◌||◌, List, [], ◌∷◌, String, ltb, leb, ◌==◌, if◌then◌else◌, Outcome,
  ok, panic, insufficient_resource, unknown_resource,
}

pub record Resource : Type 0 where
  pub milli_cpu : ℕ
  pub memory : ℕ
  pub gpu : ℕ

-- `v1.ResourceName`: the three names that the code tests for, and any other.
pub data ResourceName : Type 0 where
  cpu_name memory_name gpu_name : ResourceName
  other_name : String → ResourceName

-- A `resource.Quantity` is what the code reads of it: the results of its methods `MilliValue`,
-- `Value` and `AsInt64`, which are not this repository's.
pub record Quantity : Type 0 where
  pub milli_value : ℕ
  pub value : ℕ
  pub as_int64 : ℕ

abbrev pub ResourceList : Type 0
ResourceList = List (ResourceName × Quantity)

abbrev pub empty_resource : Resource
empty_resource = record { milli_cpu = 0; memory = 0; gpu = 0 }

abbrev pub clone : Resource → Resource
clone r = record { milli_cpu = r.milli_cpu; memory = r.memory; gpu = r.gpu }

abbrev pub min_milli_cpu : ℕ
min_milli_cpu = 10

abbrev pub min_memory : ℕ
min_memory = 10 * 1024 * 1024

-- The body of the loop of `NewResource`.
unfoldable pub add_quantity : Resource → ResourceName → Quantity → Resource
add_quantity r cpu_name q = record r { milli_cpu = r.milli_cpu + q.milli_value }
add_quantity r memory_name q = record r { memory = r.memory + q.value }
add_quantity r gpu_name q = record r { gpu = r.gpu + q.as_int64 }
add_quantity r (other_name n) q = r

unfoldable pub add_quantities : Resource → ResourceList → Resource
unfolding add_quantity
add_quantities r [] = r
add_quantities r ((n, q) ∷ rl) = add_quantities (add_quantity r n q) rl

unfoldable pub new_resource : ResourceList → Resource
unfolding add_quantities
new_resource rl = add_quantities empty_resource rl

unfoldable pub is_empty : Resource → Bool
is_empty r = ltb r.milli_cpu min_milli_cpu && ltb r.memory min_memory && r.gpu == 0

unfoldable pub is_zero : Resource → ResourceName → Outcome Bool
is_zero r cpu_name = ok (ltb r.milli_cpu min_milli_cpu)
is_zero r memory_name = ok (ltb r.memory min_memory)
is_zero r gpu_name = ok (r.gpu == 0)
is_zero r (other_name n) = panic unknown_resource

unfoldable pub add : Resource → Resource → Resource
add r rr = record {
  milli_cpu = r.milli_cpu + rr.milli_cpu;
  memory = r.memory + rr.memory;
  gpu = r.gpu + rr.gpu;
}

-- `math.Abs(a - b)`.
abbrev pub abs_diff : ℕ → ℕ → ℕ
abs_diff a b = (a - b) + (b - a)

unfoldable pub less : Resource → Resource → Bool
less r rr = ltb r.milli_cpu rr.milli_cpu && ltb r.memory rr.memory && ltb r.gpu rr.gpu

-- `LessEqual`. `math.Abs(...) < 0.01` is `100 * |...| < 1`. The amounts are whole numbers, as `NewResource`
-- makes them, so that neither tolerance lets a larger amount pass.
unfoldable pub less_equal : Resource → Resource → Bool
less_equal r rr =
    (ltb r.milli_cpu rr.milli_cpu || ltb (100 * abs_diff rr.milli_cpu r.milli_cpu) 1)
    && (ltb r.memory rr.memory || ltb (abs_diff rr.memory r.memory) 1)
    && leb r.gpu rr.gpu

unfoldable pub sub : Resource → Resource → Outcome Resource
unfolding less_equal
sub r rr =
    if less_equal rr r
    then ok (record {
      milli_cpu = r.milli_cpu - rr.milli_cpu;
      memory = r.memory - rr.memory;
      gpu = r.gpu - rr.gpu;
    })
    else panic insufficient_resource

unfoldable pub get : Resource → ResourceName → Outcome ℕ
get r cpu_name = ok r.milli_cpu
get r memory_name = ok r.memory
get r gpu_name = ok r.gpu
get r (other_name n) = panic unknown_resource

abbrev pub resource_names : List ResourceName
resource_names = cpu_name ∷ memory_name ∷ gpu_name ∷ []
