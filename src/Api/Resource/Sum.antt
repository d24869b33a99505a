-- ===== src/Api/Resource/Sum.antt =====
-- Sums of resources: `NewResource` does not depend on the order in which the map is visited.
use kube_arbitrator.Common.{◌≡◌, refl, sym, ap, ap₂, ◌∙◌, [], ◌∷◌, arith}
use mathlib.Core.List.{Perm, Permᴰ}
use mathlib.Core.Logic.{∥∥₁_elim}
use kube_arbitrator.Api.Resource.{
  Resource, ResourceName, cpu_name, memory_name, gpu_name, other_name, Quantity, ResourceList, add,
  empty_resource, add_quantity, add_quantities, new_resource,
}

pub add_comm : (r s : Resource) → add r s ≡ add s r
unfolding add
add_comm r s = ground arith

pub add_assoc : (r s t : Resource) → add (add r s) t ≡ add r (add s t)
unfolding add
add_assoc r s t = ground arith

pub add_left_comm : (r s t : Resource) → add r (add s t) ≡ add s (add r t)
unfolding add
add_left_comm r s t = ground arith

pub add_cancel : (a q r s : Resource) → add a s ≡ add q (add r s) → add r q ≡ a
unfolding add
add_cancel a q r s h = ground arith

pub add-empty : (r : Resource) → add r empty_resource ≡ r
unfolding add
add-empty r = ground arith

pub empty-add : (r : Resource) → add empty_resource r ≡ r
unfolding add
empty-add r = ground arith

-- What one entry of a resource list contributes.
entry : ResourceName × Quantity → Resource
entry (cpu_name, q) = record { milli_cpu = q.milli_value; memory = 0; gpu = 0 }
entry (memory_name, q) = record { milli_cpu = 0; memory = q.value; gpu = 0 }
entry (gpu_name, q) = record { milli_cpu = 0; memory = 0; gpu = q.as_int64 }
entry (other_name n, q) = empty_resource

add_quantity-entry :
    (r : Resource) (n : ResourceName) (q : Quantity) → add_quantity r n q ≡ add r (entry (n, q))
unfolding add_quantity add entry
add_quantity-entry r cpu_name q = ground arith
add_quantity-entry r memory_name q = ground arith
add_quantity-entry r gpu_name q = ground arith
add_quantity-entry r (other_name n) q = ground arith

entries : ResourceList → Resource
entries [] = empty_resource
entries (e ∷ rl) = add (entry e) (entries rl)

add_quantities-entries :
    (r : Resource) (rl : ResourceList) → add_quantities r rl ≡ add r (entries rl)
unfolding add_quantities entries
add_quantities-entries r [] = sym (add-empty r)
add_quantities-entries r ((n, q) ∷ rl) =
    rw (add_quantities-entries (add_quantity r n q) rl, add_quantity-entry)
      (add_assoc r (entry (n, q)) (entries rl))

entries-perm : {xs ys : ResourceList} → Permᴰ xs ys → entries xs ≡ entries ys
unfolding entries
entries-perm Permᴰ.nil = refl
entries-perm (Permᴰ.cons e p) = ap₂ (λ a b. add (entry a) b) e (entries-perm p)
entries-perm (Permᴰ.swap {a} {b} {l = l} e f) =
    rw (← e, ← f)
      (sym (add_assoc (entry a) (entry b) (entries l))
        ∙ ap (λ r. add r (entries l)) (add_comm (entry a) (entry b))
        ∙ add_assoc (entry b) (entry a) (entries l))
entries-perm (Permᴰ.trans p q) = entries-perm p ∙ entries-perm q

Resource-set : IsSet Resource
Resource-set = hlevel

-- Whatever order the list of requests is visited in, the resource is the same.
pub new_resource-perm : {xs ys : ResourceList} → Perm xs ys → new_resource xs ≡ new_resource ys
unfolding new_resource
new_resource-perm {xs} {ys} p =
    add_quantities-entries empty_resource xs
    ∙ ap (add empty_resource) (∥∥₁_elim p (Resource-set _ _) entries-perm)
    ∙ sym (add_quantities-entries empty_resource ys)
