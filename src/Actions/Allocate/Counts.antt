-- ===== src/Actions/Allocate/Counts.antt =====
-- How many jobs have no queue of tasks, and how many tasks the queues hold.
use kube_arbitrator.Common.{
  ℕ, zero, suc, ◌+◌, ◌≤◌, ◌<◌, ◌≡◌, ap, List, [], ◌∷◌, map, Option, none, some, String, string_key,
  arith,
}
use kube_arbitrator.Common.Lists.{length, get_elem?}
use kube_arbitrator.Common.Map.{Map, lookup, insert, lookup-insert_self, lookup-insert_ne}

module _ {V : Type 0} where
  -- Whether a UID has no entry.
  abbrev pub absent : Option V → ℕ
  absent none = 1
  absent (some v) = 0

  -- How many of the UIDs have no entry.
  abbrev pub unseen : List String → Map String V → ℕ
  unseen [] m = 0
  unseen (u ∷ us) m = absent (lookup u m) + unseen us m

  absent-insert :
      (u k : String) (v : V) (m : Map String V)
      → absent (lookup u (insert k v m)) ≤ absent (lookup u m)
  absent-insert u k v m = elim (string_key.dec k u) [
    | yes e ↦
        let h : lookup u (insert k v m) ≡ some v = rw e (lookup-insert_self u v m) in
        rw h (omega arith)
    | no n ↦ rw (lookup-insert_ne k u v m n) (omega arith)
  ]

  pub unseen-insert :
      (us : List String) (k : String) (v : V) (m : Map String V)
      → unseen us (insert k v m) ≤ unseen us m
  unseen-insert [] k v m = omega arith
  unseen-insert (u ∷ us) k v m = omega (arith, absent-insert u k v m, unseen-insert us k v m)

  pub unseen-insert_new :
      {A : Type 0} (f : A → String) (xs : List A) (i : ℕ) (x : A) (v : V) (m : Map String V)
      → get_elem? xs i ≡ some x
      → lookup (f x) m ≡ none
      → unseen (map f xs) (insert (f x) v m) < unseen (map f xs) m
  unseen-insert_new f [] i x v m at new = cc
  unseen-insert_new f (y ∷ xs) zero x v m at new =
      let e : f y ≡ f x = ground (arith, at) in
      let here : absent (lookup (f y) (insert (f x) v m)) ≡ 0 =
        rw e (ap absent (lookup-insert_self (f x) v m)) in
      let gone : absent (lookup (f y) m) ≡ 1 = rw e (ap absent new) in
      omega (arith, here, gone, unseen-insert (map f xs) (f x) v m)
  unseen-insert_new f (y ∷ xs) (suc i) x v m at new =
      omega (arith, absent-insert (f y) (f x) v m, unseen-insert_new f xs i x v m at new)

-- The tasks of the queues, together.
abbrev pub total : {T : Type 0} → Map String (List T) → ℕ
total [] = 0
total ((k, q) ∷ m) = length q + total m

pub total-insert :
    {T : Type 0} (k : String) (q old : List T) (m : Map String (List T))
    → lookup k m ≡ some old
    → total (insert k q m) + length old ≡ total m + length q
unfolding insert lookup
total-insert k q old [] h = cc
total-insert k q old ((j, p) ∷ m) h = elim (string_key.dec j k) [
  | yes e ↦ ground (arith, e, h)
  | no n ↦ ground (arith, n, h, total-insert k q old m)
]
