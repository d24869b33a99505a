-- ===== src/Api/Requested.antt =====
-- What the tasks of a map request together, the yardstick for the accounts of jobs and nodes, and
-- maps whose keys are distinct, as those of a Go map are.
use kube_arbitrator.Common.{
  ◌≡◌, refl, ◌≢◌, Bool, [], ◌∷◌, ◌++◌, none, some, String, string_key, arith, if◌then◌else◌, if_pos,
  if_neg,
}
use kube_arbitrator.Common.Lists.{All}
use kube_arbitrator.Common.Map.{
  Map, Key, lookup, insert, remove, lookup-insert, lookup-remove, remove_absent,
}
use kube_arbitrator.Api.Resource.{Resource, empty_resource, add}
use kube_arbitrator.Api.Resource.Sum.{add_left_comm}
use kube_arbitrator.Api.TaskInfo.{TaskInfo, TasksMap}

-- No key occurs twice.
abbrev pub Distinct {ℓ} : {K V : Type ℓ} ⦃d : Key K⦄ → Map K V → Type ℓ
Distinct [] = Unit
Distinct ((k, v) ∷ m) = (lookup k m ≡ none) × Distinct m

module _ {ℓ} {K V : Type ℓ} ⦃d : Key K⦄ where
  pub Distinct-insert : (k : K) (v : V) (m : Map K V) → Distinct m → Distinct (insert k v m)
  unfolding insert lookup
  Distinct-insert k v [] h = (refl, tt)
  Distinct-insert k v ((j, w) ∷ m) h =
      ground (arith, Distinct-insert k v m h.1, lookup-insert k j v m)

  pub Distinct-remove : (k : K) (m : Map K V) → Distinct m → Distinct (remove k m)
  unfolding remove
  Distinct-remove k [] h = tt
  Distinct-remove k ((j, w) ∷ m) h = ground (arith, Distinct-remove k m h.1, lookup-remove k j m)

  pub insert_absent :
      (k : K) (v : V) (m : Map K V) → lookup k m ≡ none → insert k v m ≡ m ++ (k, v) ∷ []
  unfolding lookup insert
  insert_absent k v [] h = refl
  insert_absent k v ((j, w) ∷ m) h = ground (arith, insert_absent k v m)

  lookup_middle : (j k : K) (v : V) (m n : Map K V) → lookup j (m ++ (k, v) ∷ n) ≡ none → j ≢ k
  unfolding lookup
  lookup_middle j k v [] n h = λ e. ground arith
  lookup_middle j k v ((i, w) ∷ m) n h = λ e. ground (arith, lookup_middle j k v m n)

  pub Distinct-middle :
      (k : K) (v : V) (m n : Map K V) → Distinct (m ++ (k, v) ∷ n) → lookup k m ≡ none
  unfolding lookup
  Distinct-middle k v [] n h = refl
  Distinct-middle k v ((j, w) ∷ m) n h =
      ground (arith, Distinct-middle k v m n h.1, lookup_middle j k v m n)

module _ {ℓ κ} {K V : Type ℓ} ⦃d : Key K⦄ (P : K × V → Type κ) where
  pub All-insert : (k : K) (v : V) (m : Map K V) → All P m → P (k, v) → All P (insert k v m)
  unfolding insert
  All-insert k v [] h p = (p, tt)
  All-insert k v ((j, w) ∷ m) h p = elim (d.dec j k) [
    | yes e ↦ rw (if_pos _ e) (p, h.1)
    | no e ↦ rw (if_neg _ e) (h.0, All-insert k v m h.1 p)
  ]

  pub All-remove : (k : K) (m : Map K V) → All P m → All P (remove k m)
  unfolding remove
  All-remove k [] h = tt
  All-remove k ((j, w) ∷ m) h = elim (d.dec j k) [
    | yes e ↦ rw (if_pos _ e) (All-remove k m h.1)
    | no e ↦ rw (if_neg _ e) (h.0, All-remove k m h.1)
  ]

-- The sum of the requests of the tasks that `p` selects.
unfoldable pub requested : (TaskInfo → Bool) → TasksMap → Resource
requested p [] = empty_resource
requested p ((k, t) ∷ m) = if p t then add t.resreq (requested p m) else requested p m

-- What one task adds to that sum.
abbrev pub share_of : (TaskInfo → Bool) → TaskInfo → Resource → Resource
share_of p t r = if p t then add t.resreq r else r

pub requested-insert :
    (p : TaskInfo → Bool) (k : String) (t : TaskInfo) (m : TasksMap)
    → lookup k m ≡ none
    → requested p (insert k t m) ≡ share_of p t (requested p m)
unfolding requested insert lookup
requested-insert p k t [] h = refl
requested-insert p k t ((j, w) ∷ m) h =
    ground (arith, requested-insert p k t m, add_left_comm w.resreq t.resreq (requested p m))

pub requested-remove :
    (p : TaskInfo → Bool) (k : String) (t : TaskInfo) (m : TasksMap)
    → Distinct m
    → lookup k m ≡ some t
    → requested p m ≡ share_of p t (requested p (remove k m))
unfolding requested remove lookup
requested-remove p k t [] d h = cc
requested-remove p k t ((j, w) ∷ m) d h = ground (
  arith,
  requested-remove p k t m,
  remove_absent k m,
  add_left_comm w.resreq t.resreq (requested p (remove k m)),
)
