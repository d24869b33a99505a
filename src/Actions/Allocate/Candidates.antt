-- ===== src/Actions/Allocate/Candidates.antt =====
-- The allocate action after the decorate action: which nodes a task is placed on.
use kube_arbitrator.Common.{
  ℕ, zero, suc, ◌+◌, ◌≡◌, ◌⊎◌, inl, inr, refl, sym, ap, ◌∙◌, subst, List, [], ◌∷◌, some, String,
  string_key, Outcome, ok, ok_inj, panic, nil_dereference, >>=-eq-ok, arith, Bool-cases,
  Option-cases,
}
use kube_arbitrator.Common.Lists.{get_elem?, set}
use kube_arbitrator.Common.Map.{Map}
use kube_arbitrator.Api.JobInfo.{JobInfo}
use kube_arbitrator.Api.NodeInfo.{NodeInfo}
use kube_arbitrator.Framework.Frame.{SameJob}
use kube_arbitrator.Actions.Decorate.{Matcher, matching}
use kube_arbitrator.Actions.Decorate.Laws.{Listed, Chosen}

pub get_elem?-set :
    {A : Type 0} (xs : List A) (i k : ℕ) (x y z : A)
    → get_elem? xs i ≡ some x
    → get_elem? (set xs i y) k ≡ some z
    → ((k ≡ i) × (z ≡ y)) ⊎ (get_elem? xs k ≡ some z)
get_elem?-set [] i k x y z at h = inr h
get_elem?-set (w ∷ xs) zero zero x y z at h = inl (refl, ground (arith, h))
get_elem?-set (w ∷ xs) zero (suc k) x y z at h = inr h
get_elem?-set (w ∷ xs) (suc i) zero x y z at h = inr h
get_elem?-set (w ∷ xs) (suc i) (suc k) x y z at h = elim (get_elem?-set xs i k x y z at h) [
  | inl (e, f) ↦ inl (ap suc e, f)
  | inr e ↦ inr e
]

get_elem?-set_same :
    {A : Type 0} (xs : List A) (i k : ℕ) (x y z : A)
    → get_elem? xs i ≡ some x
    → get_elem? xs k ≡ some z
    → ((z ≡ x) × (get_elem? (set xs i y) k ≡ some y)) ⊎ (get_elem? (set xs i y) k ≡ some z)
get_elem?-set_same [] i k x y z at h = cc
get_elem?-set_same (w ∷ xs) zero zero x y z at h = inl (ground (arith, at, h), refl)
get_elem?-set_same (w ∷ xs) zero (suc k) x y z at h = inr h
get_elem?-set_same (w ∷ xs) (suc i) zero x y z at h = inr h
get_elem?-set_same (w ∷ xs) (suc i) (suc k) x y z at h = get_elem?-set_same xs i k x y z at h

module _ (matches : Matcher) where
  -- A job asks for no nodes, or has candidates that its selector matches.
  abbrev pub Served : List NodeInfo → JobInfo → Type 0
  Served nodes job =
      (job.node_selector ≡ [])
      ⊎ ((ks : List ℕ) × (job.candidates ≡ some ks)
          × ((k : ℕ) → Listed k ks → Chosen matches job.node_selector nodes k))

  abbrev pub AllServed : List NodeInfo → List JobInfo → Type 0
  AllServed nodes jobs = (i : ℕ) (job : JobInfo) → get_elem? jobs i ≡ some job → Served nodes job

  pub Served-same :
      (nodes : List NodeInfo) (id : String) (job job' : JobInfo)
      → SameJob id job job'
      → Served nodes job
      → Served nodes job'
  Served-same nodes id job job' (_, _, sel, _) (inl e) = inl (sel ∙ e)
  Served-same nodes id job job' (_, cand, sel, _) (inr (ks, c, all)) =
      inr (ks, cand ∙ c, λ k l. subst (λ s. Chosen matches s nodes k) (sym sel) (all k l))

  Chosen-set :
      (selector : Map String String) (nodes : List NodeInfo) (i k : ℕ) (ni ni' : NodeInfo)
      → get_elem? nodes i ≡ some ni
      → ni'.node ≡ ni.node
      → Chosen matches selector nodes k
      → Chosen matches selector (set nodes i ni') k
  Chosen-set selector nodes i k ni ni' at same (old, n, there, known, fits) =
      elim (get_elem?-set_same nodes i k ni ni' old at there) [
        | inl (e, here) ↦ (ni', n, here, same ∙ ap (λ (x : NodeInfo). x.node) (sym e) ∙ known, fits)
        | inr here ↦ (old, n, here, known, fits)
      ]

  pub Served-set :
      (nodes : List NodeInfo) (i : ℕ) (ni ni' : NodeInfo) (job : JobInfo)
      → get_elem? nodes i ≡ some ni
      → ni'.node ≡ ni.node
      → Served nodes job
      → Served (set nodes i ni') job
  Served-set nodes i ni ni' job at same (inl e) = inl e
  Served-set nodes i ni ni' job at same (inr (ks, c, all)) =
      inr (ks, c, λ k l. Chosen-set job.node_selector nodes i k ni ni' at same (all k l))

  pub matching-Chosen :
      (selector : Map String String) (i : ℕ) (nodes : List NodeInfo) (ks : List ℕ)
      → matching matches selector i nodes ≡ ok ks
      → (k : ℕ) → Listed k ks
      → (d : ℕ) × (k ≡ i + d) × Chosen matches selector nodes d
  unfolding matching
  matching-Chosen selector i [] ks h k l = absurd (subst (Listed k) (sym (ok_inj h)) l)
  matching-Chosen selector i (ni ∷ nodes) ks h k l = elim (Option-cases ni.node) [
    | inl e ↦ absurd (never (matching matches selector (suc i) nodes) ks (rw (e, matching) at h))
    | inr (n, e) ↦
        let (rest, m, h₁) =
          >>=-eq-ok (matching matches selector (suc i) nodes) _ (rw (e, matching) at h) in
        let later : Listed k rest → (d : ℕ) × (k ≡ i + d) × Chosen matches selector (ni ∷ nodes) d =
          λ r.
            let (d, at, c) = matching-Chosen selector (suc i) nodes rest m k r in
            (suc d, omega (arith, at), c) in
        elim (Bool-cases (matches selector n.labels)) [
          | inr b ↦ later (subst (Listed k) (sym (ok_inj (rw b at h₁))) l)
          | inl b ↦ elim (subst (Listed k) (sym (ok_inj (rw b at h₁))) l) [
            | inl here ↦ (0, omega (arith, here), (ni, n, refl, e, b))
            | inr r ↦ later r
          ]
        ]
  ]
    where
      never :
          (o : Outcome (List ℕ)) (ks : List ℕ)
          → ◌≡◌ {A = Outcome (List ℕ)} (panic nil_dereference) (ok ks)
          → ⊥
      never o ks h = cc
