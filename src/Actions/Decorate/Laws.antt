-- ===== src/Actions/Decorate/Laws.antt =====
-- Which nodes the decorate action offers a job, and where it panics.
use kube_arbitrator.Common.{
  ℕ, zero, suc, ◌+◌, ◌≡◌, ◌≢◌, ◌↔◌, ◌⊎◌, inl, inr, refl, true, List, [], ◌∷◌, none, some, String,
  ok, panic, nil_dereference, arith, subst, Bool-cases,
}
use kube_arbitrator.Common.Lists.{All, get_elem?, List-cases}
use kube_arbitrator.Common.Map.{Map}
use kube_arbitrator.Api.Objects.{Node}
use kube_arbitrator.Api.JobInfo.{JobInfo}
use kube_arbitrator.Api.NodeInfo.{NodeInfo}
use kube_arbitrator.Actions.Decorate.{Matcher, matching, fetch_match_nodes}

-- Every node of the list has its node object.
abbrev pub AllKnown : List NodeInfo → Type 0
AllKnown = All (λ ni. (n : Node) × (ni.node ≡ some n))

-- The position is in the list.
abbrev pub Listed : ℕ → List ℕ → Type 0
Listed i [] = ⊥
Listed i (j ∷ js) = (i ≡ j) ⊎ Listed i js

module _ (matches : Matcher) where
  -- The node at position `k` is there, and the selector matches its labels.
  abbrev pub Chosen : Map String String → List NodeInfo → ℕ → Type 0
  Chosen selector nodes k =
      (ni : NodeInfo) × (n : Node) × (get_elem? nodes k ≡ some ni)
      × (ni.node ≡ some n)
      × (matches selector n.labels ≡ true)

  -- A chosen position, counted from `i`.
  abbrev ChosenFrom : Map String String → ℕ → List NodeInfo → ℕ → Type 0
  ChosenFrom selector i nodes k = (d : ℕ) × (k ≡ i + d) × Chosen selector nodes d

  not-ChosenFrom-nil : (selector : Map String String) (i k : ℕ) → ¬ ChosenFrom selector i [] k
  not-ChosenFrom-nil selector i k (d, e, c) = cc (c.2)

  ChosenFrom-later :
      (selector : Map String String) (i k : ℕ) (ni : NodeInfo) (nodes : List NodeInfo)
      → ChosenFrom selector (suc i) nodes k
      → ChosenFrom selector i (ni ∷ nodes) k
  ChosenFrom-later selector i k ni nodes (d, e, c) = (suc d, omega arith, c)

  -- The chosen positions of a longer list: the first, if its node matches, or a later one.
  ChosenFrom-cases :
      (selector : Map String String) (i k : ℕ) (ni : NodeInfo) (n : Node) (nodes : List NodeInfo)
      → ni.node ≡ some n
      → ChosenFrom selector i (ni ∷ nodes) k
      → ((k ≡ i) × (matches selector n.labels ≡ true)) ⊎ ChosenFrom selector (suc i) nodes k
  ChosenFrom-cases selector i k ni n nodes known (zero, e, (mi, m, g, f, t)) =
      inl (omega arith, ground arith)
  ChosenFrom-cases selector i k ni n nodes known (suc d, e, c) = inr (d, omega arith, c)

  matching-returns :
      (selector : Map String String) (i : ℕ) (nodes : List NodeInfo)
      → AllKnown nodes
      → (js : List ℕ) × (matching matches selector i nodes ≡ ok js)
        × ((k : ℕ) → Listed k js ↔ ChosenFrom selector i nodes k)
  unfolding matching
  matching-returns selector i [] h =
      ([], refl, λ k. ((λ l. absurd l), not-ChosenFrom-nil selector i k))
  matching-returns selector i (ni ∷ nodes) h =
      let (n, known) = h.0 in
      let (js, e, iff) = matching-returns selector (suc i) nodes h.1 in
      elim (Bool-cases (matches selector n.labels)) [
        | inl hit ↦ (
          i ∷ js,
          ground (arith, known, e, hit),
          λ k. (
            (λ l. elim l [
              | inl here ↦ (0, omega arith, (ni, n, refl, known, hit))
              | inr there ↦ ChosenFrom-later selector i k ni nodes ((iff k).0 there)
            ]),
            λ c. elim (ChosenFrom-cases selector i k ni n nodes known c) [
              | inl (here, m) ↦ inl here
              | inr there ↦ inr ((iff k).1 there)
            ],
          ),
        )
        | inr miss ↦ (
          js,
          ground (arith, known, e, miss),
          λ k. (
            (λ l. ChosenFrom-later selector i k ni nodes ((iff k).0 l)),
            λ c. elim (ChosenFrom-cases selector i k ni n nodes known c) [
              | inl (here, m) ↦ absurd (ground arith)
              | inr there ↦ (iff k).1 there
            ],
          ),
        )
      ]

  -- Where every node has its node object, a job with a node selector is offered exactly the nodes
  -- whose labels the selector matches, by position, and a job without one gets the nil slice,
  -- which stands for all nodes.
  pub fetch_match_nodes_lem :
      (job : JobInfo) (nodes : List NodeInfo)
      → AllKnown nodes
      → ((job.node_selector ≡ []) × (fetch_match_nodes matches job nodes ≡ ok none))
        ⊎ ((js : List ℕ) × (job.node_selector ≢ [])
            × (fetch_match_nodes matches job nodes ≡ ok (some js))
            × ((k : ℕ) → Listed k js ↔ Chosen job.node_selector nodes k))
  unfolding fetch_match_nodes
  fetch_match_nodes_lem job nodes h = elim (List-cases job.node_selector) [
    | inl none_asked ↦ inl (none_asked, ground arith)
    | inr (entry, more, asked) ↦
        let (js, e, iff) = matching-returns job.node_selector 0 nodes h in
        inr (
          js,
          (λ p. ground arith),
          ground (arith, e),
          λ k. (
            (λ l.
                let (d, k_eq, c) = (iff k).0 l in
                subst (Chosen job.node_selector nodes) (omega arith) c),
            λ c. (iff k).1 (k, omega arith, c),
          ),
        )
  ]

  matching_panics :
      (selector : Map String String) (i k : ℕ) (ni : NodeInfo) (nodes : List NodeInfo)
      → get_elem? nodes k ≡ some ni
      → ni.node ≡ none
      → matching matches selector i nodes ≡ panic nil_dereference
  unfolding matching
  matching_panics selector i k ni [] g e = cc
  matching_panics selector i zero ni (m ∷ nodes) g e = ground arith
  matching_panics selector i (suc k) ni (m ∷ nodes) g e =
      ground (arith, matching_panics selector (suc i) k ni nodes g e)

  -- One node that is known by its pods only makes the action panic for every job with a node
  -- selector.
  pub fetch_match_nodes_panics :
      (job : JobInfo) (nodes : List NodeInfo) (k : ℕ) (ni : NodeInfo)
      → job.node_selector ≢ []
      → get_elem? nodes k ≡ some ni
      → ni.node ≡ none
      → fetch_match_nodes matches job nodes ≡ panic nil_dereference
  unfolding fetch_match_nodes
  fetch_match_nodes_panics job nodes k ni selective g e =
      ground (arith, matching_panics job.node_selector 0 k ni nodes g e)
