-- ===== src/Actions/Decorate.antt =====
-- The decorate action, pkg/scheduler/actions/decorate/decorate.go. The label selector is the
-- apimachinery library's and enters as a parameter: whether the selector of a set matches labels.
pub mod Laws
use kube_arbitrator.Common.{
  ℕ, suc, Bool, List, [], ◌∷◌, Option, none, some, String, Outcome, ok, panic, nil_dereference,
  ◌>>=◌, if◌then◌else◌,
}
use kube_arbitrator.Common.Map.{Map}
use kube_arbitrator.Api.Objects.{Node}
use kube_arbitrator.Api.JobInfo.{JobInfo}
use kube_arbitrator.Api.NodeInfo.{NodeInfo}

-- `labels.SelectorFromSet(set).Matches(labels)`.
abbrev pub Matcher : Type 0
Matcher = Map String String → Map String String → Bool

module _ (matches : Matcher) where
  -- The loop of `fetchMatchNodeForPodSet`, from position `i` on. A node that is known by its pods
  -- only has no node object, and the code dereferences the nil pointer.
  unfoldable pub matching : Map String String → ℕ → List NodeInfo → Outcome (List ℕ)
  matching selector i [] = ok []
  matching selector i (ni ∷ nodes) = elim ni.node [
    | none ↦ panic nil_dereference
    | some node ↦ do
      rest ← matching selector (suc i) nodes
      ok (if matches selector node.labels then i ∷ rest else rest)
  ]

  -- `fetchMatchNodeForPodSet`. The nodes are returned by their positions; `none` is nil.
  unfoldable pub fetch_match_nodes : JobInfo → List NodeInfo → Outcome (Option (List ℕ))
  unfolding matching
  fetch_match_nodes job nodes = elim job.node_selector [
    | [] ↦ ok none
    | entry ∷ more ↦ do found ← matching job.node_selector 0 nodes; ok (some found)
  ]

  -- `Execute`.
  unfoldable pub execute : List JobInfo → List NodeInfo → Outcome (List JobInfo)
  unfolding fetch_match_nodes
  execute [] nodes = ok []
  execute (job ∷ jobs) nodes = do
    found ← fetch_match_nodes job nodes
    rest ← execute jobs nodes
    ok (record job { candidates = found } ∷ rest)
