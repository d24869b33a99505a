-- ===== src/Api/NodeInfo/Clone.antt =====
-- `NodeInfo.Clone`.
use kube_arbitrator.Common.{
  ◌≡◌, refl, [], ◌∷◌, ◌++◌, none, some, String, string_key, arith, if_pos, sym, ap, ◌∙◌,
}
use mathlib.Core.List.{append_assoc, append-nil}
use kube_arbitrator.Common.Map.{lookup, insert}
use kube_arbitrator.Api.Objects.{pod_key}
use kube_arbitrator.Api.TaskInfo.{TaskInfo, TasksMap}
use kube_arbitrator.Api.Requested.{Distinct, Distinct-middle, insert_absent}
use kube_arbitrator.Api.NodeInfo.{NodeInfo, clone_tasks, clone}
use kube_arbitrator.Api.NodeInfo.Accounts.{IsKeyed}

clone_tasks-append :
    (pods ts : TasksMap)
    → Distinct (pods ++ ts)
    → Distinct ts
    → ((k : String) (t : TaskInfo) → lookup k ts ≡ some t → pod_key t.pod ≡ k)
    → clone_tasks pods ts ≡ pods ++ ts
unfolding clone_tasks lookup
clone_tasks-append pods [] d e h = sym (append-nil pods)
clone_tasks-append pods ((k, t) ∷ ts) d e h =
    let key : pod_key t.pod ≡ k = h k t (if_pos (string_key.dec k k) refl _ _) in
    let absent : lookup (pod_key t.pod) pods ≡ none = rw key (Distinct-middle k t pods ts d) in
    let grown : insert (pod_key t.pod) t pods ≡ pods ++ (k, t) ∷ [] =
      insert_absent (pod_key t.pod) t pods absent ∙ rw key refl in
    let whole : insert (pod_key t.pod) t pods ++ ts ≡ pods ++ (k, t) ∷ ts =
      rw grown (append_assoc pods ((k, t) ∷ []) ts) in
    clone_tasks-append (insert (pod_key t.pod) t pods) ts (rw whole d) e.1
      (λ u w q. ground (arith, h u w, e.0))
    ∙ whole

-- A clone of a node whose tasks stand under the keys of their pods shows what the node shows.
pub clone_lem : (ni : NodeInfo) → IsKeyed ni.tasks → clone ni ≡ ni
unfolding clone
clone_lem ni h =
    ap (λ ts. record ni { tasks = ts })
      (clone_tasks-append [] ni.tasks h.distinct h.distinct h.keyed)
