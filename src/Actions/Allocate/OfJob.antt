-- ===== src/Actions/Allocate/OfJob.antt =====
-- Queues of tasks that name one job.
use kube_arbitrator.Common.{
  ◌≡◌, inl, inr, sym, ap, ◌∙◌, subst, Bool, Option, List, [], ◌∷◌, ◌++◌, some, String, string_key,
  String_discrete, Outcome, ok, arith,
}
use mathlib.Core.Logic.Or
use mathlib.Core.HLevel.{hedberg}
use mathlib.Core.List.{
  Mem, Perm, mem-cons_self, mem-cons_of_mem, eq-or-mem_of_mem-cons, not-mem-nil,
}
use mathlib.Core.List.Perm
use kube_arbitrator.Common.Map.{Map, lookup, insert, lookup-insert_self, lookup-insert_ne}
use kube_arbitrator.Api.TaskInfo.{TaskInfo, TasksMap}
use kube_arbitrator.Api.JobInfo.Owner.{AreOf}
use kube_arbitrator.Queue
use kube_arbitrator.Queue.{Heap}
use kube_arbitrator.Actions.Allocate.{values}

-- Each task of the queue names `uid` as its job.
abbrev pub OfJob : String → List TaskInfo → Type 0
OfJob uid q = (t : TaskInfo) → Mem t q → t.job ≡ uid

abbrev pub AllOfJob : Map String (List TaskInfo) → Type 0
AllOfJob m = (uid : String) (q : List TaskInfo) → lookup uid m ≡ some q → OfJob uid q

pub values-OfJob : (id : String) (ts : TasksMap) → AreOf id ts → OfJob id (values ts)
values-OfJob id [] _ t m = absurd (not-mem-nil m)
values-OfJob id ((u, x) ∷ ts) (e, all) t m =
    Or.elim (hedberg String_discrete t.job id) (eq-or-mem_of_mem-cons m)
      (λ same. ap (λ (y : TaskInfo). y.job) same ∙ e) (values-OfJob id ts all t)

pub AllOfJob-insert :
    (m : Map String (List TaskInfo)) (k : String) (q : List TaskInfo)
    → AllOfJob m
    → OfJob k q
    → AllOfJob (insert k q m)
AllOfJob-insert m k q all new uid p h = elim (string_key.dec k uid) [
  | yes e ↦
      let found : lookup uid (insert k q m) ≡ some q = rw (sym e) (lookup-insert_self k q m) in
      let same : q ≡ p = ground (arith, found, h) in
      subst (OfJob uid) same (subst (λ u. OfJob u q) e new)
  | no n ↦ all uid p (sym (lookup-insert_ne k uid q m n) ∙ h)
]

module _ (heap : Heap TaskInfo) where
  pub filled-OfJob :
      (less : TaskInfo → TaskInfo → Outcome Bool) (id : String) (ts q : List TaskInfo)
      → OfJob id ts
      → Queue.push_all heap less [] ts ≡ ok q
      → OfJob id q
  filled-OfJob less id ts q all h t m =
      all t
        ((Perm.mem_iff (Perm.trans (Queue.push_all-perm heap less [] ts q h) (nil-perm ts))).0 m)
    where
      nil-perm : (xs : List TaskInfo) → Perm (xs ++ []) xs
      nil-perm [] = Perm.rfl
      nil-perm (x ∷ xs) = Perm.cons x (nil-perm xs)

  pub popped-OfJob :
      (less : TaskInfo → TaskInfo → Outcome Bool) (id : String) (q rest : List TaskInfo)
      (o : Option TaskInfo)
      → OfJob id q
      → Queue.pop heap less q ≡ ok (o, rest)
      → OfJob id rest × ((x : TaskInfo) → o ≡ some x → x.job ≡ id)
  popped-OfJob less id q rest o all h = elim (Queue.pop-cases heap less q o rest h) [
    | inl (no_item, _, empty) ↦ (λ t m. absurd (not-mem-nil (subst (Mem t) empty m)), λ x e. cc)
    | inr (x, e, _) ↦
        let p : Perm q (x ∷ rest) = Queue.pop-perm heap less q x rest (rw e at h) in
        (
          λ t m. all t ((Perm.mem_iff p).1 (mem-cons_of_mem x m)),
          λ y f.
              let same : x ≡ y = ground (arith, e, f) in
              subst (λ (z : TaskInfo). z.job ≡ id) same (all x ((Perm.mem_iff p).1 mem-cons_self)),
        )
  ]
