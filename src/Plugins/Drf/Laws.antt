-- ===== src/Plugins/Drf/Laws.antt =====
-- What the shares of dominant resource fairness stand for.
use kube_arbitrator.Common.{
  ℕ, ◌≡◌, refl, List, [], ◌∷◌, some, String, string_key, arith, ok, ok_inj, sym, ◌∙◌, if◌then◌else◌,
}
use kube_arbitrator.Common.Int.{pos}
use kube_arbitrator.Common.Map.{Map, lookup, insert, lookup-insert, lookup-insert_self}
use kube_arbitrator.Api.Resource.{Resource, add, get, empty_resource}
use kube_arbitrator.Api.Resource.Order.{sub-add}
use kube_arbitrator.Api.TaskInfo.{TaskInfo}
use kube_arbitrator.Api.JobInfo.{JobInfo}
use kube_arbitrator.Api.NodeInfo.{NodeInfo}
use kube_arbitrator.Plugins.Drf

module _ (fl : Drf.Float64) where
  larger : fl.F → ℕ → ℕ → fl.F
  larger res a t =
      let share = fl.div (fl.from_ℕ a) (fl.from_ℕ t) in if fl.lt res share then share else res

  -- The share can always be computed, also where the cluster has none of a resource.
  calculate_share-returns :
      (allocated total : Resource) → (s : fl.F) × (Drf.calculate_share fl allocated total ≡ ok s)
  unfolding Drf.calculate_share get larger
  calculate_share-returns a t = (
    larger (larger (larger (fl.from_ℕ 0) a.milli_cpu t.milli_cpu) a.memory t.memory) a.gpu t.gpu,
    refl,
  )

  abbrev Unshared : Map String (Drf.DrfAttr fl) → Type 0
  Unshared opts =
      (id : String) (attr : Drf.DrfAttr fl) → lookup id opts ≡ some attr → attr.share ≡ fl.from_ℕ 0

  add_jobs-Unshared :
      (opts : Map String (Drf.DrfAttr fl)) (jobs : List JobInfo)
      → Unshared opts
      → Unshared (Drf.add_jobs fl opts jobs)
  unfolding Drf.add_jobs
  add_jobs-Unshared opts [] h = h
  add_jobs-Unshared opts (job ∷ jobs) h =
      let fresh : Drf.DrfAttr fl = record {
        share = fl.from_ℕ 0;
        dominant_resource = "";
        allocated = Drf.add_allocated fl empty_resource job.task_status_index;
      } in
      add_jobs-Unshared (insert job.uid fresh opts) jobs
        (λ id attr e. ground (arith, lookup-insert job.uid id fresh opts, h id attr))

  -- When a session opens, the order function finds no difference between any two of its jobs,
  -- whatever they hold already: the shares are not computed before the first event.
  pub job_order-open :
      (nodes : List NodeInfo) (jobs : List JobInfo) (l r : JobInfo) (la ra : Drf.DrfAttr fl)
      → let drf = Drf.on_session_open fl (Drf.new_drf fl) nodes jobs in
        lookup l.uid drf.job_opts ≡ some la
        → lookup r.uid drf.job_opts ≡ some ra
        → Drf.job_order fl drf l r ≡ ok (pos 0)
  unfolding Drf.on_session_open Drf.job_order Drf.attr_of
  job_order-open nodes jobs l r la ra el er =
      let unshared = add_jobs-Unshared [] jobs (unfold lookup in λ id attr e. cc) in
      ground (arith, el, er, unshared l.uid la el, unshared r.uid ra er, fl.eq_zero)

  attr_of-some :
      (drf : Drf.DrfPlugin fl) (id : String) (attr : Drf.DrfAttr fl)
      → lookup id drf.job_opts ≡ some attr
      → Drf.attr_of fl drf id ≡ ok attr
  unfolding Drf.attr_of
  attr_of-some drf id attr e = ground arith

  update_share-returns :
      (drf : Drf.DrfPlugin fl) (attr : Drf.DrfAttr fl)
      → (s : fl.F) × (Drf.calculate_share fl attr.allocated drf.total_resource ≡ ok s)
        × (Drf.update_share fl drf attr ≡ ok (record attr { share = s }))
  unfolding Drf.update_share
  update_share-returns drf attr =
      let (s, e) = calculate_share-returns attr.allocated drf.total_resource in (s, e, rw e refl)

  -- The eviction of a task takes back what its allocation put into its job's account: the account
  -- is what it was, and the share is the share of that account.
  pub on_evict-on_allocate :
      (drf drf' : Drf.DrfPlugin fl) (task : TaskInfo) (attr : Drf.DrfAttr fl)
      → lookup task.job drf.job_opts ≡ some attr
      → Drf.on_allocate fl drf task ≡ ok drf'
      → (drf'' : Drf.DrfPlugin fl) × (attr'' : Drf.DrfAttr fl) × (Drf.on_evict fl drf' task
          ≡ ok drf'')
        × (lookup task.job drf''.job_opts ≡ some attr'')
        × (attr''.allocated ≡ attr.allocated)
        × (Drf.calculate_share fl attr.allocated drf.total_resource ≡ ok attr''.share)
        × (drf''.total_resource ≡ drf.total_resource)
  unfolding Drf.on_allocate Drf.on_evict
  on_evict-on_allocate drf drf' task attr stored done =
      let grown : Drf.DrfAttr fl = record attr { allocated = add attr.allocated task.resreq } in
      let (s, _, e) = update_share-returns drf grown in
      let mid : Drf.DrfPlugin fl = record drf {
        job_opts = insert task.job (record grown { share = s }) drf.job_opts;
      } in
      let same : drf' ≡ mid =
        ok_inj (sym done ∙ rw (attr_of-some drf task.job attr stored, e) refl) in
      let back : Drf.DrfAttr fl = record grown { share = s; allocated = attr.allocated } in
      let (s', c', e') = update_share-returns mid back in
      let found = lookup-insert_self task.job (record grown { share = s }) drf.job_opts in
      (
        record mid { job_opts = insert task.job (record back { share = s' }) mid.job_opts },
        record back { share = s' },
        rw
            (
              same,
              attr_of-some mid task.job (record grown { share = s }) found,
              sub-add attr.allocated task.resreq,
              e',
            )
            refl,
        lookup-insert_self task.job (record back { share = s' }) mid.job_opts,
        refl,
        c',
        refl,
      )
