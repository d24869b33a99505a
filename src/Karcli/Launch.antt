-- ===== src/Karcli/Launch.antt =====
-- What becomes of a queue job that `karcli job run` launches.
use kube_arbitrator.Common.{
  ℕ, ◌≡◌, ◌↔◌, refl, sym, ap, ◌∙◌, Option, some, true, false, String, string_key, Outcome, ok,
  ◌>>=◌, >>=-eq-ok, ok_inj, arith, ◌⊎◌,
}
use text.Mathlib.TextEquality.{eq_iff}
use Prim.Native.Char.{code}
use kube_arbitrator.Common.Lists.{All}
use kube_arbitrator.Common.Map.{Map}
use kube_arbitrator.Api.Objects.{Pod, pod_pending, get_controller}
use kube_arbitrator.Api.Status.{get_task_status, get_task_status-cases, pending}
use kube_arbitrator.Api.TaskInfo.{new_task_info}
use kube_arbitrator.Api.JobInfo.{JobInfo, set_scheduling_spec}
use kube_arbitrator.Cache.Store.{pod_object}
use kube_arbitrator.Cache.Pods.{is_watched}
use kube_arbitrator.Controller.{
  QueueJob, NewPod, create_queue_job_pod, create_queue_job_scheduling_spec,
}
use kube_arbitrator.Karcli.Split.{split}
use kube_arbitrator.Karcli.Requests.{
  CliError, Result, returned, failed, comma, populate_resource_list_v1,
}
use kube_arbitrator.Karcli.Print.{IsStatement, populate_resource_list_v1_iff}
use kube_arbitrator.Karcli.Run.{RunFlags, PodSpec, ApiServer, queue_job, launch, run_job}

-- The pod that the server keeps for one that was created, as long as no node is chosen for it.
pub record IsStored {Quantity : Type 0} (new : NewPod (PodSpec Quantity)) (pod : Pod) : Type 0 where
  pub same_owner : pod.owner ≡ new.owner
  pub same_scheduler : pod.scheduler_name ≡ new.spec.scheduler_name
  pub waits : pod.phase ≡ pod_pending
  pub not_deleted : pod.deleted ≡ false
  pub no_node : pod.node_name ≡ ""

module _ {Quantity S : Type 0} (parse_quantity : String → Result Quantity)
    (api : ApiServer Quantity S) where
  -- Where the flags name a server and hold a well-formed request, `RunJob` makes one call, which creates the queue
  -- job. Let the server give it a UID: each pod that the controller creates for it is, while it
  -- waits for a node, let through by the cache's pod filter of the scheduler that the flags name and of no other one. The cache
  -- makes a pending task of it, in the job of that UID, and the scheduling spec that the controller
  -- creates is for the same job and sets its minimum to the one of the flags. The pod's labels are those that the queue
  -- job's selector asks for.
  pub run_job-launches :
      (flags : RunFlags) (s : S) (config : api.Config) (client : api.Client)
      (req : Option (Map String Quantity)) (uid : String) (name_of : String → ℕ → String) (ix : ℕ)
      (pod : Pod) (job : JobInfo) (scheduler_name : String)
      → api.build_config flags.common.master flags.common.kubeconfig ≡ returned config
      → api.new_client config ≡ ok client
      → populate_resource_list_v1 parse_quantity flags.requests ≡ returned req
      → let qj : QueueJob (PodSpec Quantity) = record (queue_job flags req) { uid = uid } in
        let spec = create_queue_job_scheduling_spec qj in
        IsStored (create_queue_job_pod name_of qj ix) pod
        → (run_job parse_quantity api flags s
            ≡ ok (api.create client flags.namespace (queue_job flags req) s))
          × ((is_watched scheduler_name (pod_object pod) ≡ true)
              ↔ (flags.common.scheduler_name ≡ scheduler_name))
          × ((new_task_info pod).status ≡ pending)
          × ((new_task_info pod).job ≡ uid)
          × (get_controller spec.owner ≡ uid)
          × ((set_scheduling_spec job spec).min_available ≡ flags.min_available)
          × (qj.selector ≡ some (create_queue_job_pod name_of qj ix).labels)
  unfolding run_job launch queue_job is_watched new_task_info get_task_status get_controller
      create_queue_job_pod create_queue_job_scheduling_spec set_scheduling_spec
  run_job-launches flags s config client req uid name_of ix pod job scheduler_name c k p stored = (
    ground (arith, c, k, p),
    (
      λ h.
          ground (
            arith,
            h,
            stored.waits,
            stored.same_scheduler,
            eq_iff pod.scheduler_name scheduler_name,
          ),
      λ h.
          ground (
            arith,
            h,
            stored.waits,
            stored.same_scheduler,
            eq_iff pod.scheduler_name scheduler_name,
          ),
    ),
    (get_task_status-cases pod).2.1 (stored.waits, stored.not_deleted, stored.no_node),
    ground (arith, stored.same_owner),
    refl,
    refl,
    refl,
  )

  launch_refused :
      (flags : RunFlags) (client : api.Client) (s : S)
      → ¬ (
          (flags.requests ≡ "")
          ⊎ All (IsStatement parse_quantity) (split (code comma) flags.requests))
      → (err : CliError) × (launch parse_quantity api flags client s ≡ (s, some err))
  unfolding launch
  launch_refused flags client s bad =
      refused (populate_resource_list_v1 parse_quantity flags.requests) refl
    where
      refused :
          (r : Result (Option (Map String Quantity)))
          → populate_resource_list_v1 parse_quantity flags.requests ≡ r
          → (err : CliError) × (launch parse_quantity api flags client s ≡ (s, some err))
      refused (returned req) e =
          absurd (bad ((populate_resource_list_v1_iff parse_quantity flags.requests).0 (req, e)))
      refused (failed err) e = (err, rw (e, launch) refl)

  -- Where the requests in the flags are neither empty nor a list of one or more statements, each a name, an equality sign
  -- and a quantity, a `RunJob` that returns has created nothing, and reports an error.
  pub run_job_refused :
      (flags : RunFlags) (s t : S) (e : Option CliError)
      → ¬ (
          (flags.requests ≡ "")
          ⊎ All (IsStatement parse_quantity) (split (code comma) flags.requests))
      → run_job parse_quantity api flags s ≡ ok (t, e)
      → (t ≡ s) × ((err : CliError) × (e ≡ some err))
  unfolding run_job
  run_job_refused flags s t e bad h =
      configured (api.build_config flags.common.master flags.common.kubeconfig) h
    where
      configured :
          (r : Result api.Config)
          → ◌≡◌ {A = Outcome (S × Option CliError)}
              (elim r [
                | failed err ↦ ok (s, some err)
                | returned config ↦ api.new_client config >>= λ client.
                    ok (launch parse_quantity api flags client s)
              ])
              (ok (t, e))
          → (t ≡ s) × ((err : CliError) × (e ≡ some err))
      configured (failed err) k =
          (sym (ap (λ r. r.0) (ok_inj k)), (err, sym (ap (λ r. r.1) (ok_inj k))))
      configured (returned config) k =
          let (client, _, rest) = >>=-eq-ok (api.new_client config) _ k in
          let (err, q) = launch_refused flags client s bad in
          let same = sym q ∙ ok_inj rest in
          (sym (ap (λ r. r.0) same), (err, sym (ap (λ r. r.1) same)))
