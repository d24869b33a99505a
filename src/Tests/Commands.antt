-- ===== src/Tests/Commands.antt =====
-- Tests of the command line client, with a server that keeps what is created in a list.
use Prim.Native.Char.{code}
use kube_arbitrator.Common.{
  ℕ, ◌≡◌, ◌↔◌, ◌⊎◌, refl, List, [], ◌∷◌, Option, none, some, true, String, string_key,
  String_discrete, ok, text_same, arith, inl, inr, if◌then◌else◌,
}
use kube_arbitrator.Common.Lists.{All}
use kube_arbitrator.Common.Map.{Map, insert}
use kube_arbitrator.Api.Objects.{Pod, pod_pending, get_controller}
use kube_arbitrator.Api.Status.{pending}
use kube_arbitrator.Api.TaskInfo.{new_task_info}
use kube_arbitrator.Api.JobInfo.{new_job_info, set_scheduling_spec}
use kube_arbitrator.Cache.Store.{pod_object}
use kube_arbitrator.Cache.Pods.{is_watched}
use kube_arbitrator.Controller.{QueueJob, create_queue_job_pod, create_queue_job_scheduling_spec}
use kube_arbitrator.Karcli.Split.{split}
use kube_arbitrator.Karcli.Requests.{
  CliError, Result, returned, failed, invalid_argument, from_library, and_return, comma,
  populate_resource_list_v1,
}
use kube_arbitrator.Karcli.Print.{
  print, IsStatement, read_all, populate_resource_list_v1-print, populate_resource_list_v1_iff,
}
use kube_arbitrator.Karcli.Run.{
  RunFlags, PodSpec, ApiServer, init_run_flags, queue_job, run_job, list_jobs, header, row,
}
use kube_arbitrator.Karcli.Launch.{IsStored, run_job-launches, run_job_refused}
use kube_arbitrator.Tests.Data.{pod_named}

-- Three quantities.
abbrev parse : String → Result ℕ
parse v =
    if text_same v "1000m"
    then returned 1000
    else if text_same v "100Mi"
    then returned 104857600
    else if text_same v "2"
    then returned 2000
    else failed (from_library v)

abbrev Jobs : Type 0
Jobs = List (QueueJob (PodSpec ℕ))

abbrev server : ApiServer ℕ Jobs
server = record {
  Config = String;
  Client = String;
  build_config = λ master kubeconfig. returned master;
  new_client = λ config. ok config;
  create = λ client namespace qj jobs. (qj ∷ jobs, none);
  list = λ client namespace jobs. returned jobs;
}

abbrev no_env : String → String
no_env name = ""

abbrev no_path : List String → String
no_path parts = ""

abbrev flags : RunFlags
flags = init_run_flags no_env no_path

cpu_twice :
    populate_resource_list_v1 parse "cpu=1000m,memory=100Mi,cpu=2"
    ≡ returned (some (("cpu", 2000) ∷ ("memory", 104857600) ∷ []))
unfolding populate_resource_list_v1 insert String_discrete
cpu_twice = refl

no_sign : populate_resource_list_v1 parse "cpu=2,,memory" ≡ failed (invalid_argument "")
unfolding populate_resource_list_v1 insert String_discrete
no_sign = refl

abbrev written : List (String × String)
written = ("memory", "100Mi") ∷ ("cpu", "2") ∷ []

populate_resource_list_v1-print_example :
    populate_resource_list_v1 parse (print (("cpu", "1000m") ∷ written))
    ≡ and_return (read_all parse [] (("cpu", "1000m") ∷ written)) (λ r. returned (some r))
populate_resource_list_v1-print_example =
    populate_resource_list_v1-print parse ("cpu", "1000m") written (omega arith)

populate_resource_list_v1_iff_example :
    ((r : Option (Map String ℕ)) × (populate_resource_list_v1 parse "cpu=2,memory" ≡ returned r))
    ↔ ((◌≡◌ {A = String} "cpu=2,memory" "")
        ⊎ All (IsStatement parse) (split (code comma) "cpu=2,memory"))
populate_resource_list_v1_iff_example = populate_resource_list_v1_iff parse "cpu=2,memory"

abbrev default_requests : Option (Map String ℕ)
default_requests = some (("cpu", 1000) ∷ ("memory", 104857600) ∷ [])

flags_lem : populate_resource_list_v1 parse flags.requests ≡ returned default_requests
unfolding populate_resource_list_v1 insert String_discrete init_run_flags
flags_lem = refl

abbrev launched : QueueJob (PodSpec ℕ)
launched = record (queue_job flags default_requests) { uid = "u1" }

abbrev first_pod : Pod
first_pod = record (pod_named "test-0") {
  owner = some (some "u1");
  scheduler_name = "kar-scheduler";
  phase = pod_pending;
  node_name = "";
}

abbrev name_of : String → ℕ → String
name_of name ix = name

first_pod_lem : IsStored (create_queue_job_pod name_of launched 0) first_pod
unfolding create_queue_job_pod queue_job init_run_flags
first_pod_lem = record {
  same_owner = refl;
  same_scheduler = refl;
  waits = refl;
  not_deleted = refl;
  no_node = refl;
}

run_job-launches_example :
    (run_job parse server flags [] ≡ ok (queue_job flags default_requests ∷ [], none))
    × ((is_watched "kar-scheduler" (pod_object first_pod) ≡ true)
        ↔ (flags.common.scheduler_name ≡ "kar-scheduler"))
    × ((new_task_info first_pod).status ≡ pending)
    × ((new_task_info first_pod).job ≡ "u1")
    × (get_controller (create_queue_job_scheduling_spec launched).owner ≡ "u1")
    × ((set_scheduling_spec
          (new_job_info "u1")
          (create_queue_job_scheduling_spec launched)).min_available
        ≡ flags.min_available)
    × (launched.selector ≡ some (create_queue_job_pod name_of launched 0).labels)
unfolding init_run_flags
run_job-launches_example =
    run_job-launches parse server flags [] "" "" default_requests "u1" name_of 0 first_pod
      (new_job_info "u1") "kar-scheduler" refl refl flags_lem first_pod_lem

-- The request has no value.
abbrev wrong : RunFlags
wrong = record (init_run_flags no_env no_path) { requests = "cpu" }

wrong_lem : ¬ ((wrong.requests ≡ "") ⊎ All (IsStatement parse) (split (code comma) wrong.requests))
unfolding init_run_flags split
wrong_lem (inl e) = cc
wrong_lem (inr ((name, value, q, parts, parsed), rest)) = cc

wrong_run : run_job parse server wrong [] ≡ ok ([], some (invalid_argument "cpu"))
unfolding run_job init_run_flags populate_resource_list_v1
wrong_run = refl

run_job_refused_example :
    (◌≡◌ {A = Jobs} [] []) × ((err : CliError) × (some (invalid_argument "cpu") ≡ some err))
run_job_refused_example =
    run_job_refused parse server wrong [] [] (some (invalid_argument "cpu")) wrong_lem wrong_run

listed :
    list_jobs parse server (record { common = flags.common; namespace = "default" }) (launched ∷ [])
    ≡ ok (header ∷ row "test" 1 launched.status ∷ [], none)
unfolding list_jobs queue_job init_run_flags
listed = refl
