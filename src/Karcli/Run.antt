-- ===== src/Karcli/Run.antt =====
-- The commands of pkg/karcli/job/run.go and list.go with the flags of common.go. The client of the API
-- server is a parameter that works on a state `S`; the text of a table is left to `fmt`.
use kube_arbitrator.Common.{
  ℕ, List, [], ◌∷◌, map, Option, none, some, String, string_key, Outcome, ok, ◌>>=◌, text_is_empty,
  if◌then◌else◌,
}
use kube_arbitrator.Common.Int.{ℤ, pos}
use kube_arbitrator.Common.Map.{Map}
use kube_arbitrator.Controller.{QueueJob, QueueJobStatus, int32_of_ℤ}
use kube_arbitrator.Karcli.Requests.{CliError, Result, returned, failed, populate_resource_list_v1}

-- `commonFlags`, `runFlags` and `listFlags`.
pub record CommonFlags : Type 0 where
  pub master : String
  pub kubeconfig : String
  pub scheduler_name : String

pub record RunFlags : Type 0 where
  pub common : CommonFlags
  pub name : String
  pub namespace : String
  pub image : String
  pub min_available : ℤ
  pub replicas : ℤ
  pub requests : String

pub record ListFlags : Type 0 where
  pub common : CommonFlags
  pub namespace : String

-- `homeDir`.
unfoldable pub home_dir : (String → String) → String
home_dir getenv = if text_is_empty (getenv "HOME") then getenv "USERPROFILE" else getenv "HOME"

-- `initFlags`: the values of the flags that are not given. `join` is `filepath.Join`.
unfoldable pub init_flags : (String → String) → (List String → String) → CommonFlags
unfolding home_dir
init_flags getenv join = record {
  master = "";
  kubeconfig =
      if text_is_empty (home_dir getenv)
      then ""
      else join (home_dir getenv ∷ ".kube" ∷ "config" ∷ []);
  scheduler_name = "kar-scheduler";
}

-- `InitRunFlags` and `InitListFlags`.
unfoldable pub init_run_flags : (String → String) → (List String → String) → RunFlags
unfolding init_flags
init_run_flags getenv join = record {
  common = init_flags getenv join;
  name = "test";
  namespace = "default";
  image = "busybox";
  min_available = pos 1;
  replicas = pos 1;
  requests = "cpu=1000m,memory=100Mi";
}

unfoldable pub init_list_flags : (String → String) → (List String → String) → ListFlags
unfolding init_flags
init_list_flags getenv join = record { common = init_flags getenv join; namespace = "default" }

-- The parts of the pod template that the command fills in.
pub record Container (Quantity : Type 0) : Type 0 where
  pub image : String
  pub name : String
  pub image_pull_policy : String
  pub requests : Option (Map String Quantity)

pub record PodSpec (Quantity : Type 0) : Type 0 where
  pub scheduler_name : String
  pub restart_policy : String
  pub containers : List (Container Quantity)

-- `queueJobName`.
abbrev pub queue_job_name : String
queue_job_name = "queuejob.arbitrator.k8s.io"

abbrev zero_status : QueueJobStatus
zero_status = record { pending = 0; running = 0; succeeded = 0; failed = 0; min_available = 0 }

-- The queue job that `RunJob` makes. The server gives it its UID.
unfoldable pub queue_job :
    {Quantity : Type 0} → RunFlags → Option (Map String Quantity) → QueueJob (PodSpec Quantity)
queue_job flags req = record {
  uid = "";
  name = flags.name;
  namespace = flags.namespace;
  replicas = int32_of_ℤ flags.replicas;
  sched_spec = record { node_selector = []; min_available = flags.min_available };
  selector = some ((queue_job_name, flags.name) ∷ []);
  template_labels = (queue_job_name, flags.name) ∷ [];
  template_spec = record {
    scheduler_name = flags.common.scheduler_name;
    restart_policy = "Never";
    containers =
        record {
          image = flags.image;
          name = flags.name;
          image_pull_policy = "IfNotPresent";
          requests = req;
        }
        ∷ [];
  };
  status = zero_status;
}

-- `clientcmd.BuildConfigFromFlags`, `clientset.NewForConfigOrDie`, and the calls of the client.
pub record ApiServer (Quantity S : Type 0) : Type 1 where
  pub Config : Type 0
  pub Client : Type 0
  pub build_config : String → String → Result Config
  pub new_client : Config → Outcome Client
  pub create : Client → String → QueueJob (PodSpec Quantity) → S → S × Option CliError
  pub list : Client → String → S → Result (List (QueueJob (PodSpec Quantity)))

-- What `ListJobs` prints.
pub data Line : Type 0 where
  no_resources header : Line
  row : (name : String) (replicas : ℕ) (status : QueueJobStatus) → Line

module _ {Quantity S : Type 0} (parse_quantity : String → Result Quantity)
    (api : ApiServer Quantity S) where
  -- `RunJob`, after the client was made.
  unfoldable pub launch : RunFlags → api.Client → S → S × Option CliError
  unfolding populate_resource_list_v1 queue_job
  launch flags client s = elim (populate_resource_list_v1 parse_quantity flags.requests) [
    | failed e ↦ (s, some e)
    | returned req ↦ api.create client flags.namespace (queue_job flags req) s
  ]

  -- `RunJob`.
  unfoldable pub run_job : RunFlags → S → Outcome (S × Option CliError)
  unfolding launch
  run_job flags s = elim (api.build_config flags.common.master flags.common.kubeconfig) [
    | failed e ↦ ok (s, some e)
    | returned config ↦ do client ← api.new_client config; ok (launch flags client s)
  ]

  -- The lines for the queue jobs that the server returned.
  unfoldable pub table : List (QueueJob (PodSpec Quantity)) → List Line
  table [] = no_resources ∷ []
  table jobs =
      header ∷ map (λ (qj : QueueJob (PodSpec Quantity)). row qj.name qj.replicas qj.status) jobs

  -- `ListJobs`. The creation time, which is only printed, is left out of the rows.
  unfoldable pub list_jobs : ListFlags → S → Outcome (List Line × Option CliError)
  unfolding table
  list_jobs flags s = elim (api.build_config flags.common.master flags.common.kubeconfig) [
    | failed e ↦ ok ([], some e)
    | returned config ↦ do
      client ← api.new_client config
      ok (elim (api.list client flags.namespace s) [
        | failed e ↦ ([], some e)
        | returned jobs ↦ (table jobs, none)
      ])
  ]
