-- ===== src/Tests/Data.antt =====
-- Objects for the tests: two pods of one job, a node, a scheduling spec.
use kube_arbitrator.Common.{[], ◌∷◌, none, some, String, false, ℕ, ◌*◌}
use kube_arbitrator.Common.Int.{pos}
use kube_arbitrator.Api.Resource.{
  Resource, Quantity, ResourceList, cpu_name, memory_name, other_name,
}
use kube_arbitrator.Api.Objects.{Pod, Node, SchedulingSpec, pod_running}
use kube_arbitrator.Api.Status.{TaskStatus}
use kube_arbitrator.Api.TaskInfo.{TaskInfo}

abbrev pub amount : ℕ → Quantity
amount n = record { milli_value = 1000 * n; value = n; as_int64 = n }

abbrev pub requests : ℕ → ResourceList
requests n = (cpu_name, amount n) ∷ (memory_name, amount n) ∷ (other_name "pods", amount n) ∷ []

abbrev pub resource : ℕ → Resource
resource n = record { milli_cpu = 1000 * n; memory = n; gpu = 0 }

abbrev pub pod_named : String → Pod
pod_named name = record {
  uid = name;
  name = name;
  namespace = "ns";
  namespace_key = none;
  owner = some (some "job");
  scheduler_name = "kube-batch";
  node_name = "n1";
  phase = pod_running;
  deleted = false;
  priority = none;
  requests = requests 1 ∷ requests 1 ∷ [];
}

abbrev pub task_of : String → TaskStatus → TaskInfo
task_of name status = record {
  uid = name;
  job = "job";
  name = name;
  namespace = "ns";
  resreq = resource 2;
  node_name = "n1";
  status = status;
  priority = pos 1;
  pod = pod_named name;
}

abbrev pub node_of_size : ℕ → Node
node_of_size n = record {
  name = "n1";
  labels = ("zone", "a") ∷ [];
  allocatable = requests n;
  capacity = requests n;
}

abbrev pub spec_of_two : SchedulingSpec
spec_of_two = record {
  name = "spec";
  namespace = "ns";
  owner = some (some "job");
  min_available = pos 2;
  node_selector = ("zone", "a") ∷ [];
}
