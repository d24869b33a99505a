-- ===== src/Api/TaskInfo.antt =====
-- `TaskInfo` of pkg/scheduler/api/job_info.go. The source keeps pointers to tasks; a value of
-- this record is what such a pointer shows at the time it is put into a map.
use kube_arbitrator.Common.{List, [], ◌∷◌, none, some, String}
use kube_arbitrator.Common.Int.{ℤ, pos}
use kube_arbitrator.Common.Map.{Map}
use kube_arbitrator.Api.Resource.{
  Resource, ResourceList, add, new_resource, empty_resource, clone as clone_resource,
}
use kube_arbitrator.Api.Objects.{Pod, get_controller}
use kube_arbitrator.Api.Status.{TaskStatus, get_task_status}

pub record TaskInfo : Type 0 where
  pub uid : String
  pub job : String
  pub name : String
  pub namespace : String
  pub resreq : Resource
  pub node_name : String
  pub status : TaskStatus
  pub priority : ℤ
  pub pod : Pod

-- `tasksMap`, by task UID in a job and by pod key in a node.
abbrev pub TasksMap : Type 0
TasksMap = Map String TaskInfo

-- The loop over the containers' requests.
unfoldable pub add_requests : Resource → List ResourceList → Resource
add_requests req [] = req
add_requests req (c ∷ cs) = add_requests (add req (new_resource c)) cs

-- `NewTaskInfo`.
unfoldable pub new_task_info : Pod → TaskInfo
unfolding add_requests
new_task_info pod = record {
  uid = pod.uid;
  job = get_controller pod.owner;
  name = pod.name;
  namespace = pod.namespace;
  resreq = add_requests empty_resource pod.requests;
  node_name = pod.node_name;
  status = get_task_status pod;
  priority = elim pod.priority [ none ↦ pos 1 | some p ↦ p ];
  pod = pod;
}

-- `TaskInfo.Clone`.
abbrev pub clone : TaskInfo → TaskInfo
clone pi = record {
  uid = pi.uid;
  job = pi.job;
  name = pi.name;
  namespace = pi.namespace;
  resreq = clone_resource pi.resreq;
  node_name = pi.node_name;
  status = pi.status;
  priority = pi.priority;
  pod = pi.pod;
}
