-- ===== src/Lib.antt =====
-- A verification library for kube-arbitrator, the batch scheduler for Kubernetes under
-- pkg/scheduler, with the controller of queue jobs under pkg/controller. The definitions are
-- translations of its Go code; the theorems are about these.
--
-- The parts of the program. The cache (pkg/scheduler/cache) mirrors the cluster: informers call its
-- event handlers, which keep a JobInfo for each controller and a NodeInfo for each node
-- (pkg/scheduler/api). A session (pkg/scheduler/framework) is opened on a snapshot of the cache; the
-- plugins (pkg/scheduler/plugins) register order, preemption and readiness functions with it; the
-- actions (pkg/scheduler/actions) run on it, and send their decisions back by Bind and Evict. A round
-- of the scheduler (pkg/scheduler/scheduler.go) opens a session, executes the actions and closes it. The
-- queue job controller (pkg/controller/queuejob) creates the pods that are scheduled, through the API
-- server only.
--
-- Which file models which part:
--   Common and its children: Go's panics as values (Outcome), maps as association lists, integers.
--   Api/Resource: pkg/scheduler/api/resource_info.go; Resource/Order and Resource/Sum are its laws.
--   Api/Status, Api/Objects: types.go and helpers.go of pkg/scheduler/api, pkg/apis/utils/utils.go,
--     and the Kubernetes objects as far as they are read.
--   Api/TaskInfo, Api/JobInfo: pkg/scheduler/api/job_info.go. Operation names are the source's in
--     snake case, as add_task_info for AddTaskInfo. JobInfo/Invariant says when the index by status
--     and the two accounts are right; Accounts, Changes, Clone, Stale and Owner are about the operations.
--   Api/NodeInfo: pkg/scheduler/api/node_info.go, with NodeInfo/Accounts for the balance of idle, used
--     and releasing resources, and Changes, Clone, SetNode and Settled for the operations.
--   Cache/Store, Pods, Nodes, Specs, Calls: cache.go and event_handlers.go of pkg/scheduler/cache, one
--     function for each handler (handle_add_pod for AddPod) and for each step that it calls. Cache/Events
--     runs sequences of them. Cache/Sound is the invariant, Cache/Keep and Cache/Reach its proof, and
--     Cache/Unshared says of which histories; Cache/InPlace is Bind and Evict on tasks that nodes share with a job.
--     Cache/Mirror is the filter and the handlers that newSchedulerCache gives the pod informer, over
--     client-go's FilteringResourceEventHandler as a parameter; Mirror/Laws compares the cache with the pods.
--   Plugins/Priority, Gang, Drf: the plugins of pkg/scheduler/plugins, with their laws.
--   Queue: pkg/scheduler/util/priority_queue.go, over container/heap as a parameter. Queue/Slice is the
--     methods of heap.Interface, Queue/Container the algorithm of container/heap; Order, Items, Rises, Sinks, Least
--     and Sorts are about the order of the items.
--   Actions/Decorate, Allocate, Preempt: the actions of pkg/scheduler/actions. Allocate/Rounds and
--     Preempt/Taken, Trial and Rounds take a round of the loops apart; Steps says what the loops do to the session, Ends
--     that they end, Allocate/Accounts what the nodes are charged, Allocate/Gangs what is bound, Allocate/Candidates, Chosen, OfJob and Queued how the nodes depend on the decorate action,
--     Preempt/Origin where the queued tasks come from; Preempt/Search is about the inner loop.
--   Scheduler: NewScheduler and runOnce of pkg/scheduler/scheduler.go, with the registry of actions of
--     pkg/scheduler/framework/plugins.go; Scheduler/Rounds and Ends are about them.
--   Controller: pkg/controller/queuejob, which creates the pods of a queue job (types of
--     pkg/apis/v1alpha1/queuejob.go). Controller/Manage is syncQueueJob and manageQueueJob,
--     Controller/Race the goroutines in it, one step at a time in any order, Controller/Worker the event
--     handlers and the worker. Controller/Counted is the int32 arithmetic of the replicas.
--   Karcli: pkg/karcli/job. Karcli/Requests is populateResourceListV1 over Karcli/Split (strings.Split),
--     Karcli/Print says which texts it reads; Karcli/Run is RunJob and ListJobs, and Karcli/Launch follows a
--     launched job through the controller to the scheduler's cache.
--   Client/Kinds: queuejob.go and schedulingspec.go of pkg/client, which create the kinds of object; its
--     child Laws is about them.
--   Framework/Session: session.go and framework.go of pkg/scheduler/framework; Framework/Order is
--     about a session with the plugins that pkg/scheduler/factory.go registers. Framework/Calls
--     has its Pipeline, Allocate (assign, then dispatch_all) and Preempt; Frame carries a relation that
--     each single change keeps over to the calls, Commit, Kept, Uids and Owned are such relations. Bindings
--     says which calls of Bind are made, and Charges what
--     the calls take from the accounts of the nodes.
--   Tests: runs at concrete inputs.
--
-- How the code is read. A method that changes its receiver is a function from state to state. A Go
-- panic is the outcome `panic` of a call and ends the run; an error that is returned is a value. The
-- cache's mutex makes each handler one step. A map is a list of entries, whose order stands for the
-- order in which `range` visits it; all theorems hold for each order. Amounts of resources are natural
-- numbers: the source keeps whole numbers in float64, which is exact below 2^53, and GPU counts in
-- int64, below 2^63. The tolerances of LessEqual are kept as they are; on whole numbers they let pass
-- nothing more than is there. A task that the source shares between a job and a node by pointer is a value in
-- both maps. Evict and Bind change its status in place. Cache/InPlace is the two calls with what the nodes
-- show of that; Cache/Calls, which a session uses, is the two for a task that no node holds, or only the one
-- that Evict takes it from, and Cache/Unshared is about where they agree. The allocate action takes the
-- tasks that it binds from the pending ones.
--
-- Recursion is over lists but for the loops of the allocate and the preempt action, which run on fuel
-- (Common/Loop; `none` says that it ran out) and of which it is proved that some fuel is enough, and
-- that more does not change the result. The inner loop of the preempt action is bounded by the length of
-- its queue, which is popped in each of its rounds.
--
-- What is not this repository's code is a parameter or a field that holds the answer: the label
-- selector of the decorate action, container/heap, the API server and the stores of the informers,
-- float64 division and comparison in the DRF plugin, the controller and the namespace key of a pod, the
-- quantities of a resource list, wait.Poll, and the file of the client's configuration.
--
-- Not modelled: the wiring of informers and API clients (pkg/scheduler/cache/cache.go, pkg/client/factory.go),
-- logging and String methods, the start of the programs (cmd), generated code, vendored libraries; nor the timers and start-up code around runOnce and the worker, and the FIFO of client-go.
pub mod Common
pub mod Api
pub mod Cache
pub mod Queue
pub mod Controller
pub mod Karcli
pub mod Client
pub mod Plugins
pub mod Actions
pub mod Framework
pub mod Scheduler
pub mod Tests
