-- ===== src/Client/Kinds.antt =====
-- `CreateQueueJobKind` and `CreateSchedulingSpecKind` of pkg/client/queuejob.go and schedulingspec.go, which make a
-- kind of object known to the API server and wait until it is. The server is a parameter, which
-- works on a state `S`, and so is `wait.Poll`.
pub mod Laws
use kube_arbitrator.Common.{
  ◌≡◌, ◌⊎◌, inl, inr, Bool, true, false, List, [], ◌∷◌, Option, none, some, String, if◌then◌else◌,
}

-- A condition of a `CustomResourceDefinition`.
pub data ConditionType : Type 0 where
  established names_accepted : ConditionType
  other_type : String → ConditionType

pub data ConditionStatus : Type 0 where
  condition_true condition_false condition_unknown : ConditionStatus

pub record Condition : Type 0 where
  pub type : ConditionType
  pub status : ConditionStatus

-- `CustomResourceDefinition`, with the namespaced scope that both kinds have.
pub record Definition : Type 0 where
  pub name : String
  pub group : String
  pub version : String
  pub plural : String
  pub kind : String
  pub conditions : List Condition

-- `return true, err`, `return false, err` without an error, and with one.
pub data Answer (Err : Type 0) : Type 0 where
  finished unfinished : Answer Err
  broken : Err → Answer Err

-- What `wait.Poll` does: it asks until the answer is yes, or an error, or the time is over.
pub data Polled {St Err : Type 0} (ask : St → St × Answer Err) (timeout : Err)
    : St → St → Option Err → Type 0 where
  ready : (s t : St) → ask s ≡ (t, finished) → Polled ask timeout s t none
  gave_up : (s t : St) (e : Err) → ask s ≡ (t, broken e) → Polled ask timeout s t (some e)
  timed_out : (s : St) → Polled ask timeout s s (some timeout)
  waited :
      (s t u : St) (e : Option Err)
      → ask s ≡ (t, unfinished)
      → Polled ask timeout t u e
      → Polled ask timeout s u e

-- The API server. `aggregate` is `errors.NewAggregate` of two errors.
pub record Server (S Err : Type 0) : Type 0 where
  pub create : Definition → S → S × Option Err
  pub get : String → S → S × (Err ⊎ Definition)
  pub delete : String → S → S × Option Err
  pub aggregate : Err → Err → Err
  pub is_already_exists : Err → Bool
  pub timeout : Err
  pub poll :
      (S × Definition → (S × Definition) × Answer Err)
      → S × Definition
      → (S × Definition) × Option Err
  pub poll_lem :
      (ask : S × Definition → (S × Definition) × Answer Err) (s t : S × Definition) (e : Option Err)
      → poll ask s ≡ (t, e)
      → Polled ask timeout s t e

-- The loop over the conditions. A name conflict is printed, which changes nothing.
unfoldable pub is_established : List Condition → Bool
is_established [] = false
is_established (cond ∷ conds) =
    let rest = is_established conds in
    elim cond.type [
      | established ↦ elim cond.status [
        | condition_true ↦ true
        | condition_false ↦ rest
        | condition_unknown ↦ rest
      ]
      | names_accepted ↦ rest
      | other_type t ↦ rest
    ]

module _ {S Err : Type 0} (server : Server S Err) where
  -- The function that is polled. It assigns to `crd`, which stands beside the server's state.
  unfoldable pub answer : (S × Definition) → S × (Err ⊎ Definition) → (S × Definition) × Answer Err
  unfolding is_established
  answer (s, crd) (t, inl err) = ((t, crd), broken err)
  answer (s, crd) (t, inr got) =
      ((t, got), if is_established got.conditions then finished else unfinished)

  unfoldable pub ask : String → S × Definition → (S × Definition) × Answer Err
  unfolding answer
  ask name (s, crd) = answer (s, crd) (server.get name s)

  -- After a failed wait: the definition is deleted again.
  unfoldable pub clean_up : Err → S × Option Err → S × (Err ⊎ Definition)
  clean_up err (s, none) = (s, inl err)
  clean_up err (s, some delete_err) = (s, inl (server.aggregate err delete_err))

  unfoldable pub after_wait : String → (S × Definition) × Option Err → S × (Err ⊎ Definition)
  unfolding clean_up
  after_wait name ((s, crd), none) = (s, inr crd)
  after_wait name ((s, crd), some err) = clean_up err (server.delete name s)

  unfoldable pub after_create : Definition → S × Option Err → S × (Err ⊎ Definition)
  unfolding ask after_wait
  after_create crd (s, some err) = (s, inl err)
  after_create crd (s, none) = after_wait crd.name (server.poll (ask crd.name) (s, crd))

  -- The body that the two functions share, for the definition of a kind.
  unfoldable pub create_kind : Definition → S → S × (Err ⊎ Definition)
  unfolding after_create
  create_kind crd s = after_create crd (server.create crd s)

-- `arbv1.GroupName` and `arbv1.SchemeGroupVersion.Version`.
abbrev pub group_name : String
group_name = "arbitrator.incubator.k8s.io"

abbrev pub group_version : String
group_version = "v1alpha1"

unfoldable pub queue_job_definition : Definition
queue_job_definition = record {
  name = "queuejobs.arbitrator.incubator.k8s.io";
  group = group_name;
  version = group_version;
  plural = "queuejobs";
  kind = "QueueJob";
  conditions = [];
}

unfoldable pub scheduling_spec_definition : Definition
scheduling_spec_definition = record {
  name = "schedulingspecs.arbitrator.incubator.k8s.io";
  group = group_name;
  version = group_version;
  plural = "schedulingspecs";
  kind = "SchedulingSpec";
  conditions = [];
}

module _ {S Err : Type 0} (server : Server S Err) where
  -- `CreateQueueJobKind` and `CreateSchedulingSpecKind`.
  unfoldable pub create_queue_job_kind : S → S × (Err ⊎ Definition)
  unfolding create_kind queue_job_definition
  create_queue_job_kind s = create_kind server queue_job_definition s

  unfoldable pub create_scheduling_spec_kind : S → S × (Err ⊎ Definition)
  unfolding create_kind scheduling_spec_definition
  create_scheduling_spec_kind s = create_kind server scheduling_spec_definition s

  -- The end of `createQueueJobKind` and `createSchedulingSpecKind` in the controller and the
  -- scheduler: a kind that is there already is no error.
  unfoldable pub unless_exists : S × (Err ⊎ Definition) → S × Option Err
  unless_exists (s, inr crd) = (s, none)
  unless_exists (s, inl err) = (s, if server.is_already_exists err then none else some err)
