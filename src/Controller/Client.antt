-- ===== src/Controller/Client.antt =====
-- The `client.Client` and the `record.EventRecorder` that the controllers hold. They are not
-- implemented here: a client is a record of functions over a state `S` of the cluster as the
-- client sees it, with no law assumed. A controller's function is an action, which passes that
-- state on and lists, in order, the calls that it made and what they returned.
use job_deploy_operator.Base.{Text, List, [], ◌∷◌, ◌++◌}
use job_deploy_operator.Api.Kube.{NamespacedName, Job, Node, Result}
use job_deploy_operator.Api.JobFlow.{JobFlow}
use job_deploy_operator.Api.DaemonJob.{DaemonJob}
use job_deploy_operator.Api.JobTemplate.{JobTemplate}

-- `Get`, `List` and `Create` at the types at which the source calls them, and `Status().Update`.
pub record Client (S : Type 0) : Type 0 where
  pub get_job_flow : NamespacedName → S → Result JobFlow × S
  pub get_daemon_job : NamespacedName → S → Result DaemonJob × S
  pub get_job_template : NamespacedName → S → Result JobTemplate × S
  pub get_job : NamespacedName → S → Result Job × S
  pub list_jobs : S → Result (List Job) × S
  pub list_nodes : S → Result (List Node) × S
  pub create_job : Job → S → Result (Unit {0}) × S
  pub update_job_flow_status : JobFlow → S → Result (Unit {0}) × S
  pub update_daemon_job_status : DaemonJob → S → Result (Unit {0}) × S
  pub update_job_template_status : JobTemplate → S → Result (Unit {0}) × S

-- An event of the recorder: on which object, with its type, its reason and its message.
pub data EventType : Type 0 where
  normal warning : EventType

pub record Event : Type 0 where
  pub object : NamespacedName
  pub type : EventType
  pub reason : Text
  pub message : Text

pub data Call : Type 0 where
  got_job_flow : NamespacedName → Result JobFlow → Call
  got_daemon_job : NamespacedName → Result DaemonJob → Call
  got_job_template : NamespacedName → Result JobTemplate → Call
  got_job : NamespacedName → Result Job → Call
  listed_jobs : Result (List Job) → Call
  listed_nodes : Result (List Node) → Call
  created_job : Job → Result (Unit {0}) → Call
  updated_job_flow : JobFlow → Result (Unit {0}) → Call
  updated_daemon_job : DaemonJob → Result (Unit {0}) → Call
  updated_job_template : JobTemplate → Result (Unit {0}) → Call
  recorded : Event → Call

pub record Run (S A : Type 0) : Type 0 where
  pub value : A
  pub state : S
  pub calls : List Call

abbrev pub Action : Type 0 → Type 0 → Type 0
Action S A = S → Run S A

module _ {S A : Type 0} where
  abbrev pub pure : A → Action S A
  pure a s = record { value = a; state = s; calls = [] }

  -- One call of the client, with what it returned.
  abbrev pub call : (S → A × S) → (A → Call) → Action S A
  call f c s = let (a, s') = f s in record { value = a; state = s'; calls = c a ∷ [] }

module _ {S A B : Type 0} where
  infixl 5 ◌>>=◌ ◌>>◌
  abbrev pub ◌>>=◌ : Action S A → (A → Action S B) → Action S B
  ◌>>=◌ m f s =
      let r = m s in
      let q = f r.value r.state in
      record { value = q.value; state = q.state; calls = r.calls ++ q.calls }

  abbrev pub ◌>>◌ : Action S A → Action S B → Action S B
  m >> n = m >>= λ _. n

module _ {S : Type 0} where
  -- `r.event.Eventf`
  abbrev pub record_event : Event → Action S (Unit {0})
  record_event e s = record { value = tt; state = s; calls = recorded e ∷ [] }

module _ {S : Type 0} (client : Client S) where
  abbrev pub get_job_flow : NamespacedName → Action S (Result JobFlow)
  get_job_flow nn = call (client.get_job_flow nn) (got_job_flow nn)

  abbrev pub get_daemon_job : NamespacedName → Action S (Result DaemonJob)
  get_daemon_job nn = call (client.get_daemon_job nn) (got_daemon_job nn)

  abbrev pub get_job_template : NamespacedName → Action S (Result JobTemplate)
  get_job_template nn = call (client.get_job_template nn) (got_job_template nn)

  abbrev pub get_job : NamespacedName → Action S (Result Job)
  get_job nn = call (client.get_job nn) (got_job nn)

  abbrev pub list_jobs : Action S (Result (List Job))
  list_jobs = call client.list_jobs listed_jobs

  abbrev pub list_nodes : Action S (Result (List Node))
  list_nodes = call client.list_nodes listed_nodes

  abbrev pub create_job : Job → Action S (Result (Unit {0}))
  create_job job = call (client.create_job job) (created_job job)

  abbrev pub update_job_flow_status : JobFlow → Action S (Result (Unit {0}))
  update_job_flow_status jf = call (client.update_job_flow_status jf) (updated_job_flow jf)

  abbrev pub update_daemon_job_status : DaemonJob → Action S (Result (Unit {0}))
  update_daemon_job_status dj = call (client.update_daemon_job_status dj) (updated_daemon_job dj)

  abbrev pub update_job_template_status : JobTemplate → Action S (Result (Unit {0}))
  update_job_template_status t = call (client.update_job_template_status t) (updated_job_template t)
