-- ===== src/Controller/Daemon/Deploy.antt =====
-- `deployDaemonJob` and `prepareJobFromDaemonJob` of pkg/controller/daemonjob_controller.go.
pub mod Once
pub mod Keeps
pub mod Asks
use job_deploy_operator.Base.{
  Text, codes, text_eq, List, [], ◌∷◌, ◌++◌, Option, none, some, map, ◌==◌, if◌then◌else◌,
}
use job_deploy_operator.Api.Kube.{
  NamespacedName, Node, EnvVar, PodSpec, PodTemplate, JobSpec, Job, Error, is_not_found,
  is_already_exists, Result, ok, err,
}
use job_deploy_operator.Api.DaemonJob.{DaemonJob}
use job_deploy_operator.Controller.Client.{
  Client, Event, normal, Action, pure, record_event, list_nodes, get_job, create_job, ◌>>=◌, ◌>>◌,
}
use job_deploy_operator.Controller.Common.{restart_policy_never}
use job_deploy_operator.Controller.Flow.Prepare.{no_status, never_restart, set_env}
use job_deploy_operator.Controller.Flow.Deploy.{created_for_next_step}
use job_deploy_operator.Controller.Daemon.Nodes.{is_excluded}

-- The key under which `deployDaemonJob` looks for the job of every node.
abbrev pub daemon_key : DaemonJob → NamespacedName
daemon_key dj = record { namespace = dj.metadata.namespace; name = dj.metadata.name }

-- A map or slice of the global parameters replaces that of the job, unless it is nil.
abbrev override {ℓ} : {A : Type ℓ} → Option A → Option A → Option A
override none own = own
override (some globals) own = some globals

unfoldable pub daemon_spec : DaemonJob → Text → JobSpec
unfolding never_restart set_env
daemon_spec dj node_name =
    let params = dj.spec.global_params in
    let own = dj.spec.job_spec in
    let placed : JobSpec = record own {
      template = record own.template { spec = record own.template.spec { node_name = node_name } };
    } in
    let plain = never_restart placed in
    set_env params.env (record plain {
      template = record plain.template {
        annotations = override params.annotations plain.template.annotations;
        labels = override params.labels plain.template.labels;
      };
    })

unfoldable pub prepare_job_from_daemon_job : DaemonJob → Text → Text → Job
unfolding daemon_spec
prepare_job_from_daemon_job dj job_name node_name = record {
  metadata = record {
    name = job_name ++ codes "-" ++ node_name;
    namespace = dj.metadata.namespace;
    uid = [];
    labels = dj.spec.global_params.labels;
    annotations = dj.spec.global_params.annotations;
    owner_references =
        record {
          api_version = dj.type_meta.api_version;
          kind = dj.type_meta.kind;
          name = dj.metadata.name;
          uid = dj.metadata.uid;
        }
        ∷ [];
    deletion_timestamp = none;
  };
  spec = daemon_spec dj node_name;
  status = no_status;
}

-- The DaemonJob shares the slice of containers with the job, and has what was written there.
unfoldable pub write_back : DaemonJob → DaemonJob
unfolding set_env
write_back dj = record dj {
  spec = record dj.spec { job_spec = set_env dj.spec.global_params.env dj.spec.job_spec };
}

module _ {S : Type 0} (client : Client S) where
  -- What follows a `Get` that did not find the job. Every way out leaves the loop: the `break` for
  -- a job that is there already, and `return err`, where `err` is nil after a creation.
  unfoldable pub create_daemon_job : DaemonJob → Job → Action S (Result (Unit {0}))
  create_daemon_job dj job = do
    created ← create_job client job
    elim created [
      | err e ↦ if is_already_exists e then pure (ok tt) else pure (err e)
      | ok _ ↦ do
        record_event (record {
          object = daemon_key dj;
          type = normal;
          reason = codes "Created";
          message = created_for_next_step job.metadata.name;
        })
        pure (ok tt)
    ]

  -- The loop over the nodes. Beside the result, the DaemonJob as the loop leaves it.
  unfoldable pub deploy_nodes : DaemonJob → List Node → Action S (Result (Unit {0}) × DaemonJob)
  deploy_nodes dj [] = pure (ok tt, dj)
  deploy_nodes dj (node ∷ nodes) =
      let skipped = deploy_nodes dj nodes in
      let visited = deploy_nodes (write_back dj) nodes in
      if is_excluded dj node then skipped else do
        let job = prepare_job_from_daemon_job dj dj.metadata.name node.name
        found ← get_job client (daemon_key dj)
        elim found [
          | ok _ ↦ visited
          | err e ↦
              if is_not_found e
              then (do created ← create_daemon_job dj job; pure (created, write_back dj))
              else pure (err e, write_back dj)
        ]

  unfoldable pub deploy_daemon_job : DaemonJob → Action S (Result (Unit {0}) × DaemonJob)
  unfolding deploy_nodes
  deploy_daemon_job dj = do
    listed ← list_nodes client
    elim listed [ err e ↦ pure (err e, dj) | ok nodes ↦ deploy_nodes dj nodes ]
