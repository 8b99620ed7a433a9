-- ===== src/Tests/Cluster.antt =====
-- A cluster in memory, as a concrete client: it stores objects by key, refuses to create a job that
-- is there, and replaces an object when its status is written.
use job_deploy_operator.Base.{codes, text_beq, text_eq, Bool, ◌&&◌, List, [], ◌∷◌, if◌then◌else◌}
use job_deploy_operator.Api.Kube.{
  NamespacedName, ObjectMeta, Job, Node, not_found, already_exists, Error, Result, ok, err,
}
use job_deploy_operator.Api.JobFlow.{JobFlow}
use job_deploy_operator.Api.DaemonJob.{DaemonJob}
use job_deploy_operator.Api.JobTemplate.{JobTemplate}
use job_deploy_operator.Controller.Client.{Client}

pub record Cluster : Type 0 where
  pub job_flows : List JobFlow
  pub daemon_jobs : List DaemonJob
  pub job_templates : List JobTemplate
  pub jobs : List Job
  pub nodes : List Node

abbrev pub missing : Error
missing = record { reason = not_found; message = codes "not found" }

abbrev pub there_already : Error
there_already = record { reason = already_exists; message = codes "already exists" }

abbrev pub has_key : NamespacedName → ObjectMeta → Bool
has_key key m = text_beq m.namespace key.namespace && text_beq m.name key.name

module _ {A : Type 0} (meta : A → ObjectMeta) where
  unfoldable pub find : NamespacedName → List A → Result A
  find key [] = err missing
  find key (a ∷ as') = let rest = find key as' in if has_key key (meta a) then ok a else rest

  unfoldable pub replace : A → List A → List A
  replace new [] = []
  replace new (a ∷ as') =
      let rest = replace new as' in
      if has_key (record { namespace = (meta new).namespace; name = (meta new).name }) (meta a)
      then new ∷ rest
      else a ∷ rest

abbrev pub job_key_of : Job → NamespacedName
job_key_of job = record { namespace = job.metadata.namespace; name = job.metadata.name }

unfoldable pub add_new : Job → Cluster → Result (Unit {0}) × Cluster
unfolding find
add_new job c = elim (find (λ j. j.metadata) (job_key_of job) c.jobs) [
  | ok _ ↦ (err there_already, c)
  | err _ ↦ (ok tt, record c { jobs = job ∷ c.jobs })
]

abbrev pub in_memory : Client Cluster
in_memory = record {
  get_job_flow = λ key c. (find (λ o. o.metadata) key c.job_flows, c);
  get_daemon_job = λ key c. (find (λ o. o.metadata) key c.daemon_jobs, c);
  get_job_template = λ key c. (find (λ o. o.metadata) key c.job_templates, c);
  get_job = λ key c. (find (λ o. o.metadata) key c.jobs, c);
  list_jobs = λ c. (ok c.jobs, c);
  list_nodes = λ c. (ok c.nodes, c);
  create_job = add_new;
  update_job_flow_status =
      λ o c. (ok tt, record c { job_flows = replace (λ x. x.metadata) o c.job_flows });
  update_daemon_job_status =
      λ o c. (ok tt, record c { daemon_jobs = replace (λ x. x.metadata) o c.daemon_jobs });
  update_job_template_status =
      λ o c. (ok tt, record c { job_templates = replace (λ x. x.metadata) o c.job_templates });
}
