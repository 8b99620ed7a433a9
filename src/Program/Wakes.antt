-- ===== src/Program/Wakes.antt =====
-- Which controllers an event of a job wakes.
use job_deploy_operator.Base.{false, Text, text_beq, text_eq, ◌≡◌, refl, [], ◌∷◌, ◌==◌, arith}
use job_deploy_operator.Api.Kube.{Job}
use job_deploy_operator.Api.JobFlow.{JobFlow, job_flow_kind, job_flow_api_version}
use job_deploy_operator.Api.DaemonJob.{daemon_job_kind, daemon_job_api_version}
use job_deploy_operator.Controller.Flow.Deploy.{flow_key}
use job_deploy_operator.Controller.Flow.Watch.{owner_requests}
use job_deploy_operator.Controller.Flow.Watch.Owners.{IsJobOf, owner_comes_back}
use job_deploy_operator.Controller.Template.Watch.{template_requests}
use job_deploy_operator.Program.{
  job_created, job_updated, job_deleted, job_flow_requests, daemon_job_requests,
  job_template_requests,
}

job_flow_not_daemon : (job_flow_kind == daemon_job_kind) ≡ false
unfolding text_beq job_flow_kind daemon_job_kind
job_flow_not_daemon = refl

-- A JobFlow's job is no job of a DaemonJob.
no_daemon :
    (jf : JobFlow) (job : Job) (api_version : Text)
    → jf.type_meta.kind ≡ job_flow_kind
    → IsJobOf jf job
    → owner_requests daemon_job_kind api_version job.metadata.namespace
        job.metadata.owner_references
      ≡ []
unfolding owner_requests
no_daemon jf job api_version k h = ground (arith, h.references, k, job_flow_not_daemon)

-- Of a job with the owner reference and the namespace that `prepareJob` gives, for a JobFlow of the
-- registered kind and version: its creation wakes neither the JobFlow nor the DaemonJob controller,
-- its update and its deletion wake the JobFlow controller for exactly this JobFlow and the DaemonJob
-- controller for nothing, and each of the three wakes the JobTemplate controller for what the
-- annotation of the job says.
pub prepared_job_wakes :
    (jf : JobFlow) (old job : Job)
    → jf.type_meta.kind ≡ job_flow_kind
    → jf.type_meta.api_version ≡ job_flow_api_version
    → IsJobOf jf job
    → ((job_flow_requests (job_created job) ≡ [])
        × (job_flow_requests (job_updated old job) ≡ flow_key jf ∷ [])
        × (job_flow_requests (job_deleted job) ≡ flow_key jf ∷ []))
      × ((daemon_job_requests (job_created job) ≡ [])
          × (daemon_job_requests (job_updated old job) ≡ [])
          × (daemon_job_requests (job_deleted job) ≡ []))
      × ((job_template_requests (job_created job) ≡ template_requests job)
          × (job_template_requests (job_updated old job) ≡ template_requests job)
          × (job_template_requests (job_deleted job) ≡ template_requests job))
unfolding job_flow_requests daemon_job_requests job_template_requests
prepared_job_wakes jf old job k v h =
    let (update, deletion, _) = owner_comes_back jf old job k v h in
    let nothing = no_daemon jf job daemon_job_api_version k h in
    ((refl, update, deletion), (refl, nothing, nothing), (refl, refl, refl))
