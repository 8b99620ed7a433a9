-- ===== src/Controller/Flow/Watch/Owners.antt =====
-- The owner of a job that `prepareJob` made, for the handlers and for the status.
use job_deploy_operator.Base.{Text, text_eq, eq_refl, ◌≡◌, refl, [], ◌∷◌, arith}
use job_deploy_operator.Api.Kube.{Job}
use job_deploy_operator.Api.JobFlow.{Flow, JobFlow, job_flow_kind, job_flow_api_version}
use job_deploy_operator.Controller.Tally.{owned_jobs}
use job_deploy_operator.Controller.Flow.Prepare.{Chosen, assemble_job}
use job_deploy_operator.Controller.Flow.Deploy.{flow_key}
use job_deploy_operator.Controller.Flow.Watch.{on_update_job, on_delete_job}

-- The job has the owner references, and the namespace, that `prepareJob` gives it; the cluster may
-- have changed everything else.
pub record IsJobOf (jf : JobFlow) (job : Job) : Type 0 where
  pub references :
      job.metadata.owner_references
      ≡ record {
        api_version = jf.type_meta.api_version;
        kind = jf.type_meta.kind;
        name = jf.metadata.name;
        uid = jf.metadata.uid;
      }
        ∷ []
  pub placed : job.metadata.namespace ≡ jf.metadata.namespace

pub assemble_job-IsJobOf :
    (jf : JobFlow) (flow : Flow) (job_name : Text) (c : Chosen)
    → IsJobOf jf (assemble_job jf flow job_name c)
unfolding assemble_job
assemble_job-IsJobOf jf flow job_name c = record { references = refl; placed = refl }

-- A change or a deletion of a job with the owner reference and the namespace that `prepareJob`
-- gives, for a JobFlow of the registered kind and version, enqueues exactly this JobFlow, and the
-- status of the JobFlow counts the job exactly once.
pub owner_comes_back :
    (jf : JobFlow) (object_old job : Job)
    → jf.type_meta.kind ≡ job_flow_kind
    → jf.type_meta.api_version ≡ job_flow_api_version
    → IsJobOf jf job
    → (on_update_job object_old job ≡ flow_key jf ∷ [])
      × (on_delete_job job ≡ flow_key jf ∷ [])
      × (owned_jobs job_flow_kind jf.metadata.name (job ∷ []) ≡ job ∷ [])
unfolding on_update_job on_delete_job owned_jobs
owner_comes_back jf object_old job k v h =
    let kinds = eq_refl {A = Text} job_flow_kind in
    let versions = eq_refl {A = Text} job_flow_api_version in
    let names = eq_refl {A = Text} jf.metadata.name in
    (
      ground (arith, h.references, h.placed, k, v, kinds, versions),
      ground (arith, h.references, h.placed, k, v, kinds, versions),
      ground (arith, h.references, k, kinds, names),
    )
