-- ===== src/Tests/Wakes.antt =====
-- The events of a prepared job, at a concrete JobFlow.
use job_deploy_operator.Base.{codes, ◌≡◌, refl, [], ◌∷◌}
use job_deploy_operator.Api.Kube.{NamespacedName}
use job_deploy_operator.Api.JobFlow.{job_flow_kind, job_flow_api_version}
use job_deploy_operator.Controller.Flow.Prepare.{assemble_job}
use job_deploy_operator.Controller.Template.Watch.{template_requests}
use job_deploy_operator.Program.{
  job_created, job_updated, job_deleted, job_flow_requests, daemon_job_requests,
  job_template_requests,
}
use job_deploy_operator.Program.Wakes.{prepared_job_wakes}
use job_deploy_operator.Tests.Samples.{flow_1, sample_flow, job_of}

abbrev request : NamespacedName
request = record { namespace = codes "default"; name = codes "jf" }

prepared_job_wakes_example :
    let job = job_of flow_1 in
    ((job_flow_requests (job_created job) ≡ [])
      × (job_flow_requests (job_updated job job) ≡ request ∷ [])
      × (job_flow_requests (job_deleted job) ≡ request ∷ []))
    × ((daemon_job_requests (job_created job) ≡ [])
        × (daemon_job_requests (job_updated job job) ≡ [])
        × (daemon_job_requests (job_deleted job) ≡ []))
    × ((job_template_requests (job_created job) ≡ template_requests job)
        × (job_template_requests (job_updated job job) ≡ template_requests job)
        × (job_template_requests (job_deleted job) ≡ template_requests job))
prepared_job_wakes_example =
    prepared_job_wakes sample_flow (job_of flow_1) (job_of flow_1) (unfold job_flow_kind in refl)
      (unfold job_flow_api_version in refl)
      (record { references = unfold assemble_job in refl; placed = unfold assemble_job in refl })
