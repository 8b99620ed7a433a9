-- ===== src/Controller/Flow/Prepare/Branches.antt =====
-- Every way in which `prepareJob` ends.
use job_deploy_operator.Base.{
  Text, text_eq, text_beq_iff, insert, ◌≡◌, ◌≢◌, ◌⊎◌, inl, inr, Bool-cases, [], ◌==◌, if◌then◌else◌,
  arith,
}
use job_deploy_operator.Api.Kube.{
  NamespacedName, Job, Error, is_not_found, new_bad_request, Result, ok, err,
}
use job_deploy_operator.Api.JobFlow.{Flow, JobFlow}
use job_deploy_operator.Api.JobTemplate.{JobTemplate}
use job_deploy_operator.Controller.Client.{Client}
use job_deploy_operator.Controller.Common.{
  create_by_job_template, get_connection_of_job_and_job_template,
}
use job_deploy_operator.Controller.Trace.{Result-cases}
use job_deploy_operator.Controller.Flow.Prepare.{assemble_job, not_found_template, prepare_job}

abbrev pub template_key : JobFlow → Flow → NamespacedName
template_key jf flow = record { namespace = jf.metadata.namespace; name = flow.job_template_ref }

-- The error of a template that could not be read.
abbrev pub template_error : Text → Error → Error
template_error name e = if is_not_found e then new_bad_request (not_found_template name) else e

-- The job for what was found under the template's key.
abbrev pub from_template : JobFlow → Flow → Text → Result JobTemplate → Result Job
from_template jf flow job_name (ok t) = ok (
    assemble_job jf flow job_name (record {
      spec = t.spec.job_template;
      annotations =
          insert create_by_job_template
            (get_connection_of_job_and_job_template jf.metadata.namespace flow.job_template_ref) [];
    }))
from_template jf flow job_name (err e) = err (template_error flow.job_template_ref e)

-- For a flow that names no template, `prepareJob` always returns the job of the flow's own template.
-- For one that names a template it returns the job of the template that is read in the namespace of
-- the JobFlow, with the mark of the template; or the error of the read, a NotFound as a BadRequest
-- that names the template.
pub prepare_job_branches :
    {S : Type 0} (client : Client S) (jf : JobFlow) (flow : Flow) (job_name : Text) (s : S)
    → let result = (prepare_job client jf flow job_name s).value.0 in
      ((flow.job_template_ref ≡ [])
        × (result
            ≡ ok (
                assemble_job jf flow job_name
                  (record { spec = flow.job_template; annotations = [] }))))
      ⊎ ((flow.job_template_ref ≢ [])
          × (result
              ≡ from_template jf flow job_name
                  (client.get_job_template (template_key jf flow) s).0))
unfolding prepare_job
prepare_job_branches client jf flow job_name s = elim (Bool-cases (flow.job_template_ref == [])) [
  | inl t ↦ inl ((text_beq_iff flow.job_template_ref []).0 t, ground (arith, t))
  | inr f ↦
      let ne : flow.job_template_ref ≢ [] =
        λ e. ground (arith, f, text_beq_iff flow.job_template_ref [], e) in
      elim (Result-cases (client.get_job_template (template_key jf flow) s).0) [
        | inl (t, q) ↦ inr (ne, ground (arith, f, q))
        | inr (e, q) ↦ elim (Bool-cases (is_not_found e)) [
          | inl g ↦ inr (ne, ground (arith, f, q, g))
          | inr g ↦ inr (ne, ground (arith, f, q, g))
        ]
      ]
]
