-- ===== src/Copies/JobTemplates/Fields.antt =====
-- The deep copies of JobTemplates say what the originals say, in new memory.
use job_deploy_operator.Base.{ap}
use job_deploy_operator.Copies.{slice_copies, both_copies}
use job_deploy_operator.Copies.Deep.{IsDeep, slice-IsDeep, texts-IsDeep, both-IsDeep}
use job_deploy_operator.Copies.External.{Objects, External, IsFaithful}
use job_deploy_operator.Copies.JobTemplates.{
  job_template_spec_into, job_template_spec_copies, job_template_status_into,
  job_template_status_copies, job_template_into, job_template_copies, job_template_list_into,
  job_template_list_copies,
}

module _ {here plain : Objects} (ext : External here plain) (faithful : IsFaithful ext) where
  pub job_template_spec-IsDeep : IsDeep (job_template_spec_copies ext)
  unfolding job_template_spec_into
  job_template_spec-IsDeep x n valid =
      let c = faithful.job_spec x.job_template n valid in
      record {
        kept = ap (λ t. record { job_template = t }) c.kept;
        grows = c.grows;
        fresh = c.fresh;
      }

  pub job_template_status-IsDeep : IsDeep (job_template_status_copies ext)
  unfolding job_template_status_into
  job_template_status-IsDeep x n valid =
      let c = texts-IsDeep x.dependency_list n valid in
      record {
        kept = ap (λ t. record { dependency_list = t }) c.kept;
        grows = c.grows;
        fresh = c.fresh;
      }

  pub job_template-IsDeep : IsDeep (job_template_copies ext)
  unfolding job_template_into
  job_template-IsDeep x n valid =
      let c =
        (both-IsDeep ext.object_meta
            (both_copies (job_template_spec_copies ext) (job_template_status_copies ext))
            faithful.object_meta
            (both-IsDeep (job_template_spec_copies ext) (job_template_status_copies ext)
              job_template_spec-IsDeep job_template_status-IsDeep))
          (x.metadata, (x.spec, x.status)) n valid in
      record {
        kept =
            ap
              (λ t. record {
                type_meta = x.type_meta;
                metadata = t.0;
                spec = t.1.0;
                status = t.1.1;
              })
              c.kept;
        grows = c.grows;
        fresh = c.fresh;
      }

  pub job_template_list-IsDeep : IsDeep (job_template_list_copies ext)
  unfolding job_template_list_into
  job_template_list-IsDeep x n valid =
      let c =
        (both-IsDeep ext.list_meta (slice_copies (job_template_copies ext)) faithful.list_meta
            (slice-IsDeep (job_template_copies ext) job_template-IsDeep))
          (x.metadata, x.items) n valid in
      record {
        kept = ap (λ t. record { type_meta = x.type_meta; metadata = t.0; items = t.1 }) c.kept;
        grows = c.grows;
        fresh = c.fresh;
      }
