-- ===== src/Copies/JobFlows/Fields.antt =====
-- The deep copies of JobFlows say what the originals say, in new memory.
use job_deploy_operator.Base.{ap}
use job_deploy_operator.Copies.{slice_copies, texts_copies, text_map_copies, both_copies}
use job_deploy_operator.Copies.Deep.{IsDeep, slice-IsDeep, texts-IsDeep, both-IsDeep}
use job_deploy_operator.Copies.Deep.Maps.{map-IsDeep, text_map-IsDeep}
use job_deploy_operator.Copies.External.{Objects, External, IsFaithful}
use job_deploy_operator.Copies.JobFlows.{
  error_handler_into, error_handler_copies, flow_into, flow_copies, global_params_into,
  global_params_copies, job_flow_spec_into, job_flow_spec_copies, job_flow_status_into,
  job_flow_status_copies, job_flow_into, job_flow_copies, job_flow_list_into, job_flow_list_copies,
}

module _ {here plain : Objects} (ext : External here plain) (faithful : IsFaithful ext) where
  pub error_handler-IsDeep : IsDeep (error_handler_copies ext)
  unfolding error_handler_into
  error_handler-IsDeep x n valid =
      let c =
        (both-IsDeep ext.pod_spec ext.job_spec faithful.pod_spec faithful.job_spec)
          (x.pod_spec, x.job_template) n valid in
      record {
        kept =
            ap
              (λ t. record {
                pod_spec = t.0;
                job_template = t.1;
                job_template_ref = x.job_template_ref;
                script = x.script;
              })
              c.kept;
        grows = c.grows;
        fresh = c.fresh;
      }

  pub flow-IsDeep : IsDeep (flow_copies ext)
  unfolding flow_into
  flow-IsDeep x n valid =
      let c =
        (both-IsDeep ext.job_spec (both_copies texts_copies (slice_copies ext.volume_mount))
            faithful.job_spec
            (both-IsDeep texts_copies (slice_copies ext.volume_mount) texts-IsDeep
              (slice-IsDeep ext.volume_mount faithful.volume_mount)))
          (x.job_template, (x.dependencies, x.share_volume_mounts)) n valid in
      record {
        kept =
            ap
              (λ t. record {
                name = x.name;
                job_template = t.0;
                job_template_ref = x.job_template_ref;
                dependencies = t.1.0;
                share_volume_mounts = t.1.1;
              })
              c.kept;
        grows = c.grows;
        fresh = c.fresh;
      }

  pub global_params-IsDeep : IsDeep (global_params_copies ext)
  unfolding global_params_into
  global_params-IsDeep x n valid =
      let c =
        (both-IsDeep (slice_copies ext.env_var) (both_copies text_map_copies text_map_copies)
            (slice-IsDeep ext.env_var faithful.env_var)
            (both-IsDeep text_map_copies text_map_copies text_map-IsDeep text_map-IsDeep))
          (x.env, (x.labels, x.annotations)) n valid in
      record {
        kept =
            ap
              (λ t. record {
                env = t.0;
                node_name = x.node_name;
                labels = t.1.0;
                annotations = t.1.1;
              })
              c.kept;
        grows = c.grows;
        fresh = c.fresh;
      }

  pub job_flow_spec-IsDeep : IsDeep (job_flow_spec_copies ext)
  unfolding job_flow_spec_into
  job_flow_spec-IsDeep x n valid =
      let c =
        (both-IsDeep (global_params_copies ext)
            (both_copies (slice_copies (flow_copies ext))
              (both_copies (slice_copies ext.volume) (error_handler_copies ext)))
            global_params-IsDeep
            (both-IsDeep (slice_copies (flow_copies ext))
              (both_copies (slice_copies ext.volume) (error_handler_copies ext))
              (slice-IsDeep (flow_copies ext) flow-IsDeep)
              (both-IsDeep (slice_copies ext.volume) (error_handler_copies ext)
                (slice-IsDeep ext.volume faithful.volume) error_handler-IsDeep)))
          (x.global_params, (x.flows, (x.share_volumes, x.error_handler))) n valid in
      record {
        kept =
            ap
              (λ t. record {
                global_params = t.0;
                flows = t.1.0;
                share_volumes = t.1.1.0;
                error_handler = t.1.1.1;
              })
              c.kept;
        grows = c.grows;
        fresh = c.fresh;
      }

  pub job_flow_status-IsDeep : IsDeep (job_flow_status_copies ext)
  unfolding job_flow_status_into
  job_flow_status-IsDeep x n valid =
      let c = (map-IsDeep ext.job_status faithful.job_status) x.job_status_list n valid in
      record {
        kept = ap (λ t. record { job_status_list = t; state = x.state }) c.kept;
        grows = c.grows;
        fresh = c.fresh;
      }

  pub job_flow-IsDeep : IsDeep (job_flow_copies ext)
  unfolding job_flow_into
  job_flow-IsDeep x n valid =
      let c =
        (both-IsDeep ext.object_meta
            (both_copies (job_flow_spec_copies ext) (job_flow_status_copies ext))
            faithful.object_meta
            (both-IsDeep (job_flow_spec_copies ext) (job_flow_status_copies ext)
              job_flow_spec-IsDeep job_flow_status-IsDeep))
          (x.metadata, (x.spec, x.status)) n valid in
      record {
        kept =
            ap
              (λ t. record {
                type_meta = x.type_meta;
                metadata = t.0;
                spec = t.1.0;
                status = t.1.1;
              })
              c.kept;
        grows = c.grows;
        fresh = c.fresh;
      }

  pub job_flow_list-IsDeep : IsDeep (job_flow_list_copies ext)
  unfolding job_flow_list_into
  job_flow_list-IsDeep x n valid =
      let c =
        (both-IsDeep ext.list_meta (slice_copies (job_flow_copies ext)) faithful.list_meta
            (slice-IsDeep (job_flow_copies ext) job_flow-IsDeep))
          (x.metadata, x.items) n valid in
      record {
        kept = ap (λ t. record { type_meta = x.type_meta; metadata = t.0; items = t.1 }) c.kept;
        grows = c.grows;
        fresh = c.fresh;
      }
