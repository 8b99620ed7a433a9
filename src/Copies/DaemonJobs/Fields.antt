-- ===== src/Copies/DaemonJobs/Fields.antt =====
-- The deep copies of DaemonJobs say what the originals say, in new memory.
use job_deploy_operator.Base.{ap}
use job_deploy_operator.Copies.{slice_copies, text_map_copies, both_copies}
use job_deploy_operator.Copies.Deep.{IsDeep, slice-IsDeep, both-IsDeep}
use job_deploy_operator.Copies.Deep.Maps.{map-IsDeep, text_map-IsDeep}
use job_deploy_operator.Copies.External.{Objects, External, IsFaithful}
use job_deploy_operator.Copies.DaemonJobs.{
  global_params_into, global_params_copies, daemon_job_spec_into, daemon_job_spec_copies,
  daemon_job_status_into, daemon_job_status_copies, daemon_job_into, daemon_job_copies,
  daemon_job_list_into, daemon_job_list_copies,
}

module _ {here plain : Objects} (ext : External here plain) (faithful : IsFaithful ext) where
  pub global_params-IsDeep : IsDeep (global_params_copies ext)
  unfolding global_params_into
  global_params-IsDeep x n valid =
      let c =
        (both-IsDeep (slice_copies ext.env_var) (both_copies text_map_copies text_map_copies)
            (slice-IsDeep ext.env_var faithful.env_var)
            (both-IsDeep text_map_copies text_map_copies text_map-IsDeep text_map-IsDeep))
          (x.env, (x.labels, x.annotations)) n valid in
      record {
        kept =
            ap
              (λ t. record {
                env = t.0;
                node_name = x.node_name;
                labels = t.1.0;
                annotations = t.1.1;
              })
              c.kept;
        grows = c.grows;
        fresh = c.fresh;
      }

  pub daemon_job_spec-IsDeep : IsDeep (daemon_job_spec_copies ext)
  unfolding daemon_job_spec_into
  daemon_job_spec-IsDeep x n valid =
      let c =
        (both-IsDeep (global_params_copies ext) ext.job_spec global_params-IsDeep faithful.job_spec)
          (x.global_params, x.job_spec) n valid in
      record {
        kept =
            ap
              (λ t. record {
                global_params = t.0;
                exclude_node_list = x.exclude_node_list;
                job_spec = t.1;
              })
              c.kept;
        grows = c.grows;
        fresh = c.fresh;
      }

  pub daemon_job_status-IsDeep : IsDeep (daemon_job_status_copies ext)
  unfolding daemon_job_status_into
  daemon_job_status-IsDeep x n valid =
      let c = (map-IsDeep ext.job_status faithful.job_status) x.job_status_list n valid in
      record {
        kept = ap (λ t. record { job_status_list = t; state = x.state }) c.kept;
        grows = c.grows;
        fresh = c.fresh;
      }

  pub daemon_job-IsDeep : IsDeep (daemon_job_copies ext)
  unfolding daemon_job_into
  daemon_job-IsDeep x n valid =
      let c =
        (both-IsDeep ext.object_meta
            (both_copies (daemon_job_spec_copies ext) (daemon_job_status_copies ext))
            faithful.object_meta
            (both-IsDeep (daemon_job_spec_copies ext) (daemon_job_status_copies ext)
              daemon_job_spec-IsDeep daemon_job_status-IsDeep))
          (x.metadata, (x.spec, x.status)) n valid in
      record {
        kept =
            ap
              (λ t. record {
                type_meta = x.type_meta;
                metadata = t.0;
                spec = t.1.0;
                status = t.1.1;
              })
              c.kept;
        grows = c.grows;
        fresh = c.fresh;
      }

  pub daemon_job_list-IsDeep : IsDeep (daemon_job_list_copies ext)
  unfolding daemon_job_list_into
  daemon_job_list-IsDeep x n valid =
      let c =
        (both-IsDeep ext.list_meta (slice_copies (daemon_job_copies ext)) faithful.list_meta
            (slice-IsDeep (daemon_job_copies ext) daemon_job-IsDeep))
          (x.metadata, x.items) n valid in
      record {
        kept = ap (λ t. record { type_meta = x.type_meta; metadata = t.0; items = t.1 }) c.kept;
        grows = c.grows;
        fresh = c.fresh;
      }
