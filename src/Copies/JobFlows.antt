-- ===== src/Copies/JobFlows.antt =====
-- pkg/apis/jobflow/v1alpha1/zz_generated.deepcopy.go: the deep copies of JobFlows and their parts.
-- A value has its references under `ref`: addresses in memory (`At`), or nothing (`Plain`).
pub mod Values
pub mod Fields
pub use job_deploy_operator.Copies.JobFlows.Values.{
  ErrorHandlerValue, FlowValue, GlobalParamsValue, JobFlowSpecValue, JobFlowStatusValue,
  JobFlowValue, JobFlowListValue,
}
use job_deploy_operator.Base.{ℕ, Text, GoMap, List, ◌++◌, Option}
use job_deploy_operator.Api.Kube.{TypeMeta}
use job_deploy_operator.Copies.{
  At, Plain, Copies, copy_slice, copy_map, deep_copy, deep_copy_object, slice_copies, map_copies,
  copy_texts, texts_copies, copy_text_map, text_map_copies,
}
use job_deploy_operator.Copies.External.{Objects, External}

module _ {here plain : Objects} (ext : External here plain) where
  unfoldable pub error_handler_into : ErrorHandlerValue At here → ℕ → ErrorHandlerValue At here × ℕ
  error_handler_into x n =
      let pod_spec = ext.pod_spec.deep_copy_into x.pod_spec n in
      let job_template = ext.job_spec.deep_copy_into x.job_template pod_spec.1 in
      (record x { pod_spec = pod_spec.0; job_template = job_template.0 }, job_template.1)

  abbrev pub error_handler_copies :
      Copies (ErrorHandlerValue At here) (ErrorHandlerValue Plain plain)
  error_handler_copies = record {
    content = λ x. record {
      pod_spec = ext.pod_spec.content x.pod_spec;
      job_template = ext.job_spec.content x.job_template;
      job_template_ref = x.job_template_ref;
      script = x.script;
    };
    addresses = λ x. ext.pod_spec.addresses x.pod_spec ++ ext.job_spec.addresses x.job_template;
    IsValid = λ x. ext.pod_spec.IsValid x.pod_spec × ext.job_spec.IsValid x.job_template;
    deep_copy_into = error_handler_into;
  }

  unfoldable pub copy_error_handler :
      Option (At (ErrorHandlerValue At here)) → ℕ → Option (At (ErrorHandlerValue At here)) × ℕ
  copy_error_handler = deep_copy error_handler_copies

  unfoldable pub flow_into : FlowValue At here → ℕ → FlowValue At here × ℕ
  flow_into x n =
      let job_template = ext.job_spec.deep_copy_into x.job_template n in
      let dependencies = copy_texts x.dependencies job_template.1 in
      let share_volume_mounts = copy_slice ext.volume_mount x.share_volume_mounts dependencies.1 in
      (
        record x {
          job_template = job_template.0;
          dependencies = dependencies.0;
          share_volume_mounts = share_volume_mounts.0;
        },
        share_volume_mounts.1,
      )

  abbrev pub flow_copies : Copies (FlowValue At here) (FlowValue Plain plain)
  flow_copies = record {
    content = λ x. record {
      name = x.name;
      job_template = ext.job_spec.content x.job_template;
      job_template_ref = x.job_template_ref;
      dependencies = texts_copies.content x.dependencies;
      share_volume_mounts = (slice_copies ext.volume_mount).content x.share_volume_mounts;
    };
    addresses = λ x.
        ext.job_spec.addresses x.job_template
        ++ (texts_copies.addresses x.dependencies
            ++ (slice_copies ext.volume_mount).addresses x.share_volume_mounts);
    IsValid = λ x.
        ext.job_spec.IsValid x.job_template
        × (texts_copies.IsValid x.dependencies
            × (slice_copies ext.volume_mount).IsValid x.share_volume_mounts);
    deep_copy_into = flow_into;
  }

  unfoldable pub copy_flow :
      Option (At (FlowValue At here)) → ℕ → Option (At (FlowValue At here)) × ℕ
  copy_flow = deep_copy flow_copies

  unfoldable pub global_params_into : GlobalParamsValue At here → ℕ → GlobalParamsValue At here × ℕ
  global_params_into x n =
      let env = copy_slice ext.env_var x.env n in
      let labels = copy_text_map x.labels env.1 in
      let annotations = copy_text_map x.annotations labels.1 in
      (record x { env = env.0; labels = labels.0; annotations = annotations.0 }, annotations.1)

  abbrev pub global_params_copies :
      Copies (GlobalParamsValue At here) (GlobalParamsValue Plain plain)
  global_params_copies = record {
    content = λ x. record {
      env = (slice_copies ext.env_var).content x.env;
      node_name = x.node_name;
      labels = text_map_copies.content x.labels;
      annotations = text_map_copies.content x.annotations;
    };
    addresses = λ x.
        (slice_copies ext.env_var).addresses x.env
        ++ (text_map_copies.addresses x.labels ++ text_map_copies.addresses x.annotations);
    IsValid = λ x.
        (slice_copies ext.env_var).IsValid x.env
        × (text_map_copies.IsValid x.labels × text_map_copies.IsValid x.annotations);
    deep_copy_into = global_params_into;
  }

  unfoldable pub copy_global_params :
      Option (At (GlobalParamsValue At here)) → ℕ → Option (At (GlobalParamsValue At here)) × ℕ
  copy_global_params = deep_copy global_params_copies

  unfoldable pub job_flow_spec_into : JobFlowSpecValue At here → ℕ → JobFlowSpecValue At here × ℕ
  job_flow_spec_into x n =
      let global_params = global_params_into x.global_params n in
      let flows = copy_slice flow_copies x.flows global_params.1 in
      let share_volumes = copy_slice ext.volume x.share_volumes flows.1 in
      let error_handler = error_handler_into x.error_handler share_volumes.1 in
      (
        record x {
          global_params = global_params.0;
          flows = flows.0;
          share_volumes = share_volumes.0;
          error_handler = error_handler.0;
        },
        error_handler.1,
      )

  abbrev pub job_flow_spec_copies : Copies (JobFlowSpecValue At here) (JobFlowSpecValue Plain plain)
  job_flow_spec_copies = record {
    content = λ x. record {
      global_params = global_params_copies.content x.global_params;
      flows = (slice_copies flow_copies).content x.flows;
      share_volumes = (slice_copies ext.volume).content x.share_volumes;
      error_handler = error_handler_copies.content x.error_handler;
    };
    addresses = λ x.
        global_params_copies.addresses x.global_params
        ++ ((slice_copies flow_copies).addresses x.flows
            ++ ((slice_copies ext.volume).addresses x.share_volumes
                ++ error_handler_copies.addresses x.error_handler));
    IsValid = λ x.
        global_params_copies.IsValid x.global_params
        × ((slice_copies flow_copies).IsValid x.flows
            × ((slice_copies ext.volume).IsValid x.share_volumes
                × error_handler_copies.IsValid x.error_handler));
    deep_copy_into = job_flow_spec_into;
  }

  unfoldable pub copy_job_flow_spec :
      Option (At (JobFlowSpecValue At here)) → ℕ → Option (At (JobFlowSpecValue At here)) × ℕ
  copy_job_flow_spec = deep_copy job_flow_spec_copies

  unfoldable pub job_flow_status_into :
      JobFlowStatusValue At here → ℕ → JobFlowStatusValue At here × ℕ
  job_flow_status_into x n =
      let job_status_list = copy_map ext.job_status x.job_status_list n in
      (record x { job_status_list = job_status_list.0 }, job_status_list.1)

  abbrev pub job_flow_status_copies :
      Copies (JobFlowStatusValue At here) (JobFlowStatusValue Plain plain)
  job_flow_status_copies = record {
    content = λ x. record {
      job_status_list = (map_copies ext.job_status).content x.job_status_list;
      state = x.state;
    };
    addresses = λ x. (map_copies ext.job_status).addresses x.job_status_list;
    IsValid = λ x. (map_copies ext.job_status).IsValid x.job_status_list;
    deep_copy_into = job_flow_status_into;
  }

  unfoldable pub copy_job_flow_status :
      Option (At (JobFlowStatusValue At here)) → ℕ → Option (At (JobFlowStatusValue At here)) × ℕ
  copy_job_flow_status = deep_copy job_flow_status_copies

  unfoldable pub job_flow_into : JobFlowValue At here → ℕ → JobFlowValue At here × ℕ
  job_flow_into x n =
      let metadata = ext.object_meta.deep_copy_into x.metadata n in
      let spec = job_flow_spec_into x.spec metadata.1 in
      let status = job_flow_status_into x.status spec.1 in
      (record x { metadata = metadata.0; spec = spec.0; status = status.0 }, status.1)

  abbrev pub job_flow_copies : Copies (JobFlowValue At here) (JobFlowValue Plain plain)
  job_flow_copies = record {
    content = λ x. record {
      type_meta = x.type_meta;
      metadata = ext.object_meta.content x.metadata;
      spec = job_flow_spec_copies.content x.spec;
      status = job_flow_status_copies.content x.status;
    };
    addresses = λ x.
        ext.object_meta.addresses x.metadata
        ++ (job_flow_spec_copies.addresses x.spec ++ job_flow_status_copies.addresses x.status);
    IsValid = λ x.
        ext.object_meta.IsValid x.metadata
        × (job_flow_spec_copies.IsValid x.spec × job_flow_status_copies.IsValid x.status);
    deep_copy_into = job_flow_into;
  }

  unfoldable pub copy_job_flow :
      Option (At (JobFlowValue At here)) → ℕ → Option (At (JobFlowValue At here)) × ℕ
  copy_job_flow = deep_copy job_flow_copies

  unfoldable pub copy_job_flow_object :
      Option (At (JobFlowValue At here)) → ℕ → Option (Option (At (JobFlowValue At here))) × ℕ
  copy_job_flow_object = deep_copy_object job_flow_copies

  unfoldable pub job_flow_list_into : JobFlowListValue At here → ℕ → JobFlowListValue At here × ℕ
  job_flow_list_into x n =
      let metadata = ext.list_meta.deep_copy_into x.metadata n in
      let items = copy_slice job_flow_copies x.items metadata.1 in
      (record x { metadata = metadata.0; items = items.0 }, items.1)

  abbrev pub job_flow_list_copies : Copies (JobFlowListValue At here) (JobFlowListValue Plain plain)
  job_flow_list_copies = record {
    content = λ x. record {
      type_meta = x.type_meta;
      metadata = ext.list_meta.content x.metadata;
      items = (slice_copies job_flow_copies).content x.items;
    };
    addresses =
        λ x. ext.list_meta.addresses x.metadata ++ (slice_copies job_flow_copies).addresses x.items;
    IsValid =
        λ x. ext.list_meta.IsValid x.metadata × (slice_copies job_flow_copies).IsValid x.items;
    deep_copy_into = job_flow_list_into;
  }

  unfoldable pub copy_job_flow_list :
      Option (At (JobFlowListValue At here)) → ℕ → Option (At (JobFlowListValue At here)) × ℕ
  copy_job_flow_list = deep_copy job_flow_list_copies

  unfoldable pub copy_job_flow_list_object :
      Option (At (JobFlowListValue At here))
      → ℕ
      → Option (Option (At (JobFlowListValue At here))) × ℕ
  copy_job_flow_list_object = deep_copy_object job_flow_list_copies
