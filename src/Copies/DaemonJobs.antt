-- ===== src/Copies/DaemonJobs.antt =====
-- pkg/apis/daemonjob/v1alpha1/zz_generated.deepcopy.go: the deep copies of DaemonJobs and their parts.
pub mod Fields
use job_deploy_operator.Base.{ℕ, Text, GoMap, List, ◌++◌, Option}
use job_deploy_operator.Api.Kube.{TypeMeta}
use job_deploy_operator.Copies.{
  At, Plain, Copies, copy_slice, copy_map, deep_copy, deep_copy_object, slice_copies, map_copies,
  copy_texts, texts_copies, copy_text_map, text_map_copies,
}
use job_deploy_operator.Copies.External.{Objects, External}

pub record GlobalParamsValue (ref : Type 0 → Type 0) (o : Objects) : Type 0 where
  pub env : Option (ref (List o.env_var))
  pub node_name : Text
  pub labels : Option (ref (GoMap Text))
  pub annotations : Option (ref (GoMap Text))

pub record DaemonJobSpecValue (ref : Type 0 → Type 0) (o : Objects) : Type 0 where
  pub global_params : GlobalParamsValue ref o
  pub exclude_node_list : Text
  pub job_spec : o.job_spec

pub record DaemonJobStatusValue (ref : Type 0 → Type 0) (o : Objects) : Type 0 where
  pub job_status_list : Option (ref (GoMap o.job_status))
  pub state : Text

pub record DaemonJobValue (ref : Type 0 → Type 0) (o : Objects) : Type 0 where
  pub type_meta : TypeMeta
  pub metadata : o.object_meta
  pub spec : DaemonJobSpecValue ref o
  pub status : DaemonJobStatusValue ref o

pub record DaemonJobListValue (ref : Type 0 → Type 0) (o : Objects) : Type 0 where
  pub type_meta : TypeMeta
  pub metadata : o.list_meta
  pub items : Option (ref (List (DaemonJobValue ref o)))

module _ {here plain : Objects} (ext : External here plain) where
  unfoldable pub global_params_into : GlobalParamsValue At here → ℕ → GlobalParamsValue At here × ℕ
  global_params_into x n =
      let env = copy_slice ext.env_var x.env n in
      let labels = copy_text_map x.labels env.1 in
      let annotations = copy_text_map x.annotations labels.1 in
      (record x { env = env.0; labels = labels.0; annotations = annotations.0 }, annotations.1)

  abbrev pub global_params_copies :
      Copies (GlobalParamsValue At here) (GlobalParamsValue Plain plain)
  global_params_copies = record {
    content = λ x. record {
      env = (slice_copies ext.env_var).content x.env;
      node_name = x.node_name;
      labels = text_map_copies.content x.labels;
      annotations = text_map_copies.content x.annotations;
    };
    addresses = λ x.
        (slice_copies ext.env_var).addresses x.env
        ++ (text_map_copies.addresses x.labels ++ text_map_copies.addresses x.annotations);
    IsValid = λ x.
        (slice_copies ext.env_var).IsValid x.env
        × (text_map_copies.IsValid x.labels × text_map_copies.IsValid x.annotations);
    deep_copy_into = global_params_into;
  }

  unfoldable pub copy_global_params :
      Option (At (GlobalParamsValue At here)) → ℕ → Option (At (GlobalParamsValue At here)) × ℕ
  copy_global_params = deep_copy global_params_copies

  unfoldable pub daemon_job_spec_into :
      DaemonJobSpecValue At here → ℕ → DaemonJobSpecValue At here × ℕ
  daemon_job_spec_into x n =
      let global_params = global_params_into x.global_params n in
      let job_spec = ext.job_spec.deep_copy_into x.job_spec global_params.1 in
      (record x { global_params = global_params.0; job_spec = job_spec.0 }, job_spec.1)

  abbrev pub daemon_job_spec_copies :
      Copies (DaemonJobSpecValue At here) (DaemonJobSpecValue Plain plain)
  daemon_job_spec_copies = record {
    content = λ x. record {
      global_params = global_params_copies.content x.global_params;
      exclude_node_list = x.exclude_node_list;
      job_spec = ext.job_spec.content x.job_spec;
    };
    addresses =
        λ x. global_params_copies.addresses x.global_params ++ ext.job_spec.addresses x.job_spec;
    IsValid = λ x. global_params_copies.IsValid x.global_params × ext.job_spec.IsValid x.job_spec;
    deep_copy_into = daemon_job_spec_into;
  }

  unfoldable pub copy_daemon_job_spec :
      Option (At (DaemonJobSpecValue At here)) → ℕ → Option (At (DaemonJobSpecValue At here)) × ℕ
  copy_daemon_job_spec = deep_copy daemon_job_spec_copies

  unfoldable pub daemon_job_status_into :
      DaemonJobStatusValue At here → ℕ → DaemonJobStatusValue At here × ℕ
  daemon_job_status_into x n =
      let job_status_list = copy_map ext.job_status x.job_status_list n in
      (record x { job_status_list = job_status_list.0 }, job_status_list.1)

  abbrev pub daemon_job_status_copies :
      Copies (DaemonJobStatusValue At here) (DaemonJobStatusValue Plain plain)
  daemon_job_status_copies = record {
    content = λ x. record {
      job_status_list = (map_copies ext.job_status).content x.job_status_list;
      state = x.state;
    };
    addresses = λ x. (map_copies ext.job_status).addresses x.job_status_list;
    IsValid = λ x. (map_copies ext.job_status).IsValid x.job_status_list;
    deep_copy_into = daemon_job_status_into;
  }

  unfoldable pub copy_daemon_job_status :
      Option (At (DaemonJobStatusValue At here))
      → ℕ
      → Option (At (DaemonJobStatusValue At here)) × ℕ
  copy_daemon_job_status = deep_copy daemon_job_status_copies

  unfoldable pub daemon_job_into : DaemonJobValue At here → ℕ → DaemonJobValue At here × ℕ
  daemon_job_into x n =
      let metadata = ext.object_meta.deep_copy_into x.metadata n in
      let spec = daemon_job_spec_into x.spec metadata.1 in
      let status = daemon_job_status_into x.status spec.1 in
      (record x { metadata = metadata.0; spec = spec.0; status = status.0 }, status.1)

  abbrev pub daemon_job_copies : Copies (DaemonJobValue At here) (DaemonJobValue Plain plain)
  daemon_job_copies = record {
    content = λ x. record {
      type_meta = x.type_meta;
      metadata = ext.object_meta.content x.metadata;
      spec = daemon_job_spec_copies.content x.spec;
      status = daemon_job_status_copies.content x.status;
    };
    addresses = λ x.
        ext.object_meta.addresses x.metadata
        ++ (daemon_job_spec_copies.addresses x.spec ++ daemon_job_status_copies.addresses x.status);
    IsValid = λ x.
        ext.object_meta.IsValid x.metadata
        × (daemon_job_spec_copies.IsValid x.spec × daemon_job_status_copies.IsValid x.status);
    deep_copy_into = daemon_job_into;
  }

  unfoldable pub copy_daemon_job :
      Option (At (DaemonJobValue At here)) → ℕ → Option (At (DaemonJobValue At here)) × ℕ
  copy_daemon_job = deep_copy daemon_job_copies

  unfoldable pub copy_daemon_job_object :
      Option (At (DaemonJobValue At here)) → ℕ → Option (Option (At (DaemonJobValue At here))) × ℕ
  copy_daemon_job_object = deep_copy_object daemon_job_copies

  unfoldable pub daemon_job_list_into :
      DaemonJobListValue At here → ℕ → DaemonJobListValue At here × ℕ
  daemon_job_list_into x n =
      let metadata = ext.list_meta.deep_copy_into x.metadata n in
      let items = copy_slice daemon_job_copies x.items metadata.1 in
      (record x { metadata = metadata.0; items = items.0 }, items.1)

  abbrev pub daemon_job_list_copies :
      Copies (DaemonJobListValue At here) (DaemonJobListValue Plain plain)
  daemon_job_list_copies = record {
    content = λ x. record {
      type_meta = x.type_meta;
      metadata = ext.list_meta.content x.metadata;
      items = (slice_copies daemon_job_copies).content x.items;
    };
    addresses = λ x.
        ext.list_meta.addresses x.metadata ++ (slice_copies daemon_job_copies).addresses x.items;
    IsValid =
        λ x. ext.list_meta.IsValid x.metadata × (slice_copies daemon_job_copies).IsValid x.items;
    deep_copy_into = daemon_job_list_into;
  }

  unfoldable pub copy_daemon_job_list :
      Option (At (DaemonJobListValue At here)) → ℕ → Option (At (DaemonJobListValue At here)) × ℕ
  copy_daemon_job_list = deep_copy daemon_job_list_copies

  unfoldable pub copy_daemon_job_list_object :
      Option (At (DaemonJobListValue At here))
      → ℕ
      → Option (Option (At (DaemonJobListValue At here))) × ℕ
  copy_daemon_job_list_object = deep_copy_object daemon_job_list_copies
