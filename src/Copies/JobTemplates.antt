-- ===== src/Copies/JobTemplates.antt =====
-- pkg/apis/jobTemplate/v1alpha1/zz_generated.deepcopy.go: the deep copies of JobTemplates and their
-- parts.
pub mod Fields
use job_deploy_operator.Base.{ℕ, Text, GoMap, List, ◌++◌, Option}
use job_deploy_operator.Api.Kube.{TypeMeta}
use job_deploy_operator.Copies.{
  At, Plain, Copies, copy_slice, copy_map, deep_copy, deep_copy_object, slice_copies, map_copies,
  copy_texts, texts_copies, copy_text_map, text_map_copies,
}
use job_deploy_operator.Copies.External.{Objects, External}

pub record JobTemplateSpecValue (ref : Type 0 → Type 0) (o : Objects) : Type 0 where
  pub job_template : o.job_spec

pub record JobTemplateStatusValue (ref : Type 0 → Type 0) (o : Objects) : Type 0 where
  pub dependency_list : Option (ref (List Text))

pub record JobTemplateValue (ref : Type 0 → Type 0) (o : Objects) : Type 0 where
  pub type_meta : TypeMeta
  pub metadata : o.object_meta
  pub spec : JobTemplateSpecValue ref o
  pub status : JobTemplateStatusValue ref o

pub record JobTemplateListValue (ref : Type 0 → Type 0) (o : Objects) : Type 0 where
  pub type_meta : TypeMeta
  pub metadata : o.list_meta
  pub items : Option (ref (List (JobTemplateValue ref o)))

module _ {here plain : Objects} (ext : External here plain) where
  unfoldable pub job_template_spec_into :
      JobTemplateSpecValue At here → ℕ → JobTemplateSpecValue At here × ℕ
  job_template_spec_into x n =
      let job_template = ext.job_spec.deep_copy_into x.job_template n in
      (record x { job_template = job_template.0 }, job_template.1)

  abbrev pub job_template_spec_copies :
      Copies (JobTemplateSpecValue At here) (JobTemplateSpecValue Plain plain)
  job_template_spec_copies = record {
    content = λ x. record { job_template = ext.job_spec.content x.job_template };
    addresses = λ x. ext.job_spec.addresses x.job_template;
    IsValid = λ x. ext.job_spec.IsValid x.job_template;
    deep_copy_into = job_template_spec_into;
  }

  unfoldable pub copy_job_template_spec :
      Option (At (JobTemplateSpecValue At here))
      → ℕ
      → Option (At (JobTemplateSpecValue At here)) × ℕ
  copy_job_template_spec = deep_copy job_template_spec_copies

  unfoldable pub job_template_status_into :
      JobTemplateStatusValue At here → ℕ → JobTemplateStatusValue At here × ℕ
  job_template_status_into x n =
      let dependency_list = copy_texts x.dependency_list n in
      (record x { dependency_list = dependency_list.0 }, dependency_list.1)

  abbrev pub job_template_status_copies :
      Copies (JobTemplateStatusValue At here) (JobTemplateStatusValue Plain plain)
  job_template_status_copies = record {
    content = λ x. record { dependency_list = texts_copies.content x.dependency_list };
    addresses = λ x. texts_copies.addresses x.dependency_list;
    IsValid = λ x. texts_copies.IsValid x.dependency_list;
    deep_copy_into = job_template_status_into;
  }

  unfoldable pub copy_job_template_status :
      Option (At (JobTemplateStatusValue At here))
      → ℕ
      → Option (At (JobTemplateStatusValue At here)) × ℕ
  copy_job_template_status = deep_copy job_template_status_copies

  unfoldable pub job_template_into : JobTemplateValue At here → ℕ → JobTemplateValue At here × ℕ
  job_template_into x n =
      let metadata = ext.object_meta.deep_copy_into x.metadata n in
      let spec = job_template_spec_into x.spec metadata.1 in
      let status = job_template_status_into x.status spec.1 in
      (record x { metadata = metadata.0; spec = spec.0; status = status.0 }, status.1)

  abbrev pub job_template_copies : Copies (JobTemplateValue At here) (JobTemplateValue Plain plain)
  job_template_copies = record {
    content = λ x. record {
      type_meta = x.type_meta;
      metadata = ext.object_meta.content x.metadata;
      spec = job_template_spec_copies.content x.spec;
      status = job_template_status_copies.content x.status;
    };
    addresses = λ x.
        ext.object_meta.addresses x.metadata
        ++ (job_template_spec_copies.addresses x.spec
            ++ job_template_status_copies.addresses x.status);
    IsValid = λ x.
        ext.object_meta.IsValid x.metadata
        × (job_template_spec_copies.IsValid x.spec × job_template_status_copies.IsValid x.status);
    deep_copy_into = job_template_into;
  }

  unfoldable pub copy_job_template :
      Option (At (JobTemplateValue At here)) → ℕ → Option (At (JobTemplateValue At here)) × ℕ
  copy_job_template = deep_copy job_template_copies

  unfoldable pub copy_job_template_object :
      Option (At (JobTemplateValue At here))
      → ℕ
      → Option (Option (At (JobTemplateValue At here))) × ℕ
  copy_job_template_object = deep_copy_object job_template_copies

  unfoldable pub job_template_list_into :
      JobTemplateListValue At here → ℕ → JobTemplateListValue At here × ℕ
  job_template_list_into x n =
      let metadata = ext.list_meta.deep_copy_into x.metadata n in
      let items = copy_slice job_template_copies x.items metadata.1 in
      (record x { metadata = metadata.0; items = items.0 }, items.1)

  abbrev pub job_template_list_copies :
      Copies (JobTemplateListValue At here) (JobTemplateListValue Plain plain)
  job_template_list_copies = record {
    content = λ x. record {
      type_meta = x.type_meta;
      metadata = ext.list_meta.content x.metadata;
      items = (slice_copies job_template_copies).content x.items;
    };
    addresses = λ x.
        ext.list_meta.addresses x.metadata ++ (slice_copies job_template_copies).addresses x.items;
    IsValid =
        λ x. ext.list_meta.IsValid x.metadata × (slice_copies job_template_copies).IsValid x.items;
    deep_copy_into = job_template_list_into;
  }

  unfoldable pub copy_job_template_list :
      Option (At (JobTemplateListValue At here))
      → ℕ
      → Option (At (JobTemplateListValue At here)) × ℕ
  copy_job_template_list = deep_copy job_template_list_copies

  unfoldable pub copy_job_template_list_object :
      Option (At (JobTemplateListValue At here))
      → ℕ
      → Option (Option (At (JobTemplateListValue At here))) × ℕ
  copy_job_template_list_object = deep_copy_object job_template_list_copies
