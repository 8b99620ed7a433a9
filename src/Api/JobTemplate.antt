-- ===== src/Api/JobTemplate.antt =====
-- pkg/apis/jobTemplate/v1alpha1: types.go and the constants of register.go.
pub mod Register
use job_deploy_operator.Base.{Text, codes, List}
use job_deploy_operator.Api.Kube.{TypeMeta, ObjectMeta, JobSpec}

pub record JobTemplateSpec : Type 0 where
  pub job_template : JobSpec

pub record JobTemplateStatus : Type 0 where
  pub dependency_list : List Text

pub record JobTemplate : Type 0 where
  pub type_meta : TypeMeta
  pub metadata : ObjectMeta
  pub spec : JobTemplateSpec
  pub status : JobTemplateStatus

pub record JobTemplateList : Type 0 where
  pub type_meta : TypeMeta
  -- `metav1.ListMeta`, which nothing here reads.
  pub list_meta : Text
  pub items : List JobTemplate

unfoldable pub job_template_group : Text
job_template_group = codes "api.practice.com"

unfoldable pub job_template_version : Text
job_template_version = codes "v1alpha1"

unfoldable pub job_template_kind : Text
job_template_kind = codes "JobTemplate"

unfoldable pub job_template_api_version : Text
job_template_api_version = codes "api.practice.com/v1alpha1"
