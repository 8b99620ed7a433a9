-- ===== src/Api/JobFlow.antt =====
-- pkg/apis/jobflow/v1alpha1: types.go and the constants of register.go.
pub mod Register
use job_deploy_operator.Base.{Text, codes, GoMap, List, Option}
use job_deploy_operator.Api.Kube.{
  Slice, TypeMeta, ObjectMeta, EnvVar, Volume, VolumeMount, PodSpec, JobSpec, JobStatus,
}

pub record GlobalParams : Type 0 where
  pub env : Slice EnvVar
  pub node_name : Text
  pub labels : Option (GoMap Text)
  pub annotations : Option (GoMap Text)

pub record ErrorHandler : Type 0 where
  pub pod_spec : PodSpec
  pub job_template : JobSpec
  pub job_template_ref : Text
  pub script : Text

pub record Flow : Type 0 where
  pub name : Text
  pub job_template : JobSpec
  pub job_template_ref : Text
  pub dependencies : List Text
  pub share_volume_mounts : Slice VolumeMount

pub record JobFlowSpec : Type 0 where
  pub global_params : GlobalParams
  pub flows : List Flow
  pub share_volumes : Slice Volume
  pub error_handler : ErrorHandler

pub record JobFlowStatus : Type 0 where
  pub job_status_list : GoMap JobStatus
  pub state : Text

pub record JobFlow : Type 0 where
  pub type_meta : TypeMeta
  pub metadata : ObjectMeta
  pub spec : JobFlowSpec
  pub status : JobFlowStatus

pub record JobFlowList : Type 0 where
  pub type_meta : TypeMeta
  -- `metav1.ListMeta`, which nothing here reads.
  pub list_meta : Text
  pub items : List JobFlow

unfoldable pub succeed : Text
succeed = codes "Succeed"

unfoldable pub terminating : Text
terminating = codes "Terminating"

unfoldable pub failed : Text
failed = codes "Failed"

unfoldable pub running : Text
running = codes "Running"

unfoldable pub pending : Text
pending = codes "Pending"

unfoldable pub job_flow_group : Text
job_flow_group = codes "api.practice.com"

unfoldable pub job_flow_version : Text
job_flow_version = codes "v1alpha1"

unfoldable pub job_flow_kind : Text
job_flow_kind = codes "JobFlow"

unfoldable pub job_flow_api_version : Text
job_flow_api_version = codes "api.practice.com/v1alpha1"
