-- ===== src/Api/DaemonJob.antt =====
-- pkg/apis/daemonjob/v1alpha1: types.go and the constants of register.go.
pub mod Register
use job_deploy_operator.Base.{Text, codes, GoMap, List, Option}
use job_deploy_operator.Api.Kube.{Slice, TypeMeta, ObjectMeta, EnvVar, JobSpec, JobStatus}

pub record GlobalParams : Type 0 where
  pub env : Slice EnvVar
  pub node_name : Text
  pub labels : Option (GoMap Text)
  pub annotations : Option (GoMap Text)

-- The embedded `v1.JobSpec` is the field `job_spec`.
pub record DaemonJobSpec : Type 0 where
  pub global_params : GlobalParams
  pub exclude_node_list : Text
  pub job_spec : JobSpec

pub record DaemonJobStatus : Type 0 where
  pub job_status_list : GoMap JobStatus
  pub state : Text

pub record DaemonJob : Type 0 where
  pub type_meta : TypeMeta
  pub metadata : ObjectMeta
  pub spec : DaemonJobSpec
  pub status : DaemonJobStatus

pub record DaemonJobList : Type 0 where
  pub type_meta : TypeMeta
  -- `metav1.ListMeta`, which nothing here reads.
  pub list_meta : Text
  pub items : List DaemonJob

unfoldable pub succeed : Text
succeed = codes "Succeed"

unfoldable pub terminating : Text
terminating = codes "Terminating"

unfoldable pub failed : Text
failed = codes "Failed"

unfoldable pub running : Text
running = codes "Running"

unfoldable pub pending : Text
pending = codes "Pending"

unfoldable pub daemon_job_group : Text
daemon_job_group = codes "api.practice.com"

unfoldable pub daemon_job_version : Text
daemon_job_version = codes "v1alpha1"

unfoldable pub daemon_job_kind : Text
daemon_job_kind = codes "DaemonJob"

unfoldable pub daemon_job_api_version : Text
daemon_job_api_version = codes "api.practice.com/v1alpha1"
