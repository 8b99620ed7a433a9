-- ===== src/Controller/Common.antt =====
-- pkg/common/common.go, and the names and texts that the controllers share.
pub mod Names
use job_deploy_operator.Base.{Text, codes, ◌++◌}

-- `CreateByJobTemplate`, the annotation's key.
unfoldable pub create_by_job_template : Text
create_by_job_template = codes "createByJobTemplate"

unfoldable pub get_connection_of_job_and_job_template : Text → Text → Text
get_connection_of_job_and_job_template namespace name = namespace ++ codes "." ++ name

-- `getJobName` of pkg/controller/helper.go.
unfoldable pub get_job_name : Text → Text → Text
get_job_name job_flow_name job_template_name = job_flow_name ++ codes "-" ++ job_template_name

-- The key of a job in `JobStatusList`: `fmt.Sprintf("%s/%s", job.Name, job.Namespace)`.
unfoldable pub status_key : Text → Text → Text
status_key name namespace = name ++ codes "/" ++ namespace

-- `v1.RestartPolicyNever`
unfoldable pub restart_policy_never : Text
restart_policy_never = codes "Never"
