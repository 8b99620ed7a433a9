-- ===== src/Program.antt =====
-- main.go: which handlers the three controllers register for the events of jobs, and
-- pkg/k8sconfig/init_k8s_config.go with `GetWd` of pkg/common/common.go: from where the
-- configuration comes.
pub mod Wakes
pub mod Main
use job_deploy_operator.Base.{
  Text, codes, text_eq, List, [], ◌++◌, Bool, true, Option, none, some, ◌==◌, if◌then◌else◌,
}
use job_deploy_operator.Api.Kube.{NamespacedName, Job, Result, ok, err}
use job_deploy_operator.Controller.Flow.Watch.{on_update_job, on_delete_job}
use job_deploy_operator.Controller.Daemon.Watch.{on_update_job_daemon, on_delete_job_daemon}
use job_deploy_operator.Controller.Template.Watch.{on_job_create, on_job_update, on_job_delete}

pub data JobEvent : Type 0 where
  job_created job_deleted : Job → JobEvent
  job_updated : (object_old object_new : Job) → JobEvent

-- A nil function of `handler.Funcs` adds nothing.
unfoldable pub job_flow_requests : JobEvent → List NamespacedName
unfolding on_update_job on_delete_job
job_flow_requests (job_created object) = []
job_flow_requests (job_updated object_old object_new) = on_update_job object_old object_new
job_flow_requests (job_deleted object) = on_delete_job object

unfoldable pub daemon_job_requests : JobEvent → List NamespacedName
unfolding on_update_job_daemon on_delete_job_daemon
daemon_job_requests (job_created object) = []
daemon_job_requests (job_updated object_old object_new) = on_update_job_daemon object_old object_new
daemon_job_requests (job_deleted object) = on_delete_job_daemon object

unfoldable pub job_template_requests : JobEvent → Option (List NamespacedName)
unfolding on_job_create on_job_update on_job_delete
job_template_requests (job_created object) = on_job_create object
job_template_requests (job_updated object_old object_new) = on_job_update object_old object_new
job_template_requests (job_deleted object) = on_job_delete object

-- The environment variable WORK_DIR, and the working directory where it is not set; the error of
-- `os.Getwd` is dropped, and its text is then what `Getwd` returned with it.
unfoldable pub get_wd : (work_dir getwd : Text) → Text
get_wd work_dir getwd = if work_dir == [] then getwd else work_dir

-- The two calls of client-go that return a configuration `C`, and its field `Insecure`.
pub record ConfigSource (C : Type 0) : Type 0 where
  pub build_config_from_flags : (master path : Text) → Result C
  pub in_cluster_config : Result C
  pub with_insecure : Bool → C → C

abbrev pub or_fatal : {C : Type 0} → Result C → Option C
or_fatal (ok c) = some c
or_fatal (err e) = none

-- `none` is the end of the program by `klog.Fatal`.
unfoldable pub k8s_rest_config_in_pod : {C : Type 0} → ConfigSource C → Option C
k8s_rest_config_in_pod source = or_fatal source.in_cluster_config

unfoldable pub k8s_rest_config_or_die :
    {C : Type 0} → ConfigSource C → (release work_dir getwd : Text) → Option C
unfolding get_wd k8s_rest_config_in_pod
k8s_rest_config_or_die source release work_dir getwd =
    if release == codes "1"
    then k8s_rest_config_in_pod source
    else elim (source.build_config_from_flags []
        (get_wd work_dir getwd ++ codes "/resources/config")) [
          | ok c ↦ some (source.with_insecure true c)
          | err e ↦ none
        ]
