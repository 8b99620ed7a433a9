-- ===== src/Tests/Samples.antt =====
-- The objects of pkg/controller/jobflow_controller_test.go and its neighbours, as records.
use job_deploy_operator.Base.{Text, codes, GoMap, List, [], ◌∷◌, Option, none, some}
use job_deploy_operator.Api.Kube.{ObjectMeta, EnvVar, JobSpec, JobStatus, Job, Node}
use job_deploy_operator.Api.JobFlow.{JobFlow, Flow}
use job_deploy_operator.Api.DaemonJob.{DaemonJob}
use job_deploy_operator.Api.JobTemplate.{JobTemplate}
use job_deploy_operator.Controller.Common.{get_job_name}
use job_deploy_operator.Controller.Flow.Prepare.{assemble_job}

abbrev pub meta : Text → ObjectMeta
meta name = record {
  name = name;
  namespace = codes "default";
  uid = codes "12345";
  labels = none;
  annotations = none;
  owner_references = [];
  deletion_timestamp = none;
}

abbrev pub one_container : JobSpec
one_container = record {
  template = record {
    labels = none;
    annotations = none;
    spec = record {
      volumes = none;
      containers =
          record {
            name = codes "test";
            env = none;
            volume_mounts = none;
            rest = codes "test-images";
          }
          ∷ [];
      restart_policy = codes "OnFailure";
      node_name = [];
      rest = [];
    };
    rest = [];
  };
  backoff_limit = none;
  rest = [];
}

abbrev key_value : Option (GoMap Text)
key_value = some ((codes "key", codes "value") ∷ [])

abbrev env : Option (List EnvVar)
env = some (record { name = codes "test"; rest = codes "test" } ∷ [])

abbrev pub flow_1 : Flow
flow_1 = record {
  name = codes "one";
  job_template = one_container;
  job_template_ref = [];
  dependencies = [];
  share_volume_mounts = none;
}

abbrev pub flow_2 : Flow
flow_2 = record flow_1 { name = codes "two"; dependencies = codes "one" ∷ [] }

-- A flow that names a template.
abbrev pub flow_3 : Flow
flow_3 = record flow_1 { name = codes "three"; job_template_ref = codes "tpl" }

abbrev pub sample_flow : JobFlow
sample_flow = record {
  type_meta = record { api_version = codes "api.practice.com/v1alpha1"; kind = codes "JobFlow" };
  metadata = meta (codes "jf");
  spec = record {
    global_params = record {
      env = env;
      node_name = [];
      labels = key_value;
      annotations = key_value;
    };
    flows = flow_1 ∷ flow_2 ∷ [];
    share_volumes = none;
    error_handler = record {
      pod_spec = one_container.template.spec;
      job_template = one_container;
      job_template_ref = [];
      script = [];
    };
  };
  status = record { job_status_list = []; state = [] };
}

-- The job of a flow, as it is prepared.
abbrev pub job_of : Flow → Job
job_of flow =
    assemble_job sample_flow flow (get_job_name (codes "jf") flow.name)
      (record { spec = flow.job_template; annotations = [] })

abbrev pub with_status : JobStatus → Job → Job
with_status s job = record job { status = s }

abbrev pub was_successful : JobStatus
was_successful = record { active = 0; succeeded = 1; failed = 0; rest = [] }

abbrev pub was_failing : JobStatus
was_failing = record { active = 0; succeeded = 0; failed = 1; rest = [] }

abbrev pub sample_daemon : DaemonJob
sample_daemon = record {
  type_meta = record { api_version = codes "api.practice.com/v1alpha1"; kind = codes "DaemonJob" };
  metadata = meta (codes "dj");
  spec = record {
    global_params = record {
      env = env;
      node_name = [];
      labels = key_value;
      annotations = key_value;
    };
    exclude_node_list = codes "n3, n4";
    job_spec = one_container;
  };
  status = record { job_status_list = []; state = [] };
}

abbrev pub node : Text → Node
node name = record { name = name }

abbrev pub four_nodes : List Node
four_nodes = node (codes "n1") ∷ node (codes "n2") ∷ node (codes "n3") ∷ node (codes "n4") ∷ []

abbrev pub sample_template : JobTemplate
sample_template = record {
  type_meta = record {
    api_version = codes "api.practice.com/v1alpha1";
    kind = codes "JobTemplate";
  };
  metadata = meta (codes "tpl");
  spec = record { job_template = one_container };
  status = record { dependency_list = [] };
}
