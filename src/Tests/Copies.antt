-- ===== src/Tests/Copies.antt =====
-- A list of one JobFlow in memory, with two flows and a status; its Kubernetes objects are boxes.
use job_deploy_operator.Base.{ℕ, suc, Text, codes, refl, Option, none, some, [], ◌∷◌, lookup, arith}
use job_deploy_operator.Api.Kube.{TypeMeta}
use job_deploy_operator.Copies.{At, Copies}
use job_deploy_operator.Copies.Deep.{IsDeep}
use job_deploy_operator.Copies.External.{Objects, External, IsFaithful}
use job_deploy_operator.Copies.JobFlows.{
  FlowValue, JobFlowValue, JobFlowListValue, job_flow_list_copies, copy_job_flow_list_object,
}
use job_deploy_operator.Copies.DaemonJobs.{daemon_job_list_copies, copy_daemon_job_list_object}
use job_deploy_operator.Copies.JobTemplates.{
  JobTemplateListValue, job_template_list_copies, copy_job_template_list_object,
}
use job_deploy_operator.Copies.Independent.{IsCopyOf, object_lists_are_copied}

abbrev box : Copies (At Text) Text
box = record {
  content = λ x. x.value;
  addresses = λ x. x.address ∷ [];
  IsValid = λ x. Unit;
  deep_copy_into = λ x n. (record { address = n; value = x.value }, suc n);
}

box-IsDeep : IsDeep box
box-IsDeep x n valid = record {
  kept = refl;
  grows = omega arith;
  fresh = ((omega arith, omega arith), tt);
}

abbrev boxes : (B : Type 0) → Objects
boxes B = record {
  object_meta = B;
  list_meta = B;
  pod_spec = B;
  job_spec = B;
  job_status = B;
  env_var = B;
  volume = B;
  volume_mount = B;
}

abbrev boxed : External (boxes (At Text)) (boxes Text)
boxed = record {
  object_meta = box;
  list_meta = box;
  pod_spec = box;
  job_spec = box;
  job_status = box;
  env_var = box;
  volume = box;
  volume_mount = box;
}

boxed-IsFaithful : IsFaithful boxed
boxed-IsFaithful = record {
  object_meta = box-IsDeep;
  list_meta = box-IsDeep;
  pod_spec = box-IsDeep;
  job_spec = box-IsDeep;
  job_status = box-IsDeep;
  env_var = box-IsDeep;
  volume = box-IsDeep;
  volume_mount = box-IsDeep;
}

abbrev at : {A : Type 0} → ℕ → A → At A
at address value = record { address = address; value = value }

abbrev no_type : TypeMeta
no_type = record { api_version = []; kind = [] }

abbrev build : FlowValue At (boxes (At Text))
build = record {
  name = codes "build";
  job_template = at 1 (codes "spec");
  job_template_ref = [];
  dependencies = none;
  share_volume_mounts = some (at 2 []);
}

abbrev ship : FlowValue At (boxes (At Text))
ship = record {
  name = codes "ship";
  job_template = at 3 (codes "spec");
  job_template_ref = [];
  dependencies = some (at 4 (codes "build" ∷ []));
  share_volume_mounts = some (at 5 (at 6 (codes "mount") ∷ []));
}

abbrev release : JobFlowValue At (boxes (At Text))
release = record {
  type_meta = no_type;
  metadata = at 7 (codes "release");
  spec = record {
    global_params = record {
      env = some (at 8 (at 9 (codes "env") ∷ []));
      node_name = [];
      labels = some (at 10 ((codes "app", codes "x") ∷ []));
      annotations = none;
    };
    flows = some (at 11 (build ∷ ship ∷ []));
    share_volumes = none;
    error_handler = record {
      pod_spec = at 12 (codes "pod");
      job_template = at 13 (codes "spec");
      job_template_ref = [];
      script = codes "exit";
    };
  };
  status = record {
    job_status_list = some (at 14 ((codes "a", at 15 (codes "done")) ∷ []));
    state = codes "Running";
  };
}

abbrev releases : Option (At (JobFlowListValue At (boxes (At Text))))
releases = some (
    at 16
      (record { type_meta = no_type; metadata = at 17 []; items = some (at 18 (release ∷ [])) }))

abbrev templates : Option (At (JobTemplateListValue At (boxes (At Text))))
templates = some (
    at 19 (record {
      type_meta = no_type;
      metadata = at 20 [];
      items = some (
          at 21 (
            record {
              type_meta = no_type;
              metadata = at 22 [];
              spec = record { job_template = at 23 (codes "spec") };
              status = record { dependency_list = some (at 24 (codes "job" ∷ [])) };
            }
            ∷ []));
    }))

object_lists_are_copied_example :
    IsCopyOf (job_flow_list_copies boxed) releases (copy_job_flow_list_object boxed releases 25).0
    × IsCopyOf (daemon_job_list_copies boxed) none (copy_daemon_job_list_object boxed none 25).0
    × IsCopyOf
        (job_template_list_copies boxed)
        templates
        (copy_job_template_list_object boxed templates 25).0
object_lists_are_copied_example =
    object_lists_are_copied boxed 25 releases none templates boxed-IsFaithful
      (unfold lookup in ground arith) tt (ground arith) (ground arith) tt (ground arith)
