-- ===== src/Copies/JobFlows/Values.antt =====
-- The values of pkg/apis/jobflow/v1alpha1/types.go, with their references.
use job_deploy_operator.Base.{Text, GoMap, List, Option}
use job_deploy_operator.Api.Kube.{TypeMeta}
use job_deploy_operator.Copies.External.{Objects}

pub record ErrorHandlerValue (ref : Type 0 → Type 0) (o : Objects) : Type 0 where
  pub pod_spec : o.pod_spec
  pub job_template : o.job_spec
  pub job_template_ref : Text
  pub script : Text

pub record FlowValue (ref : Type 0 → Type 0) (o : Objects) : Type 0 where
  pub name : Text
  pub job_template : o.job_spec
  pub job_template_ref : Text
  pub dependencies : Option (ref (List Text))
  pub share_volume_mounts : Option (ref (List o.volume_mount))

pub record GlobalParamsValue (ref : Type 0 → Type 0) (o : Objects) : Type 0 where
  pub env : Option (ref (List o.env_var))
  pub node_name : Text
  pub labels : Option (ref (GoMap Text))
  pub annotations : Option (ref (GoMap Text))

pub record JobFlowSpecValue (ref : Type 0 → Type 0) (o : Objects) : Type 0 where
  pub global_params : GlobalParamsValue ref o
  pub flows : Option (ref (List (FlowValue ref o)))
  pub share_volumes : Option (ref (List o.volume))
  pub error_handler : ErrorHandlerValue ref o

pub record JobFlowStatusValue (ref : Type 0 → Type 0) (o : Objects) : Type 0 where
  pub job_status_list : Option (ref (GoMap o.job_status))
  pub state : Text

pub record JobFlowValue (ref : Type 0 → Type 0) (o : Objects) : Type 0 where
  pub type_meta : TypeMeta
  pub metadata : o.object_meta
  pub spec : JobFlowSpecValue ref o
  pub status : JobFlowStatusValue ref o

pub record JobFlowListValue (ref : Type 0 → Type 0) (o : Objects) : Type 0 where
  pub type_meta : TypeMeta
  pub metadata : o.list_meta
  pub items : Option (ref (List (JobFlowValue ref o)))
