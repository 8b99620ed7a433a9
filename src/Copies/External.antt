-- ===== src/Copies/External.antt =====
-- The deep copies of the Kubernetes types, which the generated ones call: parameters.
use job_deploy_operator.Copies.{Copies}
use job_deploy_operator.Copies.Deep.{IsDeep}

pub record Objects : Type 1 where
  pub object_meta : Type 0
  pub list_meta : Type 0
  pub pod_spec : Type 0
  pub job_spec : Type 0
  pub job_status : Type 0
  pub env_var : Type 0
  pub volume : Type 0
  pub volume_mount : Type 0

-- The objects in memory, and what they say.
pub record External (here plain : Objects) : Type 1 where
  pub object_meta : Copies here.object_meta plain.object_meta
  pub list_meta : Copies here.list_meta plain.list_meta
  pub pod_spec : Copies here.pod_spec plain.pod_spec
  pub job_spec : Copies here.job_spec plain.job_spec
  pub job_status : Copies here.job_status plain.job_status
  pub env_var : Copies here.env_var plain.env_var
  pub volume : Copies here.volume plain.volume
  pub volume_mount : Copies here.volume_mount plain.volume_mount

-- Their copies are deep.
pub record IsFaithful {here plain : Objects} (ext : External here plain) : Type 0 where
  pub object_meta : IsDeep ext.object_meta
  pub list_meta : IsDeep ext.list_meta
  pub pod_spec : IsDeep ext.pod_spec
  pub job_spec : IsDeep ext.job_spec
  pub job_status : IsDeep ext.job_status
  pub env_var : IsDeep ext.env_var
  pub volume : IsDeep ext.volume
  pub volume_mount : IsDeep ext.volume_mount
