-- ===== src/Api/Kube.antt =====
-- The Kubernetes objects that pkg/ reads and writes (batch/v1, core/v1, meta/v1): the fields that
-- the code names, and for all others of an object one field `rest`, which the code only copies.
-- A slice or map that the code compares with nil is an `Option`, where `none` is nil.
use job_deploy_operator.Base.{ℕ, Text, GoMap, Bool, true, false, List, [], Option, none, some}

abbrev pub Slice {ℓ} : Type ℓ → Type ℓ
Slice A = Option (List A)

-- The elements of a slice; a nil slice has none.
abbrev pub items {ℓ} : {A : Type ℓ} → Slice A → List A
items none = []
items (some xs) = xs

pub record NamespacedName : Type 0 where
  pub namespace : Text
  pub name : Text

pub record TypeMeta : Type 0 where
  pub api_version : Text
  pub kind : Text

pub record OwnerReference : Type 0 where
  pub api_version : Text
  pub kind : Text
  pub name : Text
  pub uid : Text

pub record ObjectMeta : Type 0 where
  pub name : Text
  pub namespace : Text
  pub uid : Text
  pub labels : Option (GoMap Text)
  pub annotations : Option (GoMap Text)
  pub owner_references : List OwnerReference
  pub deletion_timestamp : Option ℕ

pub record EnvVar : Type 0 where
  pub name : Text
  pub rest : Text

pub record Volume : Type 0 where
  pub name : Text
  pub rest : Text

pub record VolumeMount : Type 0 where
  pub name : Text
  pub rest : Text

pub record Container : Type 0 where
  pub name : Text
  pub env : Slice EnvVar
  pub volume_mounts : Slice VolumeMount
  pub rest : Text

pub record PodSpec : Type 0 where
  pub volumes : Slice Volume
  pub containers : List Container
  pub restart_policy : Text
  pub node_name : Text
  pub rest : Text

pub record PodTemplate : Type 0 where
  pub labels : Option (GoMap Text)
  pub annotations : Option (GoMap Text)
  pub spec : PodSpec
  pub rest : Text

pub record JobSpec : Type 0 where
  pub template : PodTemplate
  pub backoff_limit : Option ℕ
  pub rest : Text

pub record JobStatus : Type 0 where
  pub active : ℕ
  pub succeeded : ℕ
  pub failed : ℕ
  pub rest : Text

pub record Job : Type 0 where
  pub metadata : ObjectMeta
  pub spec : JobSpec
  pub status : JobStatus

pub record Node : Type 0 where
  pub name : Text

-- `error` of the API machinery: what `IsNotFound`, `IsAlreadyExists` and `IsBadRequest` tell
-- apart, and the text of `Error()`.
pub data Reason : Type 0 where
  not_found already_exists bad_request other : Reason

pub record Error : Type 0 where
  pub reason : Reason
  pub message : Text

abbrev pub is_not_found : Error → Bool
is_not_found e = elim e.reason [ not_found ↦ true | _ ↦ false ]

abbrev pub is_already_exists : Error → Bool
is_already_exists e = elim e.reason [ already_exists ↦ true | _ ↦ false ]

abbrev pub is_bad_request : Error → Bool
is_bad_request e = elim e.reason [ bad_request ↦ true | _ ↦ false ]

abbrev pub new_bad_request : Text → Error
new_bad_request message = record { reason = bad_request; message = message }

-- What a Go function returns as `(value, err)`.
pub data Result {ℓ} (A : Type ℓ) : Type ℓ where
  ok : A → Result A
  err : Error → Result A

-- `reconcile.Request` of controller-runtime is a `NamespacedName`; `reconcile.Result` with the
-- error that `Reconcile` returns beside it. The delay is in seconds.
pub record Reconciled : Type 0 where
  pub requeue : Bool
  pub requeue_after : ℕ
  pub error : Option Error
