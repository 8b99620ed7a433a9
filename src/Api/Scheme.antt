-- ===== src/Api/Scheme.antt =====
-- k8s.io/apimachinery/pkg/runtime and runtime/schema, as the sources use them: the names of kinds
-- and resources, and a scheme, which records the types of a group and version.
use job_deploy_operator.Base.{Text, List}

pub record GroupVersion : Type 0 where
  pub group : Text
  pub version : Text

pub record GroupKind : Type 0 where
  pub group : Text
  pub kind : Text

pub record GroupResource : Type 0 where
  pub group : Text
  pub resource : Text

-- `schema.GroupVersionResource` and `schema.GroupVersionKind`.
pub record Resource : Type 0 where
  pub group : Text
  pub version : Text
  pub resource : Text

pub record Kind : Type 0 where
  pub group : Text
  pub version : Text
  pub kind : Text

abbrev pub with_kind : GroupVersion → Text → Kind
with_kind gv kind = record { group = gv.group; version = gv.version; kind = kind }

abbrev pub with_resource : GroupVersion → Text → Resource
with_resource gv resource = record { group = gv.group; version = gv.version; resource = resource }

abbrev pub group_kind : Kind → GroupKind
group_kind gvk = record { group = gvk.group; kind = gvk.kind }

abbrev pub group_resource : Resource → GroupResource
group_resource gvr = record { group = gvr.group; resource = gvr.resource }

-- `*runtime.Scheme` with `metav1.AddToGroupVersion`: what they make of the state `S` of the scheme.
-- A type is given by the text of its package and name.
pub record Scheme (S : Type 0) : Type 0 where
  pub add_known_types : GroupVersion → List Text → S → S
  pub add_to_group_version : GroupVersion → S → S
