-- ===== src/Clientset/Rest.antt =====
-- The interface of k8s.io/client-go/rest, as the generated clients use it. A chain of calls such as
-- `c.client.Get().Namespace(c.ns).Resource("jobflows")` is the record of what it was given; what
-- `Do(ctx)` and `Watch(ctx)` answer is a parameter.
use job_deploy_operator.Base.{ℕ, ◌*◌, ◌%◌, Text, Bool, List, [], Option, none, some}
use job_deploy_operator.Api.Kube.{Result}

pub record ListOptions : Type 0 where
  pub timeout_seconds : Option ℕ
  pub watch : Bool
  pub rest : Text

-- `VersionedParams`: the options of a list, or any other options, which nothing here reads.
pub data Params : Type 0 where
  no_params : Params
  other_params : Text → Params
  list_params : ListOptions → Params

pub data Body (A : Type 0) : Type 0 where
  no_body : Body A
  object : A → Body A
  delete_options : Text → Body A
  bytes : Text → Body A

pub data Verb : Type 0 where
  get_verb post_verb put_verb delete_verb : Verb
  patch_verb : Text → Verb

pub record Request (A : Type 0) : Type 0 where
  pub verb : Verb
  pub namespace : Text
  pub resource : Text
  pub name : Option Text
  pub subresources : List Text
  pub params : Params
  pub timeout : ℕ
  pub body : Body A

abbrev pub start : {A : Type 0} → Verb → Text → Text → Request A
start verb namespace resource = record {
  verb = verb;
  namespace = namespace;
  resource = resource;
  name = none;
  subresources = [];
  params = no_params;
  timeout = 0;
  body = no_body;
}

-- `time.Duration(*opts.TimeoutSeconds) * time.Second`, in nanoseconds, as a number of 64 bits; and
-- zero, if it is nil.
abbrev pub timeout_of : ListOptions → ℕ
timeout_of opts = elim opts.timeout_seconds [
  | none ↦ 0
  | some t ↦ t * 1000000000 % 18446744073709551616
]

-- `rest.Interface`: the answers to a request, for objects `A`, lists `L` and watches `W`.
pub record Rest (S A L W : Type 0) : Type 0 where
  pub into_object : Request A → S → Result A × S
  pub into_list : Request A → S → Result L × S
  pub error : Request A → S → Result (Unit {0}) × S
  pub watch : Request A → S → Result W × S
