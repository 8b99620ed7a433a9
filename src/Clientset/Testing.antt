-- ===== src/Clientset/Testing.antt =====
-- The interface of k8s.io/client-go/testing, as the generated fakes use it. An action is what its
-- constructor was given; what `Invokes` answers is a parameter. The default object that `Invokes`
-- is given is the empty object of the type, and so is left out.
use job_deploy_operator.Base.{Text, GoMap, Bool, List, Option, none, some}
use job_deploy_operator.Api.Kube.{Error, Result, ok, err}
use job_deploy_operator.Clientset.Rest.{ListOptions}
pub use job_deploy_operator.Api.Scheme.{Resource, Kind}

pub data TestAction (A : Type 0) : Type 0 where
  get_action : Resource → (ns name : Text) → TestAction A
  list_action : Resource → Kind → (ns : Text) → ListOptions → TestAction A
  watch_action : Resource → (ns : Text) → ListOptions → TestAction A
  create_action : Resource → (ns : Text) → A → TestAction A
  update_action : Resource → (ns : Text) → A → TestAction A
  update_subresource_action : Resource → (subresource ns : Text) → A → TestAction A
  delete_action : Resource → (ns name : Text) → TestAction A
  delete_collection_action : Resource → (ns : Text) → ListOptions → TestAction A
  patch_action : Resource → (ns name pt content : Text) → (subresources : List Text) → TestAction A

-- A label selector, by its method `Matches`.
abbrev pub Selector : Type 0
Selector = Option (GoMap Text) → Bool

-- `testing.Fake`, and the functions on label selectors.
pub record Fake (S A L W : Type 0) : Type 0 where
  pub invokes : TestAction A → S → (Option A × Option Error) × S
  pub invokes_list : TestAction A → S → (Option L × Option Error) × S
  pub invokes_watch : TestAction A → S → Result W × S
  pub label_of : ListOptions → Option Selector
  pub everything : Selector

-- `if obj == nil { return nil, err }; return obj.(*T), err`
abbrev pub returned : {S A : Type 0} → (Option A × Option Error) × S → (Option A × Option Error) × S
returned ((none, e), s) = ((none, e), s)
returned ((some a, e), s) = ((some a, e), s)

-- The same for a list, which is made anew from the one that came back.
abbrev pub with_list :
    {S L : Type 0} → (L → L) → (Option L × Option Error) × S → (Option L × Option Error) × S
with_list f ((none, e), s) = ((none, e), s)
with_list f ((some l, e), s) = ((some (f l), e), s)

-- `return err`
abbrev pub error_of : {S A : Type 0} → (Option A × Option Error) × S → Result (Unit {0}) × S
error_of ((a, none), s) = (ok tt, s)
error_of ((a, some e), s) = (err e, s)
