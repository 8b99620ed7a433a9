-- ===== src/Clientset/Schemes.antt =====
-- pkg/client/clientset/versioned/scheme/register.go and, with the same text,
-- pkg/client/clientset/versioned/fake/register.go: the schemes of the clientset and of its fake.
pub mod Known
use job_deploy_operator.Base.{codes, List, [], ◌∷◌, Option, none, some}
use job_deploy_operator.Api.Kube.{Result, ok, err}
use job_deploy_operator.Api.Scheme.{GroupVersion, Scheme}
use job_deploy_operator.Api.JobFlow.Register.{add_known_types}

-- `SchemeBuilder.AddToScheme` of apimachinery: it calls the functions in order, up to an error.
abbrev pub apply_each : {S : Type 0} → List (S → Result (Unit {0}) × S) → S → Result (Unit {0}) × S
apply_each [] s = (ok tt, s)
apply_each (f ∷ fs) s =
    let applied = f s in
    elim applied.0 [ ok u ↦ apply_each fs applied.1 | err e ↦ (err e, applied.1) ]

abbrev pub v1 : GroupVersion
v1 = record { group = []; version = codes "v1" }

module _ {S : Type 0} (scheme : Scheme S) where
  -- `apiv1alpha1.AddToScheme` is the builder of pkg/apis/jobflow, with its one function.
  unfoldable pub local_scheme_builder : List (S → Result (Unit {0}) × S)
  local_scheme_builder = apply_each (add_known_types scheme ∷ []) ∷ []

  unfoldable pub add_to_scheme : S → Result (Unit {0}) × S
  unfolding local_scheme_builder
  add_to_scheme = apply_each local_scheme_builder

  -- `none` is a panic.
  unfoldable pub init : S → Option S
  unfolding add_to_scheme
  init s =
      let added = add_to_scheme (scheme.add_to_group_version v1 s) in
      elim added.0 [ ok u ↦ some added.1 | err e ↦ none ]
