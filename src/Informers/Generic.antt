-- ===== src/Informers/Generic.antt =====
-- pkg/client/informers/externalversions: generic.go, and `Api` of factory.go.
pub mod Found
use job_deploy_operator.Base.{
  Text, text_eq, text_beq_iff, codes, ◌≡◌, refl, ◌++◌, ◌&&◌, Bool, true, ◌==◌, if◌then◌else◌,
}
use job_deploy_operator.Api.Kube.{Error, other, Result, ok, err}
use job_deploy_operator.Api.Scheme.{Resource, GroupResource, with_resource, group_resource}
use job_deploy_operator.Api.JobFlow.{JobFlow, JobFlowList}
use job_deploy_operator.Api.JobFlow.Register.{scheme_group_version}
use job_deploy_operator.Clientset.JobFlows.{JobFlowInterface}
use job_deploy_operator.Listers.Indexer.{Indexer}
use job_deploy_operator.Informers.Cache.{Cache}
use job_deploy_operator.Informers.Factory.{SharedInformerFactory}
use job_deploy_operator.Informers.JobFlows.{Group, new_group, v1alpha1, job_flows, informer}

pub record GenericInformer (I : Type 0) : Type 0 where
  pub informer : I
  pub resource : GroupResource

-- `cache.NewGenericLister` of the indexer and the resource.
unfoldable pub generic_lister :
    {I A G : Type 0}
    → (new_generic_lister : Indexer A → GroupResource → G) → (I → Indexer A)
    → GenericInformer I
    → G
generic_lister new_generic_lister get_indexer f =
    new_generic_lister (get_indexer f.informer) f.resource

unfoldable pub api : {C I : Type 0} → SharedInformerFactory C I → Group
api f = new_group f.namespace f.tweak_list_options

-- The comparison of a `switch` on a resource.
abbrev pub same_resource : Resource → Resource → Bool
same_resource a b = a.group == b.group && (a.version == b.version && a.resource == b.resource)

module _ {S W I F C : Type 0} (cache : Cache S JobFlow JobFlowList W I F)
    (client_of : C → Text → JobFlowInterface S W) (show : Resource → Text) where
  abbrev pub no_informer : Resource → Error
  no_informer gvr = record { reason = other; message = codes "no informer found for " ++ show gvr }

  -- `show` is the text of `%v` for a resource.
  unfoldable pub for_resource :
      Resource
      → SharedInformerFactory C I × S
      → Result (GenericInformer I) × (SharedInformerFactory C I × S)
  unfolding api
  for_resource gvr w =
      let found = informer cache client_of (job_flows (v1alpha1 (api w.0))) w in
      if same_resource gvr (with_resource scheme_group_version (codes "jobflows"))
      then (ok (record { informer = found.0; resource = group_resource gvr }), found.1)
      else (err (no_informer gvr), w)
