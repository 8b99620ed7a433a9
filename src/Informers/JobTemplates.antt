-- ===== src/Informers/JobTemplates.antt =====
-- pkg/client/informers/externalversions/jobTemplate: interface.go, v1alpha1/interface.go and
-- v1alpha1/jobtemplate.go. `job_templates` is the method `ApiV1alpha1().JobTemplates(namespace)` of a client. The factory,
-- which the source holds by reference, is passed on with the state of the process.
-- The source calls `JobTemplates` on a client interface that lacks this method; here it is that of the
-- generated client.
use job_deploy_operator.Base.{ℕ, Text, [], ◌∷◌, Option, none}
use job_deploy_operator.Api.JobTemplate.{JobTemplate, JobTemplateList}
use job_deploy_operator.Api.JobTemplate.Register.{job_template_type}
use job_deploy_operator.Clientset.JobTemplates.{JobTemplateInterface}
use job_deploy_operator.Listers.JobTemplates.{JobTemplateLister, new_job_template_lister}
use job_deploy_operator.Informers.Cache.{ListWatch, Indexers, Cache, TweakListOptionsFunc, tweaked}
use job_deploy_operator.Informers.Factory.{SharedInformerFactory, NewInformerFunc, informer_for}

pub record JobTemplateInformer : Type 0 where
  pub tweak_list_options : Option TweakListOptionsFunc
  pub namespace : Text

pub record Version : Type 0 where
  pub namespace : Text
  pub tweak_list_options : Option TweakListOptionsFunc

abbrev pub new_version : Text → Option TweakListOptionsFunc → Version
new_version namespace tweak = record { namespace = namespace; tweak_list_options = tweak }

abbrev pub job_templates : Version → JobTemplateInformer
job_templates v = record { tweak_list_options = v.tweak_list_options; namespace = v.namespace }

pub record Group : Type 0 where
  pub namespace : Text
  pub tweak_list_options : Option TweakListOptionsFunc

abbrev pub new_group : Text → Option TweakListOptionsFunc → Group
new_group namespace tweak = record { namespace = namespace; tweak_list_options = tweak }

abbrev pub v1alpha1 : Group → Version
v1alpha1 g = new_version g.namespace g.tweak_list_options

module _ {S W I F C : Type 0} (cache : Cache S JobTemplate JobTemplateList W I F)
    (client_of : C → Text → JobTemplateInterface S W) where
  -- What the informer lists and watches.
  unfoldable pub list_watch : C → Text → Option TweakListOptionsFunc → ListWatch S JobTemplateList W
  list_watch client namespace tweak = record {
    list_func = λ options. (client_of client namespace).list (tweaked tweak options);
    watch_func = λ options. (client_of client namespace).watch (tweaked tweak options);
  }

  unfoldable pub new_filtered_job_template_informer :
      C → Text → ℕ → Indexers F → Option TweakListOptionsFunc → S → I × S
  new_filtered_job_template_informer client namespace resync_period indexers tweak =
      cache.new_shared_index_informer (list_watch client namespace tweak) job_template_type
        resync_period indexers

  unfoldable pub new_job_template_informer : C → Text → ℕ → Indexers F → S → I × S
  new_job_template_informer client namespace resync_period indexers =
      new_filtered_job_template_informer client namespace resync_period indexers none

  unfoldable pub default_informer : JobTemplateInformer → NewInformerFunc C S I
  default_informer f client resync_period =
      new_filtered_job_template_informer client f.namespace resync_period
        ((cache.namespace_index, cache.meta_namespace_index_func) ∷ []) f.tweak_list_options

  unfoldable pub informer :
      JobTemplateInformer → SharedInformerFactory C I × S → I × (SharedInformerFactory C I × S)
  informer f = informer_for job_template_type (default_informer f)

  unfoldable pub lister :
      JobTemplateInformer
      → SharedInformerFactory C I × S
      → JobTemplateLister × (SharedInformerFactory C I × S)
  lister f w =
      let made = informer f w in (new_job_template_lister (cache.get_indexer made.0), made.1)
