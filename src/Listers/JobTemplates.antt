-- ===== src/Listers/JobTemplates.antt =====
-- pkg/client/listers/jobtemplate/v1alpha1/jobtemplate.go: the lister of JobTemplates, and that of one namespace.
use job_deploy_operator.Base.{Text, codes, List, Option, none, some}
use job_deploy_operator.Api.Kube.{Error, Result, ok, err}
use job_deploy_operator.Api.JobTemplate.{JobTemplate}
use job_deploy_operator.Clientset.Testing.{Selector}
use job_deploy_operator.Listers.Indexer.{Indexer, index_key, new_not_found}

pub record JobTemplateLister : Type 0 where
  pub indexer : Indexer JobTemplate

pub record JobTemplateNamespaceLister : Type 0 where
  pub indexer : Indexer JobTemplate
  pub namespace : Text

abbrev pub new_job_template_lister : Indexer JobTemplate → JobTemplateLister
new_job_template_lister indexer = record { indexer = indexer }

unfoldable pub list : JobTemplateLister → Selector → List JobTemplate × Option Error
list s selector = s.indexer.list_all selector

abbrev pub job_templates : JobTemplateLister → Text → JobTemplateNamespaceLister
job_templates s namespace = record { indexer = s.indexer; namespace = namespace }

unfoldable pub list_in_namespace :
    JobTemplateNamespaceLister → Selector → List JobTemplate × Option Error
list_in_namespace s selector = s.indexer.list_all_by_namespace s.namespace selector

-- What `Get` makes of the answer to `GetByKey`.
abbrev pub found_job_template :
    (message : Text → Text → Text) → Text → Option JobTemplate × Option Error → Result JobTemplate
found_job_template message name (obj, some e) = err e
found_job_template message name (none, none) =
    err (new_not_found message (codes "jobtemplate") name)
found_job_template message name (some job_template, none) = ok job_template

unfoldable pub get :
    (message : Text → Text → Text) → JobTemplateNamespaceLister → Text → Result JobTemplate
get message s name =
    found_job_template message name (s.indexer.get_by_key (index_key s.namespace name))
