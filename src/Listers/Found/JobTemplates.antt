-- ===== src/Listers/Found/JobTemplates.antt =====
-- What the lister of JobTemplates of one namespace finds.
use job_deploy_operator.Base.{Text, Lacks, List, Option, none, some, ◌≡◌, refl, ap, inl, inr}
use job_deploy_operator.Api.Kube.{Error}
use job_deploy_operator.Api.JobTemplate.{JobTemplate}
use job_deploy_operator.Listers.Indexer.{Indexer, index_key}
use job_deploy_operator.Listers.JobTemplates.{
  JobTemplateLister, job_templates, found_job_template, get,
}
use job_deploy_operator.Listers.Found.{IsIndexOf, IsAnswer, IsNamed-found, IsNamed-missing}

found_job_template-IsAnswer :
    (message : Text → Text → Text) (indexer : Indexer JobTemplate) (objects : List JobTemplate)
    → IsIndexOf (λ o. o.metadata) indexer objects
    → (namespace name : Text) → Lacks b'/' namespace
    → (answer : Option JobTemplate × Option Error)
    → indexer.get_by_key (index_key namespace name) ≡ answer
    → IsAnswer
        (λ o. o.metadata)
        answer.1
        objects
        namespace
        name
        (found_job_template message name answer)
found_job_template-IsAnswer message indexer objects index namespace name plain (obj, some e) h =
    inl refl
found_job_template-IsAnswer message indexer objects index namespace name plain (none, none) h =
    inr (refl, IsNamed-missing (λ o. o.metadata) indexer objects index namespace name plain h)
found_job_template-IsAnswer message indexer objects index namespace name plain (some o, none) h =
    IsNamed-found (λ o. o.metadata) indexer objects index namespace name plain o (ap (λ r. r.0) h)

-- If the indexer holds JobTemplates under the keys of their namespaces and names, and namespaces have no
-- slash, then the lister of a namespace finds by a name only a JobTemplate of this namespace and name;
-- and an error is that of the indexer, or a NotFound, and then there is no such JobTemplate.
pub get_job_template_from_lister :
    (message : Text → Text → Text) (s : JobTemplateLister) (objects : List JobTemplate)
    (namespace name : Text)
    → IsIndexOf (λ o. o.metadata) s.indexer objects
    → Lacks b'/' namespace
    → IsAnswer
        (λ o. o.metadata)
        (s.indexer.get_by_key (index_key namespace name)).1
        objects
        namespace
        name
        (get message (job_templates s namespace) name)
unfolding get
get_job_template_from_lister message s objects namespace name index plain =
    found_job_template-IsAnswer message s.indexer objects index namespace name plain
      (s.indexer.get_by_key (index_key namespace name)) refl
