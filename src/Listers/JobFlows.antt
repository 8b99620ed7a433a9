-- ===== src/Listers/JobFlows.antt =====
-- pkg/client/listers/jobflow/v1alpha1/jobflow.go: the lister of JobFlows, and that of one namespace.
use job_deploy_operator.Base.{Text, codes, List, Option, none, some}
use job_deploy_operator.Api.Kube.{Error, Result, ok, err}
use job_deploy_operator.Api.JobFlow.{JobFlow}
use job_deploy_operator.Clientset.Testing.{Selector}
use job_deploy_operator.Listers.Indexer.{Indexer, index_key, new_not_found}

pub record JobFlowLister : Type 0 where
  pub indexer : Indexer JobFlow

pub record JobFlowNamespaceLister : Type 0 where
  pub indexer : Indexer JobFlow
  pub namespace : Text

abbrev pub new_job_flow_lister : Indexer JobFlow → JobFlowLister
new_job_flow_lister indexer = record { indexer = indexer }

unfoldable pub list : JobFlowLister → Selector → List JobFlow × Option Error
list s selector = s.indexer.list_all selector

abbrev pub job_flows : JobFlowLister → Text → JobFlowNamespaceLister
job_flows s namespace = record { indexer = s.indexer; namespace = namespace }

unfoldable pub list_in_namespace : JobFlowNamespaceLister → Selector → List JobFlow × Option Error
list_in_namespace s selector = s.indexer.list_all_by_namespace s.namespace selector

-- What `Get` makes of the answer to `GetByKey`.
abbrev pub found_job_flow :
    (message : Text → Text → Text) → Text → Option JobFlow × Option Error → Result JobFlow
found_job_flow message name (obj, some e) = err e
found_job_flow message name (none, none) = err (new_not_found message (codes "jobflow") name)
found_job_flow message name (some job_flow, none) = ok job_flow

unfoldable pub get : (message : Text → Text → Text) → JobFlowNamespaceLister → Text → Result JobFlow
get message s name = found_job_flow message name (s.indexer.get_by_key (index_key s.namespace name))
