-- ===== src/Tests/Listers.antt =====
-- The theorems on the generated listers, for an indexer that holds one object.
use job_deploy_operator.Base.{
  ◌≡◌, subst, Text, codes, text_eq, text_beq_iff, Lacks, select, Bool-cases, [], ◌∷◌, none, some,
  inl, inr, ◌==◌, if◌then◌else◌, arith,
}
use job_deploy_operator.Api.Kube.{ObjectMeta}
use job_deploy_operator.Listers.Indexer.{Indexer, index_key}
use job_deploy_operator.Listers.JobFlows
use job_deploy_operator.Listers.DaemonJobs
use job_deploy_operator.Listers.JobTemplates
use job_deploy_operator.Listers.Found.{IsIndexOf, IsAnswer}
use job_deploy_operator.Listers.Found.JobFlows.{get_job_flow_from_lister}
use job_deploy_operator.Tests.Samples.{sample_flow, sample_daemon, sample_template}

module _ {A : Type 0} (meta : A → ObjectMeta) (o : A) where
  abbrev own_key : Text
  own_key = index_key (meta o).namespace (meta o).name

  abbrev one : Indexer A
  one = record {
    list_all = λ selector. (select (λ a. selector (meta a).labels) (o ∷ []), none);
    list_all_by_namespace = λ ns selector. (select (λ a. selector (meta a).labels) (o ∷ []), none);
    get_by_key = λ key. (if own_key == key then some o else none, none);
  }

  one-IsIndexOf : Lacks b'/' (meta o).namespace → IsIndexOf meta one (o ∷ [])
  one-IsIndexOf plain = record {
    found = λ key a h. elim (Bool-cases (own_key == key)) [
      | inl t ↦
          let e : o ≡ a = ground (arith, t, h) in
          (
            inl e,
            subst (λ x. index_key (meta x).namespace (meta x).name ≡ key) e
                ((text_beq_iff own_key key).0 t),
          )
      | inr f ↦ absurd (ground (arith, f, h))
    ];
    missing = λ key h. elim (Bool-cases (own_key == key)) [
      | inl t ↦ absurd (ground (arith, t, h))
      | inr f ↦ ((λ e. ground (arith, f, text_beq_iff own_key key, e)), tt)
    ];
    plain = (plain, tt);
  }

abbrev message : Text → Text → Text
message resource name = resource

abbrev job_flow_lister : JobFlows.JobFlowLister
job_flow_lister = JobFlows.new_job_flow_lister (one (λ o. o.metadata) sample_flow)

get_job_flow_from_lister_example :
    IsAnswer
      (λ o. o.metadata)
      none
      (sample_flow ∷ [])
      (codes "default")
      sample_flow.metadata.name
      (JobFlows.get message
        (JobFlows.job_flows job_flow_lister (codes "default"))
        sample_flow.metadata.name)
get_job_flow_from_lister_example =
    get_job_flow_from_lister message job_flow_lister (sample_flow ∷ []) (codes "default")
      sample_flow.metadata.name (one-IsIndexOf (λ o. o.metadata) sample_flow (ground arith))
      (ground arith)

abbrev daemon_job_lister : DaemonJobs.DaemonJobLister
daemon_job_lister = DaemonJobs.new_daemon_job_lister (one (λ o. o.metadata) sample_daemon)

abbrev job_template_lister : JobTemplates.JobTemplateLister
job_template_lister = JobTemplates.new_job_template_lister (one (λ o. o.metadata) sample_template)
