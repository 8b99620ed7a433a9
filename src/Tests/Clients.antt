-- ===== src/Tests/Clients.antt =====
-- The theorem on the generated clients, for servers and fakes that give one answer to every request,
-- with a list of one object.
use job_deploy_operator.Base.{codes, [], ◌∷◌, none, some, true, false}
use job_deploy_operator.Api.Kube.{ok, err}
use job_deploy_operator.Api.JobFlow.{JobFlowList}
use job_deploy_operator.Api.DaemonJob.{DaemonJobList}
use job_deploy_operator.Api.JobTemplate.{JobTemplateList}
use job_deploy_operator.Clientset.Rest.{ListOptions, Rest}
use job_deploy_operator.Clientset.Testing.{Fake}
use job_deploy_operator.Clientset.Agree.JobFlows as JobFlows
use job_deploy_operator.Clientset.Agree.DaemonJobs as DaemonJobs
use job_deploy_operator.Clientset.Agree.JobTemplates as JobTemplates
use job_deploy_operator.Clientset.Agree.Fakes.{fakes_correspond}
use job_deploy_operator.Tests.Cluster.{missing}
use job_deploy_operator.Tests.Samples.{sample_flow, sample_daemon, sample_template}

module _ {A L : Type 0} (a : A) (all : L) where
  -- Objects without labels are left out of a list.
  abbrev fake_of : Fake (Unit {0}) A L (Unit {0})
  fake_of = record {
    invokes = λ action s. ((some a, none), s);
    invokes_list = λ action s. ((some all, none), s);
    invokes_watch = λ action s. (ok tt, s);
    label_of = λ opts. some (λ labels. elim labels [ none ↦ false | some m ↦ true ]);
    everything = λ labels. true;
  }

  abbrev server : Rest (Unit {0}) A L (Unit {0})
  server = record {
    into_object = λ q s. (ok a, s);
    into_list = λ q s. (ok all, s);
    error = λ q s. (err missing, s);
    watch = λ q s. (ok tt, s);
  }

abbrev no_options : ListOptions
no_options = record { timeout_seconds = some 30; watch = false; rest = [] }

abbrev job_flows : JobFlowList
job_flows = record { type_meta = sample_flow.type_meta; list_meta = []; items = sample_flow ∷ [] }

abbrev daemon_jobs : DaemonJobList
daemon_jobs = record {
  type_meta = sample_daemon.type_meta;
  list_meta = [];
  items = sample_daemon ∷ [];
}

abbrev job_templates : JobTemplateList
job_templates = record {
  type_meta = sample_template.type_meta;
  list_meta = [];
  items = sample_template ∷ [];
}

fakes_correspond_example :
    JobFlows.Corresponds
      (server sample_flow job_flows)
      (fake_of sample_flow job_flows)
      (codes "default")
      (codes "jf")
      []
      []
      []
      sample_flow
      no_options
      []
      tt
    × DaemonJobs.Corresponds
        (server sample_daemon daemon_jobs)
        (fake_of sample_daemon daemon_jobs)
        (codes "default")
        (codes "jf")
        []
        []
        []
        sample_daemon
        no_options
        []
        tt
    × JobTemplates.Corresponds
        (server sample_template job_templates)
        (fake_of sample_template job_templates)
        (codes "default")
        (codes "jf")
        []
        []
        []
        sample_template
        no_options
        []
        tt
fakes_correspond_example =
    fakes_correspond (server sample_flow job_flows) (fake_of sample_flow job_flows)
      (server sample_daemon daemon_jobs) (fake_of sample_daemon daemon_jobs)
      (server sample_template job_templates) (fake_of sample_template job_templates)
      (codes "default") (codes "jf") [] [] [] sample_flow sample_daemon sample_template no_options
      [] tt
