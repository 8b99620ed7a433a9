-- ===== src/Tests/Daemons.antt =====
-- The theorems on DaemonJobs at concrete inputs: four nodes, of which two are left out.
use job_deploy_operator.Base.{
  List, codes, text_beq, text_ltb, remove_all, split, insert_sorted, sort_texts, lookup, insert,
  count, select, All, Any, ◌≡◌, refl, ◌↔◌, true, [], ◌∷◌, none, some, arith,
}
use job_deploy_operator.Api.Kube.{NamespacedName, Job, ok}
use job_deploy_operator.Api.DaemonJob.{daemon_job_kind}
use job_deploy_operator.Controller.Client.{Call, got_daemon_job}
use job_deploy_operator.Controller.Common.{status_key}
use job_deploy_operator.Controller.Tally.{owned_copies, owned_jobs, add_job, tally_jobs}
use job_deploy_operator.Controller.Flow.Status.States.{StateFor}
use job_deploy_operator.Controller.Daemon.Nodes.{
  split_string, is_jump_over_node, is_excluded, target_nodes,
}
use job_deploy_operator.Controller.Daemon.Nodes.Excluded.{excluded_iff_written}
use job_deploy_operator.Controller.Daemon.Deploy.{
  prepare_job_from_daemon_job, create_daemon_job, deploy_nodes, deploy_daemon_job,
}
use job_deploy_operator.Controller.Daemon.Deploy.Once.{IsForFirst, only_first_node}
use job_deploy_operator.Controller.Daemon.Status.{daemon_job_status}
use job_deploy_operator.Controller.Daemon.Status.States.{daemon_state_of_counts}
use job_deploy_operator.Controller.Daemon.Reconcile.{reconcile}
use job_deploy_operator.Controller.Daemon.Reconcile.Outcome.{Outcome, daemon_reconcile-Outcome}
use job_deploy_operator.Tests.Cluster.{Cluster, find, in_memory}
use job_deploy_operator.Tests.Samples.{sample_daemon, node, four_nodes, with_status, was_successful}

program : Unit {0}
unfolding text_beq text_ltb remove_all split insert_sorted sort_texts lookup insert count select
    owned_copies owned_jobs add_job tally_jobs status_key daemon_job_kind find split_string
    is_jump_over_node is_excluded target_nodes prepare_job_from_daemon_job create_daemon_job
    deploy_nodes deploy_daemon_job daemon_job_status
program = tt

abbrev pub cluster : Cluster
cluster = record {
  job_flows = [];
  daemon_jobs = sample_daemon ∷ [];
  job_templates = [];
  jobs = [];
  nodes = four_nodes;
}

abbrev request : NamespacedName
request = record { namespace = codes "default"; name = codes "dj" }

abbrev first_job : Job
first_job =
    with_status was_successful (prepare_job_from_daemon_job sample_daemon (codes "dj") (codes "n1"))

pub targets-sample : target_nodes sample_daemon four_nodes ≡ codes "n1" ∷ codes "n2" ∷ []
unfolding program
targets-sample = refl

only_first_node_example :
    All
      (IsForFirst sample_daemon (target_nodes sample_daemon four_nodes))
      (deploy_daemon_job in_memory sample_daemon cluster).calls
only_first_node_example =
    only_first_node in_memory (λ key c. refl) sample_daemon cluster four_nodes refl

daemon_reconcile-Outcome_example :
    (calls : List Call) × ((reconcile in_memory request cluster).calls
      ≡ got_daemon_job request (ok sample_daemon) ∷ calls)
    × Outcome in_memory (ok sample_daemon) cluster calls (reconcile in_memory request cluster).value
unfolding program
daemon_reconcile-Outcome_example = daemon_reconcile-Outcome in_memory request cluster

daemon_state_of_counts_example :
    StateFor none (daemon_job_status sample_daemon (first_job ∷ []) four_nodes).state 2 1 0 0
    × (lookup
          (status_key (codes "dj-n1") (codes "default"))
          (daemon_job_status sample_daemon (first_job ∷ []) four_nodes).job_status_list
        ≡ some was_successful)
unfolding program
daemon_state_of_counts_example =
    daemon_state_of_counts sample_daemon (first_job ∷ []) four_nodes
      (status_key (codes "dj-n1") (codes "default"))

excluded_iff_written_example :
    (is_excluded sample_daemon (node (codes "n4")) ≡ true)
    ↔ Any (λ v. codes "n4" ≡ v) (codes "n3" ∷ codes "n4" ∷ [])
excluded_iff_written_example =
    excluded_iff_written sample_daemon (node (codes "n4")) (codes "n3") (codes "n4" ∷ []) refl
      (ground arith)
