-- ===== src/Tests/DaemonPasses.antt =====
-- Two passes for a DaemonJob, one after the other.
use job_deploy_operator.Base.{
  ℕ, codes, text_beq, text_ltb, remove_all, split, sort_texts, count, ◌≡◌, refl, [], ◌∷◌,
}
use job_deploy_operator.Api.Kube.{NamespacedName}
use job_deploy_operator.Controller.Daemon.Deploy.{
  daemon_key, prepare_job_from_daemon_job, create_daemon_job, deploy_daemon_job,
}
use job_deploy_operator.Controller.Daemon.Nodes.{is_excluded}
use job_deploy_operator.Controller.Daemon.Deploy.Asks.{
  IsMissing, Watched, begin, pass, asks_in_every_pass,
}
use job_deploy_operator.Tests.Cluster.{Cluster, find, add_new, in_memory, missing}
use job_deploy_operator.Tests.Samples.{sample_daemon, four_nodes}
use job_deploy_operator.Tests.Daemons.{cluster, targets-sample}
use job_deploy_operator.Tests.Passes.{in_memory-IsStore}

abbrev own : NamespacedName
own = daemon_key sample_daemon

abbrev once : Cluster
once = (deploy_daemon_job in_memory sample_daemon cluster).state

abbrev twice : Cluster
twice = (deploy_daemon_job in_memory sample_daemon once).state

two_passes : Watched in_memory own 2 2 twice
unfolding text_beq text_ltb remove_all split sort_texts count find add_new is_excluded
    prepare_job_from_daemon_job create_daemon_job deploy_daemon_job
two_passes =
    pass sample_daemon four_nodes (codes "n1") (codes "n2" ∷ []) 1 1 once refl refl targets-sample (
      pass sample_daemon four_nodes (codes "n1") (codes "n2" ∷ []) 0 0 cluster refl refl
        targets-sample (begin cluster (missing, refl, refl)))

asks_in_every_pass_example : (◌≡◌ {A = ℕ} 2 2) × IsMissing in_memory own twice
asks_in_every_pass_example =
    asks_in_every_pass in_memory in_memory-IsStore (λ c. refl) own 2 2 twice two_passes
