-- ===== src/Controller/Daemon/Deploy/Keeps.antt =====
-- What `deployDaemonJob` leaves as it is in the DaemonJob that it is given.
use job_deploy_operator.Base.{◌≡◌, refl, ◌∙◌, inl, inr, Bool-cases, List, [], ◌∷◌, arith}
use job_deploy_operator.Api.Kube.{Node, Job, is_not_found}
use job_deploy_operator.Api.DaemonJob.{DaemonJob}
use job_deploy_operator.Controller.Client.{Client}
use job_deploy_operator.Controller.Trace.{Result-cases}
use job_deploy_operator.Controller.Daemon.Nodes.{is_excluded, target_nodes}
use job_deploy_operator.Controller.Daemon.Deploy.{
  daemon_key, write_back, deploy_nodes, deploy_daemon_job,
}
use job_deploy_operator.Controller.Daemon.Status.{daemon_job_status}

-- Two DaemonJobs that differ at most in what their containers hold.
pub record IsSame (a b : DaemonJob) : Type 0 where
  pub metadata : a.metadata ≡ b.metadata
  pub targets : (nodes : List Node) → target_nodes a nodes ≡ target_nodes b nodes

IsSame-refl : (dj : DaemonJob) → IsSame dj dj
IsSame-refl dj = record { metadata = refl; targets = λ nodes. refl }

target_nodes-write_back :
    (dj : DaemonJob) (nodes : List Node)
    → target_nodes (write_back dj) nodes ≡ target_nodes dj nodes
unfolding target_nodes is_excluded write_back
target_nodes-write_back dj [] = refl
target_nodes-write_back dj (node ∷ nodes) = ground (arith, target_nodes-write_back dj nodes)

IsSame-write_back : (a dj : DaemonJob) → IsSame a (write_back dj) → IsSame a dj
IsSame-write_back a dj h = record {
  metadata = unfold write_back in h.metadata;
  targets = λ nodes. h.targets nodes ∙ target_nodes-write_back dj nodes;
}

module _ {S : Type 0} (client : Client S) where
  deploy_nodes-IsSame :
      (dj : DaemonJob) (nodes : List Node) (s : S)
      → IsSame (deploy_nodes client dj nodes s).value.1 dj
  unfolding deploy_nodes
  deploy_nodes-IsSame dj [] s = IsSame-refl dj
  deploy_nodes-IsSame dj (node ∷ nodes) s =
      let after = (client.get_job (daemon_key dj) s).1 in
      let written = IsSame-write_back (write_back dj) dj (IsSame-refl (write_back dj)) in
      elim (Bool-cases (is_excluded dj node)) [
        | inl t ↦ rw t (deploy_nodes-IsSame dj nodes s)
        | inr f ↦ elim (Result-cases (client.get_job (daemon_key dj) s).0) [
          | inl (j, q) ↦
              rw (f, q) (IsSame-write_back _ dj (deploy_nodes-IsSame (write_back dj) nodes after))
          | inr (e, q) ↦ elim (Bool-cases (is_not_found e)) [
            | inl g ↦ rw (f, q, g) written
            | inr g ↦ rw (f, q, g) written
          ]
        ]
      ]

  pub deploy_daemon_job-IsSame :
      (dj : DaemonJob) (s : S) → IsSame (deploy_daemon_job client dj s).value.1 dj
  unfolding deploy_daemon_job
  deploy_daemon_job-IsSame dj s = elim (Result-cases (client.list_nodes s).0) [
    | inr (e, q) ↦ rw q (IsSame-refl dj)
    | inl (nodes, q) ↦ rw q (deploy_nodes-IsSame dj nodes (client.list_nodes s).1)
  ]

pub daemon_job_status-IsSame :
    (a b : DaemonJob) (jobs : List Job) (nodes : List Node)
    → IsSame a b
    → daemon_job_status a jobs nodes ≡ daemon_job_status b jobs nodes
unfolding daemon_job_status
daemon_job_status-IsSame a b jobs nodes h = rw (h.targets, h.metadata)
