-- ===== src/Controller/Daemon/Deploy/Once.antt =====
-- How many jobs a pass of the DaemonJob controller creates, and which.
use job_deploy_operator.Base.{
  ℕ, ◌≤◌, Text, ◌≡◌, refl, inl, inr, Bool, true, false, Bool-cases, List, [], ◌∷◌, All, count,
  append-nil, arith,
}
use job_deploy_operator.Api.Kube.{Node, Job, is_not_found, ok}
use job_deploy_operator.Api.DaemonJob.{DaemonJob}
use job_deploy_operator.Controller.Client.{Client, Call, created_job, listed_nodes}
use job_deploy_operator.Controller.Trace.{Result-cases, IsSilent, ReadsOnly}
use job_deploy_operator.Controller.Daemon.Nodes.{is_excluded, target_nodes}
use job_deploy_operator.Controller.Daemon.Deploy.{
  daemon_key, prepare_job_from_daemon_job, write_back, create_daemon_job, deploy_nodes,
  deploy_daemon_job,
}

abbrev pub is_creation : Call → Bool
is_creation (created_job job r) = true
is_creation _ = false

abbrev pub creations : List Call → ℕ
creations calls = count is_creation calls

module _ {S : Type 0} (client : Client S) where
  create_daemon_job-once :
      (dj : DaemonJob) (job : Job) (s : S) → creations (create_daemon_job client dj job s).calls ≡ 1
  unfolding create_daemon_job count
  create_daemon_job-once dj job s = elim (Result-cases (client.create_job job s).0) [
    | inl (u, q) ↦ ground (arith, q)
    | inr (e, q) ↦ ground (arith, q)
  ]

  deploy_nodes-once :
      (dj : DaemonJob) (nodes : List Node) (s : S)
      → creations (deploy_nodes client dj nodes s).calls ≤ 1
  unfolding deploy_nodes count
  deploy_nodes-once dj [] s = omega arith
  deploy_nodes-once dj (node ∷ nodes) s =
      let job = prepare_job_from_daemon_job dj dj.metadata.name node.name in
      let after = (client.get_job (daemon_key dj) s).1 in
      elim (Bool-cases (is_excluded dj node)) [
        | inl t ↦ rw t (deploy_nodes-once dj nodes s)
        | inr f ↦ elim (Result-cases (client.get_job (daemon_key dj) s).0) [
          | inl (j, q) ↦ rw (f, q) (deploy_nodes-once (write_back dj) nodes after)
          | inr (e, q) ↦ elim (Bool-cases (is_not_found e)) [
            | inr g ↦ rw (f, q, g) (omega arith)
            | inl g ↦ rw (f, q, g, append-nil) (omega (arith, create_daemon_job-once dj job after))
          ]
        ]
      ]

  -- However many nodes there are, and whatever the client answers, one pass asks for the creation of
  -- at most one job.
  at_most_one_creation :
      (dj : DaemonJob) (s : S) → creations (deploy_daemon_job client dj s).calls ≤ 1
  unfolding deploy_daemon_job count
  at_most_one_creation dj s = elim (Result-cases (client.list_nodes s).0) [
    | inr (e, q) ↦ ground (arith, q)
    | inl (nodes, q) ↦ rw q (deploy_nodes-once dj nodes (client.list_nodes s).1)
  ]

-- A creation for the first node that the DaemonJob runs on, and for no other.
abbrev pub IsForFirst : DaemonJob → List Text → Call → Type 0
IsForFirst dj [] (created_job job r) = ⊥
IsForFirst dj (name ∷ _) (created_job job r) =
    job ≡ prepare_job_from_daemon_job dj dj.metadata.name name
IsForFirst dj targets _ = Unit

IsForFirst-silent :
    (dj : DaemonJob) (targets : List Text) (c : Call) → IsSilent c → IsForFirst dj targets c
IsForFirst-silent dj [] (created_job job r) h = absurd h
IsForFirst-silent dj (name ∷ names) (created_job job r) h = absurd h
IsForFirst-silent dj [] _ h = tt
IsForFirst-silent dj (name ∷ names) _ h = tt

All-silent :
    (dj : DaemonJob) (targets : List Text) (cs : List Call)
    → All IsSilent cs
    → All (IsForFirst dj targets) cs
All-silent dj targets [] h = tt
All-silent dj targets (c ∷ cs) (p, h) =
    (IsForFirst-silent dj targets c p, All-silent dj targets cs h)

module _ {S : Type 0} (client : Client S) (reads : ReadsOnly client) where
  -- Once the job is found, it is found for every later node.
  found-IsSilent :
      (dj : DaemonJob) (nodes : List Node) (s : S) (job : Job)
      → (client.get_job (daemon_key dj) s).0 ≡ ok job
      → All IsSilent (deploy_nodes client dj nodes s).calls
  unfolding deploy_nodes write_back
  found-IsSilent dj [] s job q = tt
  found-IsSilent dj (node ∷ nodes) s job q = elim (Bool-cases (is_excluded dj node)) [
    | inl t ↦ rw t (found-IsSilent dj nodes s job q)
    | inr f ↦ rw (f, q, reads) (tt, found-IsSilent (write_back dj) nodes s job q)
  ]

  create_daemon_job-first :
      (dj : DaemonJob) (name : Text) (names : List Text) (s : S)
      → All
          (IsForFirst dj (name ∷ names))
          (create_daemon_job client dj
            (prepare_job_from_daemon_job dj dj.metadata.name name)
            s).calls
  unfolding create_daemon_job
  create_daemon_job-first dj name names s =
      elim (Result-cases
        (client.create_job (prepare_job_from_daemon_job dj dj.metadata.name name) s).0) [
          | inl (u, q) ↦ rw q (refl, (tt, tt))
          | inr (e, q) ↦ rw q (refl, ground arith)
        ]

  deploy_nodes-first :
      (dj : DaemonJob) (nodes : List Node) (s : S)
      → All (IsForFirst dj (target_nodes dj nodes)) (deploy_nodes client dj nodes s).calls
  unfolding deploy_nodes target_nodes write_back
  deploy_nodes-first dj [] s = tt
  deploy_nodes-first dj (node ∷ nodes) s = elim (Bool-cases (is_excluded dj node)) [
    | inl t ↦ rw t (deploy_nodes-first dj nodes s)
    | inr f ↦ elim (Result-cases (client.get_job (daemon_key dj) s).0) [
      | inl (j, q) ↦
          rw (f, q, reads)
            (
              tt,
              All-silent dj (node.name ∷ target_nodes dj nodes)
                  (deploy_nodes client (write_back dj) nodes s).calls
                  (found-IsSilent (write_back dj) nodes s j q),
            )
      | inr (e, q) ↦ elim (Bool-cases (is_not_found e)) [
        | inr g ↦ rw (f, q, g) (tt, tt)
        | inl g ↦
            rw (f, q, g, append-nil)
              (
                tt,
                create_daemon_job-first dj node.name (target_nodes dj nodes)
                    (client.get_job (daemon_key dj) s).1,
              )
      ]
    ]
  ]

  -- If reading a job changes nothing and the nodes are listed, a pass asks only for the job of
  -- the first node that the DaemonJob runs on: no pass creates the job of another node.
  pub only_first_node :
      (dj : DaemonJob) (s : S) (nodes : List Node)
      → (client.list_nodes s).0 ≡ ok nodes
      → All (IsForFirst dj (target_nodes dj nodes)) (deploy_daemon_job client dj s).calls
  unfolding deploy_daemon_job
  only_first_node dj s nodes q = rw q (
    IsForFirst-silent dj (target_nodes dj nodes) (listed_nodes (ok nodes)) tt,
    deploy_nodes-first dj nodes (client.list_nodes s).1,
  )
