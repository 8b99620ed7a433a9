-- ===== src/Controller/Daemon/Deploy/Asks.antt =====
-- What the passes of deployDaemonJob ask for over time. A pass looks for its job under the name of
-- the DaemonJob, which no job that it creates has.
use job_deploy_operator.Base.{
  ℕ, suc, ◌+◌, Text, codes, append_cancel, append_assoc, append-nil, ◌≡◌, refl, sym, ap, subst, ◌∙◌,
  ◌≢◌, inl, inr, true, Bool-cases, List, [], ◌∷◌, ◌++◌, count, arith,
}
use job_deploy_operator.Api.Kube.{
  NamespacedName, Node, Job, Error, is_not_found, is_already_exists, ok, err,
}
use job_deploy_operator.Api.DaemonJob.{DaemonJob}
use job_deploy_operator.Controller.Client.{Client}
use job_deploy_operator.Controller.Trace.{Result-cases}
use job_deploy_operator.Controller.Flow.Passes.{key_of, IsStore}
use job_deploy_operator.Controller.Daemon.Nodes.{is_excluded, target_nodes}
use job_deploy_operator.Controller.Daemon.Deploy.{
  daemon_key, prepare_job_from_daemon_job, create_daemon_job, deploy_nodes, deploy_daemon_job,
}
use job_deploy_operator.Controller.Daemon.Deploy.Once.{creations}

own_name_is_another :
    (dj : DaemonJob) (node_name : Text)
    → daemon_key dj ≢ key_of (prepare_job_from_daemon_job dj dj.metadata.name node_name)
unfolding prepare_job_from_daemon_job
own_name_is_another dj node_name e =
    let own = dj.metadata.name in
    let same : own ++ [] ≡ own ++ b'-' ∷ node_name =
      append-nil own ∙ ap (λ k. k.name) e ∙ append_assoc own (codes "-") node_name in
    let nothing : [] ≡ b'-' ∷ node_name = append_cancel own [] (b'-' ∷ node_name) same in
    absurd (ground (arith, nothing))

module _ {S : Type 0} (client : Client S) where
  -- The read of this job answers that there is none.
  abbrev pub IsMissing : NamespacedName → S → Type 0
  IsMissing key s = (e : Error) × ((client.get_job key s).0 ≡ err e) × (is_not_found e ≡ true)

  -- `passes` passes, for a DaemonJob with this key and at least one node that it runs on, have asked
  -- for `asked` creations. Between the passes the DaemonJob, the nodes and the cluster may change,
  -- only nobody makes a job that has the key.
  pub data Watched (key : NamespacedName) : (passes asked : ℕ) → S → Type 0 where
    begin : (s : S) → IsMissing key s → Watched key 0 0 s
    pass :
        (dj : DaemonJob) (nodes : List Node) (name : Text) (names : List Text) (passes asked : ℕ)
        (s : S)
        → daemon_key dj ≡ key
        → (client.list_nodes s).0 ≡ ok nodes
        → target_nodes dj nodes ≡ name ∷ names
        → Watched key passes asked s
        → Watched key
            (suc passes)
            (asked + creations (deploy_daemon_job client dj s).calls)
            (deploy_daemon_job client dj s).state
    others :
        (passes asked : ℕ) (s s' : S)
        → Watched key passes asked s
        → IsMissing key s'
        → Watched key passes asked s'

  module _ (store : IsStore client) (lists : (s : S) → (client.list_nodes s).1 ≡ s) where
    create_daemon_job-asks :
        (dj : DaemonJob) (job : Job) (s : S)
        → daemon_key dj ≢ key_of job
        → IsMissing (daemon_key dj) s
        → let r = create_daemon_job client dj job s in
          (creations r.calls ≡ 1) × IsMissing (daemon_key dj) r.state
    unfolding create_daemon_job count
    create_daemon_job-asks dj job s other (e, q, t) =
        let after = (client.create_job job s).1 in
        let kept : (client.get_job (daemon_key dj) after).0 ≡ err e =
          store.creates_one job (daemon_key dj) s other ∙ q in
        elim (Result-cases (client.create_job job s).0) [
          | inl (u, p) ↦ (ground (arith, p), (e, ground (arith, p, kept), t))
          | inr (f, p) ↦ elim (Bool-cases (is_already_exists f)) [
            | inl y ↦ (ground (arith, p, y), (e, ground (arith, p, y, kept), t))
            | inr z ↦ (ground (arith, p, z), (e, ground (arith, p, z, kept), t))
          ]
        ]

    deploy_nodes-asks :
        (dj : DaemonJob) (nodes : List Node) (name : Text) (names : List Text) (s : S)
        → target_nodes dj nodes ≡ name ∷ names
        → IsMissing (daemon_key dj) s
        → let r = deploy_nodes client dj nodes s in
          (creations r.calls ≡ 1) × IsMissing (daemon_key dj) r.state
    unfolding deploy_nodes target_nodes create_daemon_job count
    deploy_nodes-asks dj (node ∷ nodes) name names s targets (e, q, t) =
        let r = deploy_nodes client dj (node ∷ nodes) s in
        elim (Bool-cases (is_excluded dj node)) [
          | inl x ↦
              let rest =
                deploy_nodes-asks dj nodes name names s (ground (arith, x, targets)) (e, q, t) in
              rw x rest
          | inr f ↦
              let job = prepare_job_from_daemon_job dj dj.metadata.name node.name in
              let same = store.reads (daemon_key dj) s in
              let asked =
                create_daemon_job-asks dj job s (own_name_is_another dj node.name) (e, q, t) in
              rw (f, q, t, same, append-nil) asked
        ]
    deploy_nodes-asks dj [] name names s targets missing = absurd (ground (arith, targets))

    deploy_daemon_job-asks :
        (dj : DaemonJob) (nodes : List Node) (name : Text) (names : List Text) (s : S)
        → (client.list_nodes s).0 ≡ ok nodes
        → target_nodes dj nodes ≡ name ∷ names
        → IsMissing (daemon_key dj) s
        → let r = deploy_daemon_job client dj s in
          (creations r.calls ≡ 1) × IsMissing (daemon_key dj) r.state
    unfolding deploy_daemon_job count
    deploy_daemon_job-asks dj nodes name names s listed targets missing =
        rw (listed, lists s) (deploy_nodes-asks dj nodes name names s targets missing)

    -- If reads change nothing and a creation touches no job but the one under its key, then every
    -- pass of deployDaemonJob asks for exactly one creation, however many passes there were, as
    -- long as there are nodes that the DaemonJob runs on and nobody makes a job with the key of the
    -- DaemonJob: no pass finds the job of an earlier one, and none makes a job with this key.
    pub asks_in_every_pass :
        (key : NamespacedName) (passes asked : ℕ) (s : S)
        → Watched key passes asked s
        → (asked ≡ passes) × IsMissing key s
    asks_in_every_pass key _ _ _ (begin s missing) = (refl, missing)
    asks_in_every_pass key _ _ _ (others passes asked s s' h missing) =
        ((asks_in_every_pass key passes asked s h).0, missing)
    asks_in_every_pass key _ _ _ (pass dj nodes name names passes asked s own listed targets h) =
        let (counted, missing) = asks_in_every_pass key passes asked s h in
        let (once, still) =
          deploy_daemon_job-asks dj nodes name names s listed targets
            (subst (λ k. IsMissing k s) (sym own) missing) in
        (
          omega (arith, counted, once),
          subst (λ k. IsMissing k (deploy_daemon_job client dj s).state) own still,
        )
