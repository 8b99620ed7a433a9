-- ===== src/Controller/Flow/Passes.antt =====
-- The jobs of a JobFlow over many passes of `deployJobFlow`, while others change the cluster.
pub mod States
pub mod Answers
pub mod Iterations
pub mod Progress
pub mod Ranks
pub mod Cluster
pub mod Reconciles
pub mod Calls
pub mod Creations
pub mod Once
use mathlib.Core.Path.{ap₂}
use mathlib.Core.List.{Memᴰ}
use job_deploy_operator.Base.{
  Text, text_eq, text_beq_iff, nat_eq, ◌≡◌, refl, sym, ap, subst, ◌∙◌, ◌≢◌, ◌⊎◌, inl, inr, true,
  Bool-cases, List, [], ◌∷◌, All, All-self, ◌==◌, arith,
}
use job_deploy_operator.Api.Kube.{NamespacedName, Error, is_not_found, Job, Result, ok, err}
use job_deploy_operator.Api.JobFlow.{Flow, JobFlow}
use job_deploy_operator.Controller.Client.{Client}
use job_deploy_operator.Controller.Common.{get_job_name}
use job_deploy_operator.Controller.Common.Names.{get_job_name-injective}
use job_deploy_operator.Controller.Trace.{ReadsOnly, Result-cases}
use job_deploy_operator.Controller.Flow.Prepare.{prepare_job}
use job_deploy_operator.Controller.Flow.Prepare.Shape.{prepare_job-named}
use job_deploy_operator.Controller.Flow.Deploy.{
  job_key, Control-cases, start_job, deploy_flow, deploy_flows, deploy_job_flow,
}
use job_deploy_operator.Controller.Flow.Deploy.Ready.{IsDone, IsAbsent}
use job_deploy_operator.Controller.Flow.Passes.States.{start_job-state, prepare_job-state}

abbrev pub key_of : Job → NamespacedName
key_of job = record { namespace = job.metadata.namespace; name = job.metadata.name }

abbrev pub key : Text → Text → NamespacedName
key namespace name = record { namespace = namespace; name = name }

-- What is asked of the cluster: reading changes nothing, and a creation touches no job but the one
-- under its key.
pub record IsStore {S : Type 0} (client : Client S) : Type 0 where
  pub reads : ReadsOnly client
  pub reads_templates : (key : NamespacedName) (s : S) → (client.get_job_template key s).1 ≡ s
  pub creates_one :
      (job : Job) (key : NamespacedName) (s : S)
      → key ≢ key_of job
      → (client.get_job key (client.create_job job s).1).0 ≡ (client.get_job key s).0

module _ {S : Type 0} (client : Client S) (jf : JobFlow) where
  abbrev pub IsPresent : S → Text → Type 0
  IsPresent s flow_name = (job : Job) × ((client.get_job (job_key jf flow_name) s).0 ≡ ok job)

  -- What others do: they make no job of the JobFlow, and leave a job that is done as it is.
  pub record IsOthers (before after : S) : Type 0 where
    pub appears : (flow_name : Text) → IsPresent after flow_name → IsPresent before flow_name
    pub stays :
        (flow_name : Text) → IsDone client jf before flow_name → IsDone client jf after flow_name

  -- The clusters that are reached from one that has no job of the JobFlow.
  pub data Reached : S → Type 0 where
    begin : (s : S) → ((flow_name : Text) → ¬ IsPresent s flow_name) → Reached s
    pass : (s : S) → Reached s → Reached (deploy_job_flow client jf s).state
    others : (s s' : S) → Reached s → IsOthers s s' → Reached s'

  -- No two flows have the same name.
  abbrev pub AreDistinct : List Flow → Type 0
  AreDistinct flows = (f g : Flow) → Memᴰ f flows → Memᴰ g flows → f.name ≡ g.name → f ≡ g

  -- Every job that is there has had its dependencies.
  abbrev Invariant : S → Type 0
  Invariant s =
      (f : Flow)
      → Memᴰ f jf.spec.flows
      → IsPresent s f.name
      → All (IsDone client jf s) f.dependencies

  pub All-stays :
      (s s' : S)
      → ((d : Text) → IsDone client jf s d → IsDone client jf s' d)
      → (ds : List Text) → All (IsDone client jf s) ds
      → All (IsDone client jf s') ds
  All-stays s s' stays [] h = tt
  All-stays s s' stays (d ∷ ds) (h, hs) = (stays d h, All-stays s s' stays ds hs)

  module _ (store : IsStore client) (distinct : AreDistinct jf.spec.flows) where
    module _ (flow : Flow) (listed : Memᴰ flow jf.spec.flows) (job : Job) (s : S)
        (named : job.metadata.name ≡ get_job_name jf.metadata.name flow.name)
        (placed : job.metadata.namespace ≡ jf.metadata.namespace) where
      pub key_of-job : key_of job ≡ job_key jf flow.name
      key_of-job = ap₂ key placed named

      pub other_name : (name : Text) → name ≢ flow.name → job_key jf name ≢ key_of job
      other_name name ne e = ne (
          get_job_name-injective jf.metadata.name name flow.name
            (ap (λ (k : NamespacedName). k.name) (e ∙ key_of-job)))

      -- A job that is done is not the one that is absent.
      pub IsDone-stays :
          IsAbsent client jf s flow.name
          → (d : Text) → IsDone client jf s d
          → IsDone client jf (client.create_job job s).1 d
      IsDone-stays (e, q, missing) d (done, p, one, none_failed) =
          let other : d ≢ flow.name = λ same.
            let p' = subst (λ n. (client.get_job (job_key jf n) s).0 ≡ ok done) same p in
            ground (arith, p', q) in
          (done, store.creates_one job (job_key jf d) s (other_name d other) ∙ p, one, none_failed)

      creation-Invariant :
          IsAbsent client jf s flow.name
          → All (IsDone client jf s) flow.dependencies
          → Invariant s
          → Invariant (client.create_job job s).1
      creation-Invariant absent ready inv f member (j, p) =
          let after = (client.create_job job s).1 in
          elim (Bool-cases (f.name == flow.name)) [
            | inl t ↦
                let same = distinct f flow member listed ((text_beq_iff f.name flow.name).0 t) in
                subst (λ (g : Flow). All (IsDone client jf after) g.dependencies) (sym same)
                  (All-stays s after (IsDone-stays absent) flow.dependencies ready)
            | inr t ↦
                let ne : f.name ≢ flow.name =
                  λ e. ground (arith, t, text_beq_iff f.name flow.name, e) in
                let p' =
                  sym (store.creates_one job (job_key jf f.name) s (other_name f.name ne)) ∙ p in
                All-stays s after (IsDone-stays absent) f.dependencies (inv f member (j, p'))
          ]

      start_job-Invariant : Invariant s → Invariant (start_job client jf flow job s).state
      start_job-Invariant inv = elim (start_job-state client store.reads jf flow job s) [
        | inl e ↦ subst Invariant (sym e) inv
        | inr (absent, ready, e) ↦ subst Invariant (sym e) (creation-Invariant absent ready inv)
      ]

    deploy_flow-Invariant :
        (flow : Flow)
        → Memᴰ flow jf.spec.flows
        → (s : S) → Invariant s
        → Invariant (deploy_flow client jf flow s).state
    unfolding deploy_flow
    deploy_flow-Invariant flow listed s inv =
        let name = get_job_name jf.metadata.name flow.name in
        let prepared = prepare_job client jf flow name s in
        let inv' : Invariant prepared.state =
          subst Invariant (sym (prepare_job-state client store.reads_templates jf flow name s))
            inv in
        elim (Result-cases prepared.value.0) [
          | inr (e, q) ↦
              let same : (deploy_flow client jf flow s).state ≡ prepared.state =
                ground (arith, q) in
              subst Invariant (sym same) inv'
          | inl (job, q) ↦
              let (named, placed) = prepare_job-named client jf flow name s job q in
              let same : (deploy_flow client jf flow s).state
                  ≡ (start_job client jf flow job prepared.state).state =
                ground (arith, q) in
              subst Invariant (sym same)
                (start_job-Invariant flow listed job prepared.state named placed inv')
        ]

    deploy_flows-Invariant :
        (flows : List Flow)
        → All (λ flow. Memᴰ flow jf.spec.flows) flows
        → (s : S) → Invariant s
        → Invariant (deploy_flows client jf flows s).state
    unfolding deploy_flows
    deploy_flows-Invariant [] h s inv = inv
    deploy_flows-Invariant (flow ∷ flows) (listed, h) s inv =
        let step = deploy_flow client jf flow s in
        let inv' = deploy_flow-Invariant flow listed s inv in
        elim (Control-cases step.value.0) [
          | inl q ↦
              let same : (deploy_flows client jf (flow ∷ flows) s).state
                  ≡ (deploy_flows client jf flows step.state).state =
                ground (arith, q) in
              subst Invariant (sym same) (deploy_flows-Invariant flows h step.state inv')
          | inr (inl q) ↦
              let same : (deploy_flows client jf (flow ∷ flows) s).state ≡ step.state =
                ground (arith, q) in
              subst Invariant (sym same) inv'
          | inr (inr (e, q)) ↦
              let same : (deploy_flows client jf (flow ∷ flows) s).state ≡ step.state =
                ground (arith, q) in
              subst Invariant (sym same) inv'
        ]

    Reached-Invariant : (s : S) → Reached s → Invariant s
    unfolding deploy_job_flow
    Reached-Invariant s (begin _ none_there) = λ f member there. absurd (none_there f.name there)
    Reached-Invariant _ (pass s r) =
        deploy_flows-Invariant jf.spec.flows (All-self jf.spec.flows) s (Reached-Invariant s r)
    Reached-Invariant _ (others s s' r change) = λ f member there.
        All-stays s s' change.stays f.dependencies
          (Reached-Invariant s r f member (change.appears f.name there))

    -- Let reading change nothing, let a creation touch one key, and let the flows have different
    -- names. Then in every cluster that passes of `deployJobFlow` reach from one without jobs of the
    -- JobFlow, while others make no such job and leave the jobs that are done, the job of a flow
    -- is there only if the jobs of all its dependencies are there and done.
    pub dependencies_first :
        (s : S) (flow : Flow) (job : Job)
        → Reached s
        → Memᴰ flow jf.spec.flows
        → (client.get_job (job_key jf flow.name) s).0 ≡ ok job
        → All (IsDone client jf s) flow.dependencies
    dependencies_first s flow job r member there = Reached-Invariant s r flow member (job, there)
