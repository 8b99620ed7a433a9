-- ===== src/Controller/Flow/Deploy/Keeps.antt =====
-- What `deployJobFlow` leaves as it is in the JobFlow that it is given.
use job_deploy_operator.Controller.Common.{get_job_name}
use job_deploy_operator.Base.{
  Text, ◌≡◌, refl, sym, ap, ◌∙◌, inl, inr, List, [], ◌∷◌, map, length, length-map, arith,
}
use job_deploy_operator.Api.JobFlow.{Flow, JobFlow}
use job_deploy_operator.Controller.Client.{Client}
use job_deploy_operator.Controller.Trace.{Result-cases}
use job_deploy_operator.Controller.Flow.Prepare.{choose_spec, prepare_job}
use job_deploy_operator.Controller.Flow.Deploy.{
  Control-cases, deploy_flow, deploy_flows, deploy_job_flow,
}

abbrev pub names : List Flow → List Text
names flows = map (λ flow. flow.name) flows

module _ {S : Type 0} (client : Client S) (jf : JobFlow) where
  prepare_job-name :
      (flow : Flow) (job_name : Text) (s : S)
      → (prepare_job client jf flow job_name s).value.1.name ≡ flow.name
  unfolding prepare_job
  prepare_job-name flow job_name s = elim (Result-cases (choose_spec client jf flow s).value) [
    | inl (c, q) ↦ rw q (ground arith)
    | inr (e, q) ↦ rw q
  ]

  deploy_flow-name : (flow : Flow) (s : S) → (deploy_flow client jf flow s).value.1.name ≡ flow.name
  unfolding deploy_flow
  deploy_flow-name flow s =
      let prepared = prepare_job client jf flow (get_job_name jf.metadata.name flow.name) s in
      let same = prepare_job-name flow (get_job_name jf.metadata.name flow.name) s in
      elim (Result-cases prepared.value.0) [
        | inl (job, q) ↦ ground (arith, q, same)
        | inr (e, q) ↦ ground (arith, q, same)
      ]

  deploy_flows-names :
      (flows : List Flow) (s : S) → names (deploy_flows client jf flows s).value.1 ≡ names flows
  unfolding deploy_flows
  deploy_flows-names [] s = refl
  deploy_flows-names (flow ∷ flows) s =
      let same = deploy_flow-name flow s in
      let ih = deploy_flows-names flows (deploy_flow client jf flow s).state in
      elim (Control-cases (deploy_flow client jf flow s).value.0) [
        | inl q ↦ ground (arith, q, same, ih)
        | inr (inl q) ↦ ground (arith, q, same)
        | inr (inr (e, q)) ↦ ground (arith, q, same)
      ]

  -- The caller's JobFlow keeps all but what the containers of its flows hold; its flows keep their
  -- names and their number.
  pub deploy_job_flow-names :
      (s : S) → names (deploy_job_flow client jf s).value.1.spec.flows ≡ names jf.spec.flows
  unfolding deploy_job_flow
  deploy_job_flow-names s = deploy_flows-names jf.spec.flows s

  pub metadata-deploy_job_flow :
      (s : S) → (deploy_job_flow client jf s).value.1.metadata ≡ jf.metadata
  unfolding deploy_job_flow
  metadata-deploy_job_flow s = refl

  pub length-deploy_job_flow :
      (s : S) → length (deploy_job_flow client jf s).value.1.spec.flows ≡ length jf.spec.flows
  length-deploy_job_flow s =
      sym (length-map (λ flow. flow.name) (deploy_job_flow client jf s).value.1.spec.flows)
      ∙ ap length (deploy_job_flow-names s)
      ∙ length-map (λ flow. flow.name) jf.spec.flows
