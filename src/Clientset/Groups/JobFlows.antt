-- ===== src/Clientset/Groups/JobFlows.antt =====
-- pkg/client/clientset/versioned/typed/jobflow/v1alpha1/jobflow_client.go: the client of the group.
use job_deploy_operator.Base.{Text, codes, text_eq, [], Option, none, some, ◌==◌, if◌then◌else◌}
use job_deploy_operator.Api.Kube.{Result, ok, err}
use job_deploy_operator.Api.JobFlow.{JobFlow, JobFlowList}
use job_deploy_operator.Api.JobFlow.Register.{scheme_group_version}
use job_deploy_operator.Clientset.Rest.{Rest}
use job_deploy_operator.Clientset.Config.{Config, ClientGo}
use job_deploy_operator.Clientset.JobFlows.{JobFlowInterface, new_job_flows}

pub record ApiV1alpha1Client (R : Type 0) : Type 0 where
  pub rest_client : R

-- The REST client of a pointer that may be nil.
unfoldable pub rest_client : {R : Type 0} → Option (ApiV1alpha1Client R) → Option R
rest_client none = none
rest_client (some c) = some c.rest_client

unfoldable pub job_flows :
    {S W : Type 0} → ApiV1alpha1Client (Rest S JobFlow JobFlowList W) → Text → JobFlowInterface S W
job_flows c namespace = new_job_flows c.rest_client namespace

module _ {Q L K R D : Type 0} (client_go : ClientGo Q L K R D) where
  -- It never returns an error.
  unfoldable pub set_config_defaults : Config Q L K → Config Q L K
  set_config_defaults config = record config {
    group_version = some scheme_group_version;
    api_path = codes "/apis";
    negotiated_serializer = some client_go.codecs_without_conversion;
    user_agent =
        if config.user_agent == []
        then client_go.default_kubernetes_user_agent
        else config.user_agent;
  }

  unfoldable pub new_for_config : Config Q L K → Result (ApiV1alpha1Client R)
  unfolding set_config_defaults
  new_for_config c = elim (client_go.rest_client_for (set_config_defaults c)) [
    | ok client ↦ ok (record { rest_client = client })
    | err e ↦ err e
  ]

  -- `none` is a panic.
  unfoldable pub new_for_config_or_die : Config Q L K → Option (ApiV1alpha1Client R)
  unfolding new_for_config
  new_for_config_or_die c = elim (new_for_config c) [ ok client ↦ some client | err e ↦ none ]

unfoldable pub new : {R : Type 0} → R → ApiV1alpha1Client R
new c = record { rest_client = c }
