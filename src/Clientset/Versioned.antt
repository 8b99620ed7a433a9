-- ===== src/Clientset/Versioned.antt =====
-- pkg/client/clientset/versioned/clientset.go: the clientset and its construction.
pub mod Limits
use job_deploy_operator.Base.{
  Text, codes, Bool, true, false, ◌&&◌, Option, none, some, if◌then◌else◌,
}
use job_deploy_operator.Api.Kube.{Error, other, Result, ok, err}
use job_deploy_operator.Clientset.Config.{◌>>=◌, not_positive, Config, ClientGo}
use job_deploy_operator.Clientset.Groups.JobFlows.{
  ApiV1alpha1Client, new_for_config as new_group_for_config,
  new_for_config_or_die as new_group_for_config_or_die, new as new_group,
}

pub record Clientset (R D : Type 0) : Type 0 where
  pub discovery_client : D
  pub api_v1alpha1 : ApiV1alpha1Client R

unfoldable pub api_v1alpha1 : {R D : Type 0} → Clientset R D → ApiV1alpha1Client R
api_v1alpha1 c = c.api_v1alpha1

-- The discovery client of a pointer that may be nil.
unfoldable pub discovery : {R D : Type 0} → Option (Clientset R D) → Option D
discovery none = none
discovery (some c) = some c.discovery_client

abbrev pub burst_required : Error
burst_required = record {
  reason = other;
  message =
      codes
        "burst is required to be greater than 0 when RateLimiter is not set and QPS is set to greater than 0";
}

module _ {Q L K R D : Type 0} (client_go : ClientGo Q L K R D) where
  -- The copy of the configuration, with a rate limiter of its own if it needs one.
  unfoldable pub with_rate_limiter : Config Q L K → Result (Config Q L K)
  with_rate_limiter c = elim c.rate_limiter [
    | some limiter ↦ ok c
    | none ↦
        if client_go.positive c.qps
        then (if not_positive c.burst
            then err burst_required
            else ok (record c {
              rate_limiter = some (client_go.new_token_bucket_rate_limiter c.qps c.burst);
            }))
        else ok c
  ]

  unfoldable pub new_for_config : Config Q L K → Result (Clientset R D)
  unfolding with_rate_limiter
  new_for_config c = do
    copy ← with_rate_limiter c
    api ← new_group_for_config client_go copy
    discovery_client ← client_go.new_discovery_client_for_config copy
    ok (record { discovery_client = discovery_client; api_v1alpha1 = api })

  -- `none` is a panic.
  unfoldable pub new_for_config_or_die : Config Q L K → Option (Clientset R D)
  new_for_config_or_die c = elim (new_group_for_config_or_die client_go c) [
    | none ↦ none
    | some api ↦ elim (client_go.new_discovery_client_for_config_or_die c) [
      | none ↦ none
      | some d ↦ some (record { discovery_client = d; api_v1alpha1 = api })
    ]
  ]

  unfoldable pub new : R → Clientset R D
  new c = record { discovery_client = client_go.new_discovery_client c; api_v1alpha1 = new_group c }
