-- ===== src/Tests/Clientsets.antt =====
-- A configuration with a rate and a burst, where a REST client is its user agent and its rate
-- limiter, and a discovery client is its rate limiter.
use job_deploy_operator.Base.{ℕ, Text, text_beq, codes, ltb, ◌≡◌, refl, Option, none, some, [], inr}
use job_deploy_operator.Api.Kube.{ok}
use job_deploy_operator.Clientset.Config.{ℤ, pos, Config, ClientGo}
use job_deploy_operator.Clientset.Groups.JobFlows.{set_config_defaults}
use job_deploy_operator.Clientset.Versioned.{Clientset, new_for_config}
use job_deploy_operator.Clientset.Versioned.Limits.{IsMade, new_for_config_iff}

abbrev client_go : ClientGo ℕ (ℕ × ℤ) (Unit {0}) (Text × Option (ℕ × ℤ)) (Option (ℕ × ℤ))
client_go = record {
  positive = λ qps. ltb 0 qps;
  new_token_bucket_rate_limiter = λ qps burst. (qps, burst);
  default_kubernetes_user_agent = codes "operator";
  codecs_without_conversion = tt;
  rest_client_for = λ c. ok (c.user_agent, c.rate_limiter);
  new_discovery_client_for_config = λ c. ok c.rate_limiter;
  new_discovery_client_for_config_or_die = λ c. some c.rate_limiter;
  new_discovery_client = λ r. r.1;
}

abbrev config : Option (ℕ × ℤ) → Config ℕ (ℕ × ℤ) (Unit {0})
config limiter = record {
  group_version = none;
  api_path = [];
  negotiated_serializer = none;
  user_agent = [];
  rate_limiter = limiter;
  qps = 5;
  burst = pos 10;
  rest = [];
}

abbrev clients : Clientset (Text × Option (ℕ × ℤ)) (Option (ℕ × ℤ))
clients = record {
  discovery_client = some (5, pos 10);
  api_v1alpha1 = record { rest_client = (codes "operator", some (5, pos 10)) };
}

new_for_config_iff_example : new_for_config client_go (config none) ≡ ok clients
unfolding IsMade set_config_defaults text_beq
new_for_config_iff_example =
    (new_for_config_iff client_go (config none) clients).1
      (config (some (5, pos 10)), (refl, inr (refl, inr (refl, 9, refl, refl))), refl, refl)
