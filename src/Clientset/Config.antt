-- ===== src/Clientset/Config.antt =====
-- k8s.io/client-go/rest, discovery and util/flowcontrol, as the generated clientset calls them. `Q`
-- are the numbers of the field `QPS`, `L` rate limiters, `K` serializers, `R` REST clients and `D`
-- discovery clients.
use job_deploy_operator.Base.{ℕ, zero, suc, Text, Bool, true, false, Option}
use job_deploy_operator.Api.Kube.{Result, ok, err}
use job_deploy_operator.Api.Scheme.{GroupVersion}

-- `if err != nil { return nil, err }`
infixl 5 ◌>>=◌
abbrev pub ◌>>=◌ : {A B : Type 0} → Result A → (A → Result B) → Result B
ok a >>= f = f a
err e >>= f = err e

-- A number of the type `int`.
pub data ℤ : Type 0 where
  pos negsuc : ℕ → ℤ

-- `n <= 0`
abbrev pub not_positive : ℤ → Bool
not_positive (pos zero) = true
not_positive (pos (suc n)) = false
not_positive (negsuc n) = true

-- `rest.Config`: the fields that are read or set, and the rest.
pub record Config (Q L K : Type 0) : Type 0 where
  pub group_version : Option GroupVersion
  pub api_path : Text
  pub negotiated_serializer : Option K
  pub user_agent : Text
  pub rate_limiter : Option L
  pub qps : Q
  pub burst : ℤ
  pub rest : Text

pub record ClientGo (Q L K R D : Type 0) : Type 0 where
  -- `qps > 0`
  pub positive : Q → Bool
  pub new_token_bucket_rate_limiter : Q → ℤ → L
  pub default_kubernetes_user_agent : Text
  -- `scheme.Codecs.WithoutConversion()`
  pub codecs_without_conversion : K
  pub rest_client_for : Config Q L K → Result R
  pub new_discovery_client_for_config : Config Q L K → Result D
  -- `none` is a panic.
  pub new_discovery_client_for_config_or_die : Config Q L K → Option D
  pub new_discovery_client : R → D
