-- ===== src/Listers/Indexer.antt =====
-- `cache.Indexer` of client-go, as the generated listers use it. `ListAll` and `ListAllByNamespace`
-- call their last argument on every object that they select; here they return these objects.
use job_deploy_operator.Base.{Text, codes, ◌++◌, List, Option}
use job_deploy_operator.Api.Kube.{Error, not_found}
use job_deploy_operator.Clientset.Testing.{Selector}

pub record Indexer (A : Type 0) : Type 0 where
  pub list_all : Selector → List A × Option Error
  pub list_all_by_namespace : Text → Selector → List A × Option Error
  -- The object under the key, if there is one, or an error.
  pub get_by_key : Text → Option A × Option Error

-- The key of `GetByKey`: `s.namespace + "/" + name`.
unfoldable pub index_key : Text → Text → Text
index_key namespace name = namespace ++ codes "/" ++ name

-- `errors.NewNotFound` of a resource and a name; its message is left open.
abbrev pub new_not_found : (message : Text → Text → Text) → Text → Text → Error
new_not_found message resource name = record { reason = not_found; message = message resource name }
