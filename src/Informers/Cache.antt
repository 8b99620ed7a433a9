-- ===== src/Informers/Cache.antt =====
-- The interface of k8s.io/client-go/tools/cache, as the generated informers use it. What an informer
-- is stays open: the code holds it by reference, makes it, runs it, waits for it and asks for its
-- indexer.
use job_deploy_operator.Base.{ℕ, Text, GoMap, Option, none, some}
use job_deploy_operator.Api.Kube.{Result}
use job_deploy_operator.Clientset.Rest.{ListOptions}
use job_deploy_operator.Listers.Indexer.{Indexer}

pub record ListWatch (S L W : Type 0) : Type 0 where
  pub list_func : ListOptions → S → Result L × S
  pub watch_func : ListOptions → S → Result W × S

-- `cache.Indexers`: index functions by name.
abbrev pub Indexers : Type 0 → Type 0
Indexers F = GoMap F

-- The informers `I` of objects `A`, and the index functions `F`.
pub record Cache (S A L W I F : Type 0) : Type 0 where
  pub new_shared_index_informer : ListWatch S L W → Text → ℕ → Indexers F → S → I × S
  pub get_indexer : I → Indexer A
  pub namespace_index : Text
  pub meta_namespace_index_func : F

-- `internalinterfaces.TweakListOptionsFunc`: it changes the options that it is given a pointer to.
abbrev pub TweakListOptionsFunc : Type 0
TweakListOptionsFunc = ListOptions → ListOptions

-- `if tweakListOptions != nil { tweakListOptions(&options) }`
abbrev pub tweaked : Option TweakListOptionsFunc → ListOptions → ListOptions
tweaked none options = options
tweaked (some tweak) options = tweak options
