-- ===== src/Clientset/Fake/JobFlows.antt =====
-- pkg/client/clientset/versioned/typed/jobflow/v1alpha1/fake/fake_jobflow.go: the fake client of
-- JobFlows.
use job_deploy_operator.Base.{Text, codes, List, [], select, Option, none, some}
use job_deploy_operator.Api.Kube.{Error, Result}
use job_deploy_operator.Api.JobFlow.{JobFlow, JobFlowList}
use job_deploy_operator.Clientset.Rest.{ListOptions}
use job_deploy_operator.Clientset.Testing.{
  Resource, Kind, get_action, list_action, watch_action, create_action, update_action,
  update_subresource_action, delete_action, delete_collection_action, patch_action, Selector, Fake,
  returned, with_list, error_of,
}

abbrev pub jobflows_resource : Resource
jobflows_resource = record {
  group = codes "api.practice.com";
  version = codes "v1alpha1";
  resource = codes "jobflows";
}

abbrev pub jobflows_kind : Kind
jobflows_kind = record {
  group = codes "api.practice.com";
  version = codes "v1alpha1";
  kind = codes "JobFlow";
}

-- `labels.Everything()`, where the options hold no selector.
abbrev pub or_everything : Selector → Option Selector → Selector
or_everything everything none = everything
or_everything everything (some label) = label

-- The new list has the metadata of the list and the items that match, and no type of its own.
abbrev pub matching : Selector → JobFlowList → JobFlowList
matching label all = record {
  type_meta = record { api_version = []; kind = [] };
  list_meta = all.list_meta;
  items = select (λ item. label item.metadata.labels) all.items;
}

module _ {S W : Type 0} (fake : Fake S JobFlow JobFlowList W) (ns : Text) where
  unfoldable pub get : (name options : Text) → S → (Option JobFlow × Option Error) × S
  get name options s = returned (fake.invokes (get_action jobflows_resource ns name) s)

  unfoldable pub list : ListOptions → S → (Option JobFlowList × Option Error) × S
  list opts s =
      let label = or_everything fake.everything (fake.label_of opts) in
      with_list (matching label)
        (fake.invokes_list (list_action jobflows_resource jobflows_kind ns opts) s)

  unfoldable pub watch : ListOptions → S → Result W × S
  watch opts = fake.invokes_watch (watch_action jobflows_resource ns opts)

  unfoldable pub create : JobFlow → Text → S → (Option JobFlow × Option Error) × S
  create job_flow opts s = returned (fake.invokes (create_action jobflows_resource ns job_flow) s)

  unfoldable pub update : JobFlow → Text → S → (Option JobFlow × Option Error) × S
  update job_flow opts s = returned (fake.invokes (update_action jobflows_resource ns job_flow) s)

  unfoldable pub update_status : JobFlow → Text → S → (Option JobFlow × Option Error) × S
  update_status job_flow opts s =
      returned
        (fake.invokes (update_subresource_action jobflows_resource (codes "status") ns job_flow) s)

  unfoldable pub delete : (name opts : Text) → S → Result (Unit {0}) × S
  delete name opts s = error_of (fake.invokes (delete_action jobflows_resource ns name) s)

  unfoldable pub delete_collection : (opts : Text) → ListOptions → S → Result (Unit {0}) × S
  delete_collection opts list_opts s =
      error_of (fake.invokes_list (delete_collection_action jobflows_resource ns list_opts) s)

  unfoldable pub patch :
      (name pt content opts : Text) (subresources : List Text)
      → S
      → (Option JobFlow × Option Error) × S
  patch name pt content opts subresources s =
      returned (fake.invokes (patch_action jobflows_resource ns name pt content subresources) s)
