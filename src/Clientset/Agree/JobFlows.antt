-- ===== src/Clientset/Agree/JobFlows.antt =====
-- The fake client of JobFlows beside the client.
use job_deploy_operator.Base.{
  Text, codes, text_beq, text_eq, eq_refl, true, ◌≡◌, refl, List, Option, none, some, Bool,
  select-IsSelection, arith,
}
use job_deploy_operator.Api.Kube.{Error}
use job_deploy_operator.Api.JobFlow.{JobFlow, JobFlowList}
use job_deploy_operator.Clientset.Rest.{ListOptions, Rest}
use job_deploy_operator.Clientset.Testing.{
  get_action, list_action, create_action, update_action, update_subresource_action, delete_action,
  delete_collection_action, patch_action, Fake, Selector, with_list,
}
use job_deploy_operator.Clientset.JobFlows
use job_deploy_operator.Clientset.Fake.JobFlows as FakeJobFlows
use job_deploy_operator.Clientset.Fake.JobFlows.{
  jobflows_resource, jobflows_kind, or_everything, matching,
}
use job_deploy_operator.Clientset.Agree.{
  SameObject, SameWatch, SameError, IsNarrowed, SameList, matches_labels, returned_lem,
  error_of_lem,
}

abbrev job_flow_name : JobFlow → Text
job_flow_name job_flow = job_flow.metadata.name

or_everything-matches :
    (everything : Selector) (label : Option Selector) (job_flow : JobFlow)
    → or_everything everything label job_flow.metadata.labels ≡ (elim label [
      | none ↦ everything job_flow.metadata.labels
      | some selector ↦ selector job_flow.metadata.labels
    ])
or_everything-matches everything none job_flow = refl
or_everything-matches everything (some label) job_flow = refl

with_list-IsNarrowed :
    {S : Type 0} (label : Selector) (matches : JobFlow → Bool)
    → ((job_flow : JobFlow) → label job_flow.metadata.labels ≡ matches job_flow)
    → (answer : (Option JobFlowList × Option Error) × S)
    → IsNarrowed job_flow_name jobflows_resource jobflows_kind
        (λ (l : JobFlowList). l.list_meta)
        (λ (l : JobFlowList). l.items)
        matches
        answer
        (with_list (matching label) answer)
with_list-IsNarrowed label matches same ((none, e), s) = refl
with_list-IsNarrowed label matches same ((some l, e), s) = (
  matching label l,
  refl,
  refl,
  select-IsSelection (λ (item : JobFlow). label item.metadata.labels)
      (λ (item : JobFlow). matches item ≡ true)
      (λ item. (λ h. ground (arith, h, same item), λ h. ground (arith, h, same item))) l.items,
)

module _ {S W : Type 0} (client : Rest S JobFlow JobFlowList W)
    (fake : Fake S JobFlow JobFlowList W) (ns : Text) where
  -- Operation by operation.
  pub record Corresponds (name opts pt content : Text) (job_flow : JobFlow)
      (list_opts : ListOptions) (subresources : List Text) (s : S) : Type 0 where
    pub get :
        SameObject job_flow_name jobflows_resource jobflows_kind client fake
          (get_action jobflows_resource ns name)
          s
          (JobFlows.get client ns name opts s)
          (FakeJobFlows.get fake ns name opts s)
    pub list :
        SameList job_flow_name jobflows_resource jobflows_kind
          (λ (l : JobFlowList). l.list_meta)
          (λ (l : JobFlowList). l.items)
          (λ item. matches_labels fake list_opts item.metadata.labels)
          client
          fake
          ns
          list_opts
          s
          (JobFlows.list client ns list_opts s)
          (FakeJobFlows.list fake ns list_opts s)
    pub watch :
        SameWatch job_flow_name jobflows_resource jobflows_kind client fake ns list_opts s
          (JobFlows.watch client ns list_opts s)
          (FakeJobFlows.watch fake ns list_opts s)
    pub create :
        SameObject job_flow_name jobflows_resource jobflows_kind client fake
          (create_action jobflows_resource ns job_flow)
          s
          (JobFlows.create client ns job_flow opts s)
          (FakeJobFlows.create fake ns job_flow opts s)
    pub update :
        SameObject job_flow_name jobflows_resource jobflows_kind client fake
          (update_action jobflows_resource ns job_flow)
          s
          (JobFlows.update client ns job_flow opts s)
          (FakeJobFlows.update fake ns job_flow opts s)
    pub update_status :
        SameObject job_flow_name jobflows_resource jobflows_kind client fake
          (update_subresource_action jobflows_resource (codes "status") ns job_flow)
          s
          (JobFlows.update_status client ns job_flow opts s)
          (FakeJobFlows.update_status fake ns job_flow opts s)
    pub delete :
        SameError job_flow_name jobflows_resource jobflows_kind client
          (delete_action jobflows_resource ns name)
          (fake.invokes (delete_action jobflows_resource ns name) s)
          s
          (JobFlows.delete client ns name opts s)
          (FakeJobFlows.delete fake ns name opts s)
    pub delete_collection :
        SameError job_flow_name jobflows_resource jobflows_kind client
          (delete_collection_action jobflows_resource ns list_opts)
          (fake.invokes_list (delete_collection_action jobflows_resource ns list_opts) s)
          s
          (JobFlows.delete_collection client ns opts list_opts s)
          (FakeJobFlows.delete_collection fake ns opts list_opts s)
    pub patch :
        SameObject job_flow_name jobflows_resource jobflows_kind client fake
          (patch_action jobflows_resource ns name pt content subresources)
          s
          (JobFlows.patch client ns name pt content opts subresources s)
          (FakeJobFlows.patch fake ns name pt content opts subresources s)

  pub all_correspond :
      (name opts pt content : Text) (job_flow : JobFlow) (list_opts : ListOptions)
      (subresources : List Text) (s : S)
      → Corresponds name opts pt content job_flow list_opts subresources s
  unfolding text_beq JobFlows.get JobFlows.list JobFlows.watch JobFlows.create JobFlows.update
      JobFlows.update_status JobFlows.delete JobFlows.delete_collection JobFlows.patch
      FakeJobFlows.get FakeJobFlows.list FakeJobFlows.watch FakeJobFlows.create FakeJobFlows.update
      FakeJobFlows.update_status FakeJobFlows.delete FakeJobFlows.delete_collection
      FakeJobFlows.patch
  all_correspond name opts pt content job_flow list_opts subresources s =
      let named = eq_refl {A = Text} job_flow.metadata.name in
      record {
        get = (_, refl, refl, returned_lem (fake.invokes (get_action jobflows_resource ns name) s));
        list = (
          _,
          refl,
          refl,
          with_list-IsNarrowed (or_everything fake.everything (fake.label_of list_opts))
              (λ item. matches_labels fake list_opts item.metadata.labels)
              (or_everything-matches fake.everything (fake.label_of list_opts))
              (fake.invokes_list (list_action jobflows_resource jobflows_kind ns list_opts) s),
        );
        watch = (_, refl, refl, refl);
        create = (
          _,
          refl,
          refl,
          returned_lem (fake.invokes (create_action jobflows_resource ns job_flow) s),
        );
        update = (
          _,
          rw named refl,
          refl,
          returned_lem (fake.invokes (update_action jobflows_resource ns job_flow) s),
        );
        update_status = (
          _,
          rw named refl,
          refl,
          returned_lem (
              fake.invokes
                (update_subresource_action jobflows_resource (codes "status") ns job_flow) s),
        );
        delete = (
          _,
          refl,
          refl,
          error_of_lem (fake.invokes (delete_action jobflows_resource ns name) s),
        );
        delete_collection = (
          _,
          refl,
          refl,
          error_of_lem
              (fake.invokes_list (delete_collection_action jobflows_resource ns list_opts) s),
        );
        patch = (
          _,
          refl,
          refl,
          returned_lem
              (fake.invokes (patch_action jobflows_resource ns name pt content subresources) s),
        );
      }
