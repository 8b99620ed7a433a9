-- ===== src/Clientset/Agree/JobTemplates.antt =====
-- The fake client of JobTemplates beside the client.
use job_deploy_operator.Base.{
  Text, codes, text_beq, text_eq, eq_refl, true, ◌≡◌, refl, List, Option, none, some, Bool,
  select-IsSelection, arith,
}
use job_deploy_operator.Api.Kube.{Error}
use job_deploy_operator.Api.JobTemplate.{JobTemplate, JobTemplateList}
use job_deploy_operator.Clientset.Rest.{ListOptions, Rest}
use job_deploy_operator.Clientset.Testing.{
  get_action, list_action, create_action, update_action, update_subresource_action, delete_action,
  delete_collection_action, patch_action, Fake, Selector, with_list,
}
use job_deploy_operator.Clientset.JobTemplates
use job_deploy_operator.Clientset.Fake.JobTemplates as FakeJobTemplates
use job_deploy_operator.Clientset.Fake.JobTemplates.{
  jobtemplates_resource, jobtemplates_kind, or_everything, matching,
}
use job_deploy_operator.Clientset.Agree.{
  SameObject, SameWatch, SameError, IsNarrowed, SameList, matches_labels, returned_lem,
  error_of_lem,
}

abbrev job_template_name : JobTemplate → Text
job_template_name job_template = job_template.metadata.name

or_everything-matches :
    (everything : Selector) (label : Option Selector) (job_template : JobTemplate)
    → or_everything everything label job_template.metadata.labels ≡ (elim label [
      | none ↦ everything job_template.metadata.labels
      | some selector ↦ selector job_template.metadata.labels
    ])
or_everything-matches everything none job_template = refl
or_everything-matches everything (some label) job_template = refl

with_list-IsNarrowed :
    {S : Type 0} (label : Selector) (matches : JobTemplate → Bool)
    → ((job_template : JobTemplate) → label job_template.metadata.labels ≡ matches job_template)
    → (answer : (Option JobTemplateList × Option Error) × S)
    → IsNarrowed job_template_name jobtemplates_resource jobtemplates_kind
        (λ (l : JobTemplateList). l.list_meta)
        (λ (l : JobTemplateList). l.items)
        matches
        answer
        (with_list (matching label) answer)
with_list-IsNarrowed label matches same ((none, e), s) = refl
with_list-IsNarrowed label matches same ((some l, e), s) = (
  matching label l,
  refl,
  refl,
  select-IsSelection (λ (item : JobTemplate). label item.metadata.labels)
      (λ (item : JobTemplate). matches item ≡ true)
      (λ item. (λ h. ground (arith, h, same item), λ h. ground (arith, h, same item))) l.items,
)

module _ {S W : Type 0} (client : Rest S JobTemplate JobTemplateList W)
    (fake : Fake S JobTemplate JobTemplateList W) (ns : Text) where
  -- Operation by operation.
  pub record Corresponds (name opts pt content : Text) (job_template : JobTemplate)
      (list_opts : ListOptions) (subresources : List Text) (s : S) : Type 0 where
    pub get :
        SameObject job_template_name jobtemplates_resource jobtemplates_kind client fake
          (get_action jobtemplates_resource ns name)
          s
          (JobTemplates.get client ns name opts s)
          (FakeJobTemplates.get fake ns name opts s)
    pub list :
        SameList job_template_name jobtemplates_resource jobtemplates_kind
          (λ (l : JobTemplateList). l.list_meta)
          (λ (l : JobTemplateList). l.items)
          (λ item. matches_labels fake list_opts item.metadata.labels)
          client
          fake
          ns
          list_opts
          s
          (JobTemplates.list client ns list_opts s)
          (FakeJobTemplates.list fake ns list_opts s)
    pub watch :
        SameWatch job_template_name jobtemplates_resource jobtemplates_kind client fake ns list_opts
          s
          (JobTemplates.watch client ns list_opts s)
          (FakeJobTemplates.watch fake ns list_opts s)
    pub create :
        SameObject job_template_name jobtemplates_resource jobtemplates_kind client fake
          (create_action jobtemplates_resource ns job_template)
          s
          (JobTemplates.create client ns job_template opts s)
          (FakeJobTemplates.create fake ns job_template opts s)
    pub update :
        SameObject job_template_name jobtemplates_resource jobtemplates_kind client fake
          (update_action jobtemplates_resource ns job_template)
          s
          (JobTemplates.update client ns job_template opts s)
          (FakeJobTemplates.update fake ns job_template opts s)
    pub update_status :
        SameObject job_template_name jobtemplates_resource jobtemplates_kind client fake
          (update_subresource_action jobtemplates_resource (codes "status") ns job_template)
          s
          (JobTemplates.update_status client ns job_template opts s)
          (FakeJobTemplates.update_status fake ns job_template opts s)
    pub delete :
        SameError job_template_name jobtemplates_resource jobtemplates_kind client
          (delete_action jobtemplates_resource ns name)
          (fake.invokes (delete_action jobtemplates_resource ns name) s)
          s
          (JobTemplates.delete client ns name opts s)
          (FakeJobTemplates.delete fake ns name opts s)
    pub delete_collection :
        SameError job_template_name jobtemplates_resource jobtemplates_kind client
          (delete_collection_action jobtemplates_resource ns list_opts)
          (fake.invokes_list (delete_collection_action jobtemplates_resource ns list_opts) s)
          s
          (JobTemplates.delete_collection client ns opts list_opts s)
          (FakeJobTemplates.delete_collection fake ns opts list_opts s)
    pub patch :
        SameObject job_template_name jobtemplates_resource jobtemplates_kind client fake
          (patch_action jobtemplates_resource ns name pt content subresources)
          s
          (JobTemplates.patch client ns name pt content opts subresources s)
          (FakeJobTemplates.patch fake ns name pt content opts subresources s)

  pub all_correspond :
      (name opts pt content : Text) (job_template : JobTemplate) (list_opts : ListOptions)
      (subresources : List Text) (s : S)
      → Corresponds name opts pt content job_template list_opts subresources s
  unfolding text_beq JobTemplates.get JobTemplates.list JobTemplates.watch JobTemplates.create
      JobTemplates.update JobTemplates.update_status JobTemplates.delete
      JobTemplates.delete_collection JobTemplates.patch FakeJobTemplates.get FakeJobTemplates.list
      FakeJobTemplates.watch FakeJobTemplates.create FakeJobTemplates.update
      FakeJobTemplates.update_status FakeJobTemplates.delete FakeJobTemplates.delete_collection
      FakeJobTemplates.patch
  all_correspond name opts pt content job_template list_opts subresources s =
      let named = eq_refl {A = Text} job_template.metadata.name in
      record {
        get = (
          _,
          refl,
          refl,
          returned_lem (fake.invokes (get_action jobtemplates_resource ns name) s),
        );
        list = (
          _,
          refl,
          refl,
          with_list-IsNarrowed (or_everything fake.everything (fake.label_of list_opts))
              (λ item. matches_labels fake list_opts item.metadata.labels)
              (or_everything-matches fake.everything (fake.label_of list_opts))
              (fake.invokes_list (list_action jobtemplates_resource jobtemplates_kind ns list_opts)
                s),
        );
        watch = (_, refl, refl, refl);
        create = (
          _,
          refl,
          refl,
          returned_lem (fake.invokes (create_action jobtemplates_resource ns job_template) s),
        );
        update = (
          _,
          rw named refl,
          refl,
          returned_lem (fake.invokes (update_action jobtemplates_resource ns job_template) s),
        );
        update_status = (
          _,
          rw named refl,
          refl,
          returned_lem (
              fake.invokes
                (update_subresource_action jobtemplates_resource (codes "status") ns job_template)
                s),
        );
        delete = (
          _,
          refl,
          refl,
          error_of_lem (fake.invokes (delete_action jobtemplates_resource ns name) s),
        );
        delete_collection = (
          _,
          refl,
          refl,
          error_of_lem
              (fake.invokes_list (delete_collection_action jobtemplates_resource ns list_opts) s),
        );
        patch = (
          _,
          refl,
          refl,
          returned_lem
              (fake.invokes (patch_action jobtemplates_resource ns name pt content subresources) s),
        );
      }
