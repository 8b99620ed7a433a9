-- ===== src/Clientset/Agree/DaemonJobs.antt =====
-- The fake client of DaemonJobs beside the client.
use job_deploy_operator.Base.{
  Text, codes, text_beq, text_eq, eq_refl, true, ◌≡◌, refl, List, Option, none, some, Bool,
  select-IsSelection, arith,
}
use job_deploy_operator.Api.Kube.{Error}
use job_deploy_operator.Api.DaemonJob.{DaemonJob, DaemonJobList}
use job_deploy_operator.Clientset.Rest.{ListOptions, Rest}
use job_deploy_operator.Clientset.Testing.{
  get_action, list_action, create_action, update_action, update_subresource_action, delete_action,
  delete_collection_action, patch_action, Fake, Selector, with_list,
}
use job_deploy_operator.Clientset.DaemonJobs
use job_deploy_operator.Clientset.Fake.DaemonJobs as FakeDaemonJobs
use job_deploy_operator.Clientset.Fake.DaemonJobs.{
  daemonjobs_resource, daemonjobs_kind, or_everything, matching,
}
use job_deploy_operator.Clientset.Agree.{
  SameObject, SameWatch, SameError, IsNarrowed, SameList, matches_labels, returned_lem,
  error_of_lem,
}

abbrev daemon_job_name : DaemonJob → Text
daemon_job_name daemon_job = daemon_job.metadata.name

or_everything-matches :
    (everything : Selector) (label : Option Selector) (daemon_job : DaemonJob)
    → or_everything everything label daemon_job.metadata.labels ≡ (elim label [
      | none ↦ everything daemon_job.metadata.labels
      | some selector ↦ selector daemon_job.metadata.labels
    ])
or_everything-matches everything none daemon_job = refl
or_everything-matches everything (some label) daemon_job = refl

with_list-IsNarrowed :
    {S : Type 0} (label : Selector) (matches : DaemonJob → Bool)
    → ((daemon_job : DaemonJob) → label daemon_job.metadata.labels ≡ matches daemon_job)
    → (answer : (Option DaemonJobList × Option Error) × S)
    → IsNarrowed daemon_job_name daemonjobs_resource daemonjobs_kind
        (λ (l : DaemonJobList). l.list_meta)
        (λ (l : DaemonJobList). l.items)
        matches
        answer
        (with_list (matching label) answer)
with_list-IsNarrowed label matches same ((none, e), s) = refl
with_list-IsNarrowed label matches same ((some l, e), s) = (
  matching label l,
  refl,
  refl,
  select-IsSelection (λ (item : DaemonJob). label item.metadata.labels)
      (λ (item : DaemonJob). matches item ≡ true)
      (λ item. (λ h. ground (arith, h, same item), λ h. ground (arith, h, same item))) l.items,
)

module _ {S W : Type 0} (client : Rest S DaemonJob DaemonJobList W)
    (fake : Fake S DaemonJob DaemonJobList W) (ns : Text) where
  -- Operation by operation.
  pub record Corresponds (name opts pt content : Text) (daemon_job : DaemonJob)
      (list_opts : ListOptions) (subresources : List Text) (s : S) : Type 0 where
    pub get :
        SameObject daemon_job_name daemonjobs_resource daemonjobs_kind client fake
          (get_action daemonjobs_resource ns name)
          s
          (DaemonJobs.get client ns name opts s)
          (FakeDaemonJobs.get fake ns name opts s)
    pub list :
        SameList daemon_job_name daemonjobs_resource daemonjobs_kind
          (λ (l : DaemonJobList). l.list_meta)
          (λ (l : DaemonJobList). l.items)
          (λ item. matches_labels fake list_opts item.metadata.labels)
          client
          fake
          ns
          list_opts
          s
          (DaemonJobs.list client ns list_opts s)
          (FakeDaemonJobs.list fake ns list_opts s)
    pub watch :
        SameWatch daemon_job_name daemonjobs_resource daemonjobs_kind client fake ns list_opts s
          (DaemonJobs.watch client ns list_opts s)
          (FakeDaemonJobs.watch fake ns list_opts s)
    pub create :
        SameObject daemon_job_name daemonjobs_resource daemonjobs_kind client fake
          (create_action daemonjobs_resource ns daemon_job)
          s
          (DaemonJobs.create client ns daemon_job opts s)
          (FakeDaemonJobs.create fake ns daemon_job opts s)
    pub update :
        SameObject daemon_job_name daemonjobs_resource daemonjobs_kind client fake
          (update_action daemonjobs_resource ns daemon_job)
          s
          (DaemonJobs.update client ns daemon_job opts s)
          (FakeDaemonJobs.update fake ns daemon_job opts s)
    pub update_status :
        SameObject daemon_job_name daemonjobs_resource daemonjobs_kind client fake
          (update_subresource_action daemonjobs_resource (codes "status") ns daemon_job)
          s
          (DaemonJobs.update_status client ns daemon_job opts s)
          (FakeDaemonJobs.update_status fake ns daemon_job opts s)
    pub delete :
        SameError daemon_job_name daemonjobs_resource daemonjobs_kind client
          (delete_action daemonjobs_resource ns name)
          (fake.invokes (delete_action daemonjobs_resource ns name) s)
          s
          (DaemonJobs.delete client ns name opts s)
          (FakeDaemonJobs.delete fake ns name opts s)
    pub delete_collection :
        SameError daemon_job_name daemonjobs_resource daemonjobs_kind client
          (delete_collection_action daemonjobs_resource ns list_opts)
          (fake.invokes_list (delete_collection_action daemonjobs_resource ns list_opts) s)
          s
          (DaemonJobs.delete_collection client ns opts list_opts s)
          (FakeDaemonJobs.delete_collection fake ns opts list_opts s)
    pub patch :
        SameObject daemon_job_name daemonjobs_resource daemonjobs_kind client fake
          (patch_action daemonjobs_resource ns name pt content subresources)
          s
          (DaemonJobs.patch client ns name pt content opts subresources s)
          (FakeDaemonJobs.patch fake ns name pt content opts subresources s)

  pub all_correspond :
      (name opts pt content : Text) (daemon_job : DaemonJob) (list_opts : ListOptions)
      (subresources : List Text) (s : S)
      → Corresponds name opts pt content daemon_job list_opts subresources s
  unfolding text_beq DaemonJobs.get DaemonJobs.list DaemonJobs.watch DaemonJobs.create
      DaemonJobs.update DaemonJobs.update_status DaemonJobs.delete DaemonJobs.delete_collection
      DaemonJobs.patch FakeDaemonJobs.get FakeDaemonJobs.list FakeDaemonJobs.watch
      FakeDaemonJobs.create FakeDaemonJobs.update FakeDaemonJobs.update_status FakeDaemonJobs.delete
      FakeDaemonJobs.delete_collection FakeDaemonJobs.patch
  all_correspond name opts pt content daemon_job list_opts subresources s =
      let named = eq_refl {A = Text} daemon_job.metadata.name in
      record {
        get =
            (_, refl, refl, returned_lem (fake.invokes (get_action daemonjobs_resource ns name) s));
        list = (
          _,
          refl,
          refl,
          with_list-IsNarrowed (or_everything fake.everything (fake.label_of list_opts))
              (λ item. matches_labels fake list_opts item.metadata.labels)
              (or_everything-matches fake.everything (fake.label_of list_opts))
              (fake.invokes_list (list_action daemonjobs_resource daemonjobs_kind ns list_opts) s),
        );
        watch = (_, refl, refl, refl);
        create = (
          _,
          refl,
          refl,
          returned_lem (fake.invokes (create_action daemonjobs_resource ns daemon_job) s),
        );
        update = (
          _,
          rw named refl,
          refl,
          returned_lem (fake.invokes (update_action daemonjobs_resource ns daemon_job) s),
        );
        update_status = (
          _,
          rw named refl,
          refl,
          returned_lem (
              fake.invokes
                (update_subresource_action daemonjobs_resource (codes "status") ns daemon_job) s),
        );
        delete = (
          _,
          refl,
          refl,
          error_of_lem (fake.invokes (delete_action daemonjobs_resource ns name) s),
        );
        delete_collection = (
          _,
          refl,
          refl,
          error_of_lem
              (fake.invokes_list (delete_collection_action daemonjobs_resource ns list_opts) s),
        );
        patch = (
          _,
          refl,
          refl,
          returned_lem
              (fake.invokes (patch_action daemonjobs_resource ns name pt content subresources) s),
        );
      }
