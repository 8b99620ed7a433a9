-- ===== src/Clientset/DaemonJobs.antt =====
-- pkg/client/clientset/versioned/typed/daemonjob/v1alpha1/daemonjob.go: the client of DaemonJobs.
use job_deploy_operator.Base.{Text, codes, List, [], ◌∷◌, true, some}
use job_deploy_operator.Api.Kube.{Result}
use job_deploy_operator.Api.DaemonJob.{DaemonJob, DaemonJobList}
use job_deploy_operator.Clientset.Rest.{
  ListOptions, other_params, list_params, object, delete_options, bytes, get_verb, post_verb,
  put_verb, delete_verb, patch_verb, start, timeout_of, Rest,
}

pub record DaemonJobInterface (S W : Type 0) : Type 0 where
  pub create : DaemonJob → Text → S → Result DaemonJob × S
  pub update : DaemonJob → Text → S → Result DaemonJob × S
  pub update_status : DaemonJob → Text → S → Result DaemonJob × S
  pub delete : (name opts : Text) → S → Result (Unit {0}) × S
  pub delete_collection : (opts : Text) → ListOptions → S → Result (Unit {0}) × S
  pub get : (name options : Text) → S → Result DaemonJob × S
  pub list : ListOptions → S → Result DaemonJobList × S
  pub watch : ListOptions → S → Result W × S
  pub patch : (name pt content opts : Text) (subresources : List Text) → S → Result DaemonJob × S

abbrev pub resource : Text
resource = codes "daemonjobs"

-- The request of `Create`, `Update` and so on goes to `c.client` for the namespace `c.ns`.
module _ {S W : Type 0} (client : Rest S DaemonJob DaemonJobList W) (ns : Text) where
  unfoldable pub get : (name options : Text) → S → Result DaemonJob × S
  get name options =
      client.into_object
        (record (start get_verb ns resource) { name = some name; params = other_params options })

  unfoldable pub list : ListOptions → S → Result DaemonJobList × S
  list opts =
      client.into_list (record (start get_verb ns resource) {
        params = list_params opts;
        timeout = timeout_of opts;
      })

  unfoldable pub watch : ListOptions → S → Result W × S
  watch opts = client.watch (record (start get_verb ns resource) {
    params = list_params (record opts { watch = true });
    timeout = timeout_of opts;
  })

  unfoldable pub create : DaemonJob → Text → S → Result DaemonJob × S
  create daemon_job opts = client.into_object (record (start post_verb ns resource) {
    params = other_params opts;
    body = object daemon_job;
  })

  unfoldable pub update : DaemonJob → Text → S → Result DaemonJob × S
  update daemon_job opts = client.into_object (record (start put_verb ns resource) {
    name = some daemon_job.metadata.name;
    params = other_params opts;
    body = object daemon_job;
  })

  unfoldable pub update_status : DaemonJob → Text → S → Result DaemonJob × S
  update_status daemon_job opts = client.into_object (record (start put_verb ns resource) {
    name = some daemon_job.metadata.name;
    subresources = codes "status" ∷ [];
    params = other_params opts;
    body = object daemon_job;
  })

  unfoldable pub delete : (name opts : Text) → S → Result (Unit {0}) × S
  delete name opts =
      client.error
        (record (start delete_verb ns resource) { name = some name; body = delete_options opts })

  unfoldable pub delete_collection : (opts : Text) → ListOptions → S → Result (Unit {0}) × S
  delete_collection opts list_opts = client.error (record (start delete_verb ns resource) {
    params = list_params list_opts;
    timeout = timeout_of list_opts;
    body = delete_options opts;
  })

  unfoldable pub patch :
      (name pt content opts : Text) (subresources : List Text) → S → Result DaemonJob × S
  patch name pt content opts subresources =
      client.into_object (record (start (patch_verb pt) ns resource) {
        name = some name;
        subresources = subresources;
        params = other_params opts;
        body = bytes content;
      })

-- The methods of the client of one namespace.
unfoldable pub new_daemon_jobs :
    {S W : Type 0} → Rest S DaemonJob DaemonJobList W → Text → DaemonJobInterface S W
unfolding create update update_status delete delete_collection get list watch patch
new_daemon_jobs client ns = record {
  create = create client ns;
  update = update client ns;
  update_status = update_status client ns;
  delete = delete client ns;
  delete_collection = delete_collection client ns;
  get = get client ns;
  list = list client ns;
  watch = watch client ns;
  patch = patch client ns;
}
