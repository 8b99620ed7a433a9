-- ===== src/Listers/Found/DaemonJobs.antt =====
-- What the lister of DaemonJobs of one namespace finds.
use job_deploy_operator.Base.{Text, Lacks, List, Option, none, some, ◌≡◌, refl, ap, inl, inr}
use job_deploy_operator.Api.Kube.{Error}
use job_deploy_operator.Api.DaemonJob.{DaemonJob}
use job_deploy_operator.Listers.Indexer.{Indexer, index_key}
use job_deploy_operator.Listers.DaemonJobs.{DaemonJobLister, daemon_jobs, found_daemon_job, get}
use job_deploy_operator.Listers.Found.{IsIndexOf, IsAnswer, IsNamed-found, IsNamed-missing}

found_daemon_job-IsAnswer :
    (message : Text → Text → Text) (indexer : Indexer DaemonJob) (objects : List DaemonJob)
    → IsIndexOf (λ o. o.metadata) indexer objects
    → (namespace name : Text) → Lacks b'/' namespace
    → (answer : Option DaemonJob × Option Error)
    → indexer.get_by_key (index_key namespace name) ≡ answer
    → IsAnswer
        (λ o. o.metadata)
        answer.1
        objects
        namespace
        name
        (found_daemon_job message name answer)
found_daemon_job-IsAnswer message indexer objects index namespace name plain (obj, some e) h =
    inl refl
found_daemon_job-IsAnswer message indexer objects index namespace name plain (none, none) h =
    inr (refl, IsNamed-missing (λ o. o.metadata) indexer objects index namespace name plain h)
found_daemon_job-IsAnswer message indexer objects index namespace name plain (some o, none) h =
    IsNamed-found (λ o. o.metadata) indexer objects index namespace name plain o (ap (λ r. r.0) h)

-- If the indexer holds DaemonJobs under the keys of their namespaces and names, and namespaces have no
-- slash, then the lister of a namespace finds by a name only a DaemonJob of this namespace and name;
-- and an error is that of the indexer, or a NotFound, and then there is no such DaemonJob.
pub get_daemon_job_from_lister :
    (message : Text → Text → Text) (s : DaemonJobLister) (objects : List DaemonJob)
    (namespace name : Text)
    → IsIndexOf (λ o. o.metadata) s.indexer objects
    → Lacks b'/' namespace
    → IsAnswer
        (λ o. o.metadata)
        (s.indexer.get_by_key (index_key namespace name)).1
        objects
        namespace
        name
        (get message (daemon_jobs s namespace) name)
unfolding get
get_daemon_job_from_lister message s objects namespace name index plain =
    found_daemon_job-IsAnswer message s.indexer objects index namespace name plain
      (s.indexer.get_by_key (index_key namespace name)) refl
