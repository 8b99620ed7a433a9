-- ===== src/Lib.antt =====
-- The JobFlow operator: three Kubernetes controllers over custom resources. A JobFlow is a list of
-- flows with dependencies; its controller creates the job of a flow once the jobs of its dependencies
-- have succeeded, and keeps a summary of all its jobs in the status. A DaemonJob asks for one job per
-- node, less an exclusion list. A JobTemplate is a job specification that flows name; its controller
-- lists the jobs that were made from it. The controllers share nothing but the cluster: each reads
-- and writes it through a client, and is run again by the events of jobs.
--
-- The files and the code
--   Base            shared helpers: Go strings as lists of bytes with the functions of `strings` and
--                   `sort` that are used (Base.Strings, Base.Split), maps as association lists
--                   (Base.Maps), lists and counts (Base.Lists), Boolean tests (Base.Tests).
--   Api             pkg/apis/jobflow, pkg/apis/daemonjob and pkg/apis/jobTemplate: types.go and the
--                   register.go (Api.JobFlow, Api.DaemonJob, Api.JobTemplate). Api.Scheme has the names
--                   of kinds and resources and what is asked of a scheme. Api.Kube
--                   has the fields of the Kubernetes objects that the source reads or writes; what it
--                   only carries along is one opaque field `rest`.
--   Controller      pkg/controller.
--     Client        the client and the recorder that the controllers hold, as a parameter: a record
--                   of functions over an unknown state. An action passes this state on and lists the
--                   calls that it made, with their answers.
--     Common        pkg/common/common.go, and the names that are composed in pkg/controller/helper.go.
--     Tally         the loops of getAllJobStatus (helper.go) and getAllJobStatusFromDaemonJob
--                   (daemonjob_controller.go) that choose and count the jobs of an owner.
--     Trace         what a list of calls shows about the calls before each call.
--     Flow          helper.go and jobflow_controller.go: Prepare (prepareJob and
--                   findJobTemplateByNameNamespace), Deploy (deployJobFlow), Status (getAllJobStatus,
--                   updateJobFlowStatus), Reconcile (Reconcile), Watch (the two handlers), and
--                   Passes (many passes of deployJobFlow and of Reconcile, as
--                   step relations).
--     Daemon        daemonjob_controller.go: Nodes (splitString, isJumpOverNode), Deploy
--                   (deployDaemonJob, prepareJobFromDaemonJob), Status
--                   (getAllJobStatusFromDaemonJob, updateJobFlowStatus), Reconcile, Watch.
--                   Deploy.Asks has the passes over time as a step relation.
--     Template      jobflow_template_controller.go: Status (updateJobTemplateStatus, Reconcile),
--                   Watch (the three handlers).
--   Clientset       pkg/client/clientset/versioned/typed/*/v1alpha1: the generated clients
--                   (Clientset.JobFlows, .DaemonJobs, .JobTemplates) and their fakes
--                   (Clientset.Fake); Rest and Testing have the interfaces of client-go that they
--                   use, as parameters, and Agree the action that a request asks for. Groups has the
--                   *_client.go, Versioned the clientset.go, and Config what they ask of client-go.
--                   Schemes has the scheme/register.go and fake/register.go, and Fake.Simple the
--                   fake/clientset_generated.go.
--   Listers         pkg/client/listers: the generated listers of the three types, over an indexer of
--                   client-go; Found has what they find.
--   Informers       pkg/client/informers/externalversions: Factory (factory.go), one module for each
--                   type (its informer, version and group), Generic (generic.go), and Cache, what
--                   they ask of client-go. A history of a factory is a list of steps (Shared).
--   Copies          pkg/apis/*/v1alpha1/zz_generated.deepcopy.go: the deep copies of the three types,
--                   on values that show the addresses of their slices, maps and pointers. Deep has
--                   what is asked of a copy, External the copies of the Kubernetes types.
--   Program         main.go: which handlers run for which event of a job, and the set-up and the
--                   end of the program (Main); and
--                   pkg/k8sconfig/init_k8s_config.go with GetWd of pkg/common/common.go.
--   Tests           a cluster in memory, and the theorems at concrete inputs.
-- Below these, a child module is named for what is proved in it.
--
-- How the code is modelled
--   The client has no law: a theorem that names no assumption on it speaks of every answer, and so of
--   every other writer in the cluster. Some theorems name ReadsOnly (reading a job leaves the state as
--   it is), IsStore of Flow.Passes (the same for templates, and a creation touches one key only), or
--   IsAnswering of Flow.Passes.Answers (also: a created job is there), or
--   IsCluster of Flow.Passes.Cluster (also: listing jobs and writing a status leave the jobs).
--   `Get` replaces its object as a whole when it succeeds, and the sources read the object of a failed
--   `Get` only for the empty object of an event.
--   An error is a reason, as the predicates of `errors` read it, and a message. A nil map or slice is
--   `none` where the code tells it from an empty one. The order of a loop over a map is that of the
--   association list.
--   A job's specification is copied from its flow or DaemonJob, but the slice of its containers is
--   shared: what is written there is written back into the JobFlow or DaemonJob (write_back).
--   A method of the informer factory holds its lock from start to end, and is one step; between the
--   steps anything may happen to the rest of the process. A deep copy is a function of the original
--   and of the next free address; the original cannot change. The memory of a value is the addresses
--   of its slices, maps and pointers; strings are not copied.
--   Counters are natural numbers: the code compares them with constants only, and the cluster keeps
--   them in int32. Loops are structural recursion over the list that is ranged over, so that no fuel
--   is needed. Panics are values (`none`).
--
-- What is left out
--   The second of sleep before each read, klog and the context, which change nothing that is read.
--   Finalizers, which the code does not handle. The flags and loggers that init of main.go sets.
pub mod Base
pub mod Api
pub mod Clientset
pub mod Listers
pub mod Copies
pub mod Informers
pub mod Controller
pub mod Program
pub mod Tests
