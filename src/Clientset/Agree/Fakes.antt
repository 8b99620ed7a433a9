-- ===== src/Clientset/Agree/Fakes.antt =====
-- The fake clients of the three types beside the clients.
use job_deploy_operator.Base.{Text, List}
use job_deploy_operator.Api.JobFlow.{JobFlow, JobFlowList}
use job_deploy_operator.Api.DaemonJob.{DaemonJob, DaemonJobList}
use job_deploy_operator.Api.JobTemplate.{JobTemplate, JobTemplateList}
use job_deploy_operator.Clientset.Rest.{ListOptions, Rest}
use job_deploy_operator.Clientset.Testing.{Fake}
use job_deploy_operator.Clientset.Agree.JobFlows as JobFlows
use job_deploy_operator.Clientset.Agree.DaemonJobs as DaemonJobs
use job_deploy_operator.Clientset.Agree.JobTemplates as JobTemplates

-- For each of the three types and each operation, whatever a server and a fake answer: the client
-- sends one request for the resource, in the namespace; the fake records one action; the request, by
-- its verb, name, subresources, options and body, asks for just this action (an update, for the name
-- of its object; a watch, by the flag of a list); and the client returns the answer as it is. So does
-- the fake, but for these: of a deletion it returns only the error; and of a list it returns, with
-- the metadata of the list, the items whose labels match the selector of the options (or all labels,
-- without one), in order.
pub fakes_correspond :
    {S W : Type 0} (flow_client : Rest S JobFlow JobFlowList W)
    (flow_fake : Fake S JobFlow JobFlowList W) (daemon_client : Rest S DaemonJob DaemonJobList W)
    (daemon_fake : Fake S DaemonJob DaemonJobList W)
    (template_client : Rest S JobTemplate JobTemplateList W)
    (template_fake : Fake S JobTemplate JobTemplateList W) (ns name opts pt content : Text)
    (job_flow : JobFlow) (daemon_job : DaemonJob) (job_template : JobTemplate)
    (list_opts : ListOptions) (subresources : List Text) (s : S)
    → JobFlows.Corresponds flow_client flow_fake ns name opts pt content job_flow list_opts
        subresources s
      × DaemonJobs.Corresponds daemon_client daemon_fake ns name opts pt content daemon_job
          list_opts subresources s
      × JobTemplates.Corresponds template_client template_fake ns name opts pt content job_template
          list_opts subresources s
fakes_correspond flow_client flow_fake daemon_client daemon_fake template_client template_fake ns
      name opts pt content job_flow daemon_job job_template list_opts subresources s =
    (
      JobFlows.all_correspond flow_client flow_fake ns name opts pt content job_flow list_opts
          subresources s,
      DaemonJobs.all_correspond daemon_client daemon_fake ns name opts pt content daemon_job
          list_opts subresources s,
      JobTemplates.all_correspond template_client template_fake ns name opts pt content job_template
          list_opts subresources s,
    )
