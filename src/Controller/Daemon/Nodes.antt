-- ===== src/Controller/Daemon/Nodes.antt =====
-- Which nodes a DaemonJob leaves out: `splitString` and `isJumpOverNode` of
-- pkg/controller/daemonjob_controller.go.
pub mod Excluded
use job_deploy_operator.Base.{
  ℕ, Text, text_eq, remove_all, split, sort_texts, Bool, true, false, List, [], ◌∷◌, ◌==◌,
  if◌then◌else◌,
}
use job_deploy_operator.Api.Kube.{Node}
use job_deploy_operator.Api.DaemonJob.{DaemonJob}

-- The separator is one byte, as at every call.
unfoldable pub split_string : Text → ℕ → List Text
split_string input separator = sort_texts (split separator (remove_all b' ' input))

unfoldable pub is_jump_over_node : Text → List Text → Bool
is_jump_over_node node [] = false
is_jump_over_node node (v ∷ vs) =
    let rest = is_jump_over_node node vs in if node == v then true else rest

-- The test that both loops over the nodes make.
unfoldable pub is_excluded : DaemonJob → Node → Bool
unfolding split_string is_jump_over_node
is_excluded dj node = is_jump_over_node node.name (split_string dj.spec.exclude_node_list b',')

-- The names of the nodes that are not left out: `jobList` of `getAllJobStatusFromDaemonJob`.
unfoldable pub target_nodes : DaemonJob → List Node → List Text
target_nodes dj [] = []
target_nodes dj (node ∷ nodes) =
    let rest = target_nodes dj nodes in if is_excluded dj node then rest else node.name ∷ rest
