-- ===== src/Controller/Daemon/Nodes/Excluded.antt =====
-- Which nodes an exclusion list leaves out.
use mathlib.Core.Path.{ap₂}
use job_deploy_operator.Base.{
  Text, text_eq, text_beq_iff, codes, remove_all, remove_all-Lacks, remove_all-append, split,
  split-Lacks, split-append, Any-sort_texts, sort_texts, Lacks, ◌≡◌, refl, ap, subst, ◌∙◌, ◌↔◌, inl,
  inr, true, Bool-cases, List, [], ◌∷◌, ◌++◌, map, not, select, All, Any, ◌==◌, arith,
}
use job_deploy_operator.Api.Kube.{Node}
use job_deploy_operator.Api.DaemonJob.{DaemonJob}
use job_deploy_operator.Controller.Daemon.Nodes.{
  split_string, is_jump_over_node, is_excluded, target_nodes,
}

is_jump_over_node_iff :
    (node : Text) (vs : List Text) → (is_jump_over_node node vs ≡ true) ↔ Any (λ v. node ≡ v) vs
unfolding is_jump_over_node
is_jump_over_node_iff node [] = (λ h. cc, λ h. absurd h)
is_jump_over_node_iff node (v ∷ vs) = elim (Bool-cases (node == v)) [
  | inl t ↦ rw t (λ _. inl ((text_beq_iff node v).0 t), λ _. refl)
  | inr f ↦ rw f (
    λ h. inr ((is_jump_over_node_iff node vs).0 h),
    elim [
      | inl e ↦ absurd (ground (arith, f, text_beq_iff node v, e))
      | inr h ↦ (is_jump_over_node_iff node vs).1 h
    ],
  )
]

-- A node is left out exactly when its name is one of the fields between the commas of the list with
-- its spaces taken out; the sort plays no part.
pub excluded_iff_field :
    (dj : DaemonJob) (node : Node)
    → (is_excluded dj node ≡ true)
      ↔ Any (λ field. node.name ≡ field) (split b',' (remove_all b' ' dj.spec.exclude_node_list))
unfolding is_excluded split_string
excluded_iff_field dj node =
    let fields = split b',' (remove_all b' ' dj.spec.exclude_node_list) in
    let (to, from) = is_jump_over_node_iff node.name (sort_texts fields) in
    let (out, back) = Any-sort_texts (λ field. node.name ≡ field) fields in
    (λ h. out (to h), λ h. from (back h))

-- The list as a user writes it: the names with `", "` between them.
abbrev pub written : Text → List Text → Text
written name [] = name
written name (next ∷ names) = name ++ (codes ", " ++ written next names)

abbrev pub IsNodeName : Text → Type 0
IsNodeName name = Lacks b',' name × Lacks b' ' name

remove_all-separator : (s : Text) → remove_all b' ' (codes ", " ++ s) ≡ b',' ∷ remove_all b' ' s
unfolding remove_all
remove_all-separator s = refl

fields-written :
    (name : Text) (names : List Text)
    → All IsNodeName (name ∷ names)
    → split b',' (remove_all b' ' (written name names)) ≡ name ∷ names
fields-written name [] ((no_comma, no_space), _) =
    ap (split b',') (remove_all-Lacks b' ' name no_space) ∙ split-Lacks b',' name no_comma
fields-written name (next ∷ names) ((no_comma, no_space), h) =
    ap (split b',') (
      remove_all-append b' ' name (codes ", " ++ written next names)
      ∙ ap₂ ◌++◌ (remove_all-Lacks b' ' name no_space) (remove_all-separator (written next names)))
    ∙ split-append b',' name (remove_all b' ' (written next names)) no_comma
    ∙ ap (λ fields. name ∷ fields) (fields-written next names h)

-- If the list is written as names with a comma and a space between them, and no name has a comma or
-- a space, a node is left out exactly when its name is one of them.
pub excluded_iff_written :
    (dj : DaemonJob) (node : Node) (name : Text) (names : List Text)
    → dj.spec.exclude_node_list ≡ written name names
    → All IsNodeName (name ∷ names)
    → (is_excluded dj node ≡ true) ↔ Any (λ v. node.name ≡ v) (name ∷ names)
excluded_iff_written dj node name names e h =
    subst (λ fields. (is_excluded dj node ≡ true) ↔ Any (λ v. node.name ≡ v) fields)
      (ap (λ list. split b',' (remove_all b' ' list)) e ∙ fields-written name names h)
      (excluded_iff_field dj node)

-- The nodes that a DaemonJob runs on are, in order, those that are not left out.
pub target_nodes-select :
    (dj : DaemonJob) (nodes : List Node)
    → target_nodes dj nodes ≡ map (λ n. n.name) (select (λ n. not (is_excluded dj n)) nodes)
unfolding target_nodes select
target_nodes-select dj [] = refl
target_nodes-select dj (node ∷ nodes) = ground (arith, target_nodes-select dj nodes)
