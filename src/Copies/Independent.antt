-- ===== src/Copies/Independent.antt =====
-- The deep copy of an object shares no memory with it.
use job_deploy_operator.Base.{
  ℕ, suc, ◌<◌, ◌≡◌, refl, ◌≢◌, Option, none, some, List, [], ◌∷◌, All, arith,
}
use job_deploy_operator.Copies.{At, Copies, deep_copy_object, pointer_copies}
use job_deploy_operator.Copies.Deep.{Between, IsDeep, pointer-IsDeep}
use job_deploy_operator.Copies.External.{Objects, External, IsFaithful}
use job_deploy_operator.Copies.JobFlows.{
  JobFlowListValue, job_flow_list_copies, copy_job_flow_list_object,
}
use job_deploy_operator.Copies.JobFlows.Fields.{job_flow_list-IsDeep}
use job_deploy_operator.Copies.DaemonJobs.{
  DaemonJobListValue, daemon_job_list_copies, copy_daemon_job_list_object,
}
use job_deploy_operator.Copies.DaemonJobs.Fields.{daemon_job_list-IsDeep}
use job_deploy_operator.Copies.JobTemplates.{
  JobTemplateListValue, job_template_list_copies, copy_job_template_list_object,
}
use job_deploy_operator.Copies.JobTemplates.Fields.{job_template_list-IsDeep}

-- No address is in both lists.
abbrev pub AreDisjoint : List ℕ → List ℕ → Type 0
AreDisjoint xs ys = All (λ x. All (λ y. x ≢ y) ys) xs

abbrev pub AreBelow : ℕ → List ℕ → Type 0
AreBelow n xs = All (λ a. a < n) xs

differs : (n high x : ℕ) → Between n high x → (ys : List ℕ) → AreBelow n ys → All (λ y. x ≢ y) ys
differs n high x h [] old = tt
differs n high x h (y ∷ ys) (below, old) =
    ((λ e. omega (arith, h, below, e)), differs n high x h ys old)

new-AreDisjoint :
    (n high : ℕ) (xs ys : List ℕ) → All (Between n high) xs → AreBelow n ys → AreDisjoint xs ys
new-AreDisjoint n high [] ys h old = tt
new-AreDisjoint n high (x ∷ xs) ys (new, h) old =
    (differs n high x new ys old, new-AreDisjoint n high xs ys h old)

module _ {X C : Type 0} (c : Copies X C) where
  -- What stands in an interface after `DeepCopyObject`: nil for nil, and else a pointer to an object
  -- that says the same and has no address in common with the original.
  abbrev pub IsCopyOf : Option (At X) → Option (Option (At X)) → Type 0
  IsCopyOf none obj = obj ≡ none
  IsCopyOf (some p) obj =
      (q : At X) × (obj ≡ some (some q))
      × (c.content q.value ≡ c.content p.value)
      × AreDisjoint (q.address ∷ c.addresses q.value) (p.address ∷ c.addresses p.value)

  deep_copy_object-IsCopyOf :
      IsDeep c
      → (p : Option (At X)) (n : ℕ) → (pointer_copies c).IsValid p
      → AreBelow n ((pointer_copies c).addresses p)
      → IsCopyOf p (deep_copy_object c p n).0
  unfolding deep_copy_object
  deep_copy_object-IsCopyOf deep none n valid old = refl
  deep_copy_object-IsCopyOf deep (some p) n valid old =
      let copied = pointer-IsDeep c deep (some p) n valid in
      let inner = deep p.value (suc n) valid in
      (
        record { address = n; value = (c.deep_copy_into p.value (suc n)).0 },
        refl,
        inner.kept,
        new-AreDisjoint n (c.deep_copy_into p.value (suc n)).1
            (n ∷ c.addresses (c.deep_copy_into p.value (suc n)).0) (p.address ∷ c.addresses p.value)
            copied.fresh old,
      )

-- Let the deep copies of the Kubernetes types be deep, let the maps have distinct keys, and let all
-- memory of the objects have been taken before the call. Then `DeepCopyObject` of a nil list is nil,
-- and that of any other list of JobFlows, of DaemonJobs or of JobTemplates is a list that says the
-- same in all its parts, nil slices and maps included, and shares no memory with the original.
pub object_lists_are_copied :
    {here plain : Objects} (ext : External here plain) (n : ℕ)
    (job_flows : Option (At (JobFlowListValue At here)))
    (daemon_jobs : Option (At (DaemonJobListValue At here)))
    (job_templates : Option (At (JobTemplateListValue At here)))
    → IsFaithful ext
    → (pointer_copies (job_flow_list_copies ext)).IsValid job_flows
    → (pointer_copies (daemon_job_list_copies ext)).IsValid daemon_jobs
    → (pointer_copies (job_template_list_copies ext)).IsValid job_templates
    → AreBelow n ((pointer_copies (job_flow_list_copies ext)).addresses job_flows)
    → AreBelow n ((pointer_copies (daemon_job_list_copies ext)).addresses daemon_jobs)
    → AreBelow n ((pointer_copies (job_template_list_copies ext)).addresses job_templates)
    → IsCopyOf (job_flow_list_copies ext) job_flows (copy_job_flow_list_object ext job_flows n).0
      × IsCopyOf
          (daemon_job_list_copies ext)
          daemon_jobs
          (copy_daemon_job_list_object ext daemon_jobs n).0
      × IsCopyOf
          (job_template_list_copies ext)
          job_templates
          (copy_job_template_list_object ext job_templates n).0
unfolding copy_job_flow_list_object copy_daemon_job_list_object copy_job_template_list_object
object_lists_are_copied ext n job_flows daemon_jobs job_templates faithful f d t f_old d_old t_old =
    (
      deep_copy_object-IsCopyOf (job_flow_list_copies ext) (job_flow_list-IsDeep ext faithful)
          job_flows n f f_old,
      deep_copy_object-IsCopyOf (daemon_job_list_copies ext) (daemon_job_list-IsDeep ext faithful)
          daemon_jobs n d d_old,
      deep_copy_object-IsCopyOf (job_template_list_copies ext)
          (job_template_list-IsDeep ext faithful) job_templates n t t_old,
    )
