-- ===== src/Clientset/Schemes/Known.antt =====
-- Which types the schemes of the clientset and of its fake know.
use job_deploy_operator.Base.{
  Text, text_eq, ◌≡◌, refl, ◌∙◌, ap, Bool, false, ◌||◌, List, [], ◌∷◌, ◌==◌, some,
}
use job_deploy_operator.Api.Scheme.{GroupVersion, Scheme}
use job_deploy_operator.Api.JobFlow.Register.{
  scheme_group_version, add_known_types, job_flow_type, job_flow_list_type,
}
use job_deploy_operator.Clientset.Schemes.{v1, local_scheme_builder, add_to_scheme, init}

abbrev pub is_one_of : Text → List Text → Bool
is_one_of t [] = false
is_one_of t (x ∷ xs) = (t == x) || is_one_of t xs

-- What `Scheme.Recognizes` says: a scheme knows the types that were added, and a group and version
-- adds only types of meta/v1.
pub record IsRecording {S : Type 0} (scheme : Scheme S) (recognizes : Text → S → Bool)
    (is_meta : Text → Bool) : Type 0 where
  pub adds :
      (gv : GroupVersion) (types : List Text) (t : Text) (s : S)
      → recognizes t (scheme.add_known_types gv types s) ≡ (is_one_of t types || recognizes t s)
  pub groups :
      (gv : GroupVersion) (t : Text) (s : S)
      → is_meta t ≡ false
      → recognizes t (scheme.add_to_group_version gv s) ≡ recognizes t s

module _ {S : Type 0} (scheme : Scheme S) (recognizes : Text → S → Bool) (is_meta : Text → Bool)
    (recording : IsRecording scheme recognizes is_meta) where
  -- The scheme is set up without a panic, and knows of the types of no group version only those of
  -- JobFlows besides the ones before.
  pub init-recognizes :
      (s : S)
      → (s' : S) × (init scheme s ≡ some s')
        × ((t : Text)
            → is_meta t ≡ false
            → recognizes t s'
              ≡ (is_one_of t (job_flow_type ∷ job_flow_list_type ∷ []) || recognizes t s))
  unfolding init add_to_scheme local_scheme_builder add_known_types
  init-recognizes s =
      let before = scheme.add_to_group_version v1 s in
      let types = job_flow_type ∷ job_flow_list_type ∷ [] in
      (
        _,
        refl,
        λ t plain.
            recording.groups scheme_group_version t _ plain
            ∙ recording.adds scheme_group_version types t before
            ∙ ap (λ b. is_one_of t types || b) (recording.groups v1 t s plain),
      )
