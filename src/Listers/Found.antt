-- ===== src/Listers/Found.antt =====
-- What the listers of one namespace find, over an indexer that keeps its objects by their keys.
pub mod JobFlows
pub mod DaemonJobs
pub mod JobTemplates
use mathlib.Core.Path.{ap₂}
use job_deploy_operator.Base.{
  Text, codes, Lacks, joined_eq, append_assoc, List, [], ◌∷◌, ◌++◌, All, Any, Option, none, some,
  ◌≡◌, refl, sym, subst, ◌∙◌, ◌≢◌, ◌⊎◌, true, inl, inr,
}
use job_deploy_operator.Api.Kube.{ObjectMeta, Error, is_not_found, Result, ok, err}
use job_deploy_operator.Listers.Indexer.{Indexer, index_key}

index_key-cons : (namespace name : Text) → index_key namespace name ≡ namespace ++ b'/' ∷ name
unfolding index_key
index_key-cons namespace name = append_assoc namespace (codes "/") name

index_key_eq :
    (a b name name' : Text)
    → Lacks b'/' a
    → Lacks b'/' b
    → index_key a name ≡ index_key b name'
    → (a ≡ b) × (name ≡ name')
index_key_eq a b name name' h h' e =
    joined_eq b'/' a b name name' h h' (sym (index_key-cons a name) ∙ e ∙ index_key-cons b name')

All-member :
    {A : Type 0} (P : A → Type 0) (xs : List A) (a : A) → All P xs → Any (λ x. x ≡ a) xs → P a
All-member P [] a _ h = absurd h
All-member P (x ∷ xs) a (p, ps) (inl e) = subst P e p
All-member P (x ∷ xs) a (p, ps) (inr h) = All-member P xs a ps h

module _ {A : Type 0} (meta : A → ObjectMeta) where
  abbrev key_of : A → Text
  key_of a = index_key (meta a).namespace (meta a).name

  -- The indexer holds these objects, each under the key made of its namespace and its name.
  pub record IsIndexOf (indexer : Indexer A) (objects : List A) : Type 0 where
    pub found :
        (key : Text) (a : A)
        → (indexer.get_by_key key).0 ≡ some a
        → Any (λ x. x ≡ a) objects × (key_of a ≡ key)
    pub missing :
        (key : Text) → indexer.get_by_key key ≡ (none, none) → All (λ a. key_of a ≢ key) objects
    -- Namespaces have no slash.
    pub plain : All (λ a. Lacks b'/' (meta a).namespace) objects

  abbrev pub IsNamed : Text → Text → A → Type 0
  IsNamed namespace name a = ((meta a).namespace ≡ namespace) × ((meta a).name ≡ name)

  -- An object that is found is one of these, with the namespace and the name; if none is found,
  -- then either no object has both, or the indexer failed.
  abbrev pub IsAnswer : Option Error → List A → Text → Text → Result A → Type 0
  IsAnswer failure objects namespace name (ok a) =
      Any (λ x. x ≡ a) objects × IsNamed namespace name a
  IsAnswer failure objects namespace name (err e) =
      (failure ≡ some e) ⊎ ((is_not_found e ≡ true) × All (λ a. ¬ IsNamed namespace name a) objects)

  module _ (indexer : Indexer A) (objects : List A) (index : IsIndexOf indexer objects)
      (namespace name : Text) (plain : Lacks b'/' namespace) where
    pub IsNamed-found :
        (a : A)
        → (indexer.get_by_key (index_key namespace name)).0 ≡ some a
        → Any (λ x. x ≡ a) objects × IsNamed namespace name a
    IsNamed-found a h =
        let (member, key) = index.found (index_key namespace name) a h in
        let lacks = All-member (λ x. Lacks b'/' (meta x).namespace) objects a index.plain member in
        (member, index_key_eq (meta a).namespace namespace (meta a).name name lacks plain key)

    none-IsNamed :
        (xs : List A)
        → All (λ a. key_of a ≢ index_key namespace name) xs
        → All (λ a. ¬ IsNamed namespace name a) xs
    none-IsNamed [] h = tt
    none-IsNamed (a ∷ xs) (h, hs) = (λ (ns, n). h (ap₂ index_key ns n), none-IsNamed xs hs)

    pub IsNamed-missing :
        indexer.get_by_key (index_key namespace name) ≡ (none, none)
        → All (λ a. ¬ IsNamed namespace name a) objects
    IsNamed-missing h = none-IsNamed objects (index.missing (index_key namespace name) h)
