-- ===== src/Controller/Common/Names.antt =====
-- When two composed names are the same.
use job_deploy_operator.Base.{
  Text, codes, append_cancel, cons_cancel, joined_eq, Lacks, ◌≡◌, sym, ◌∙◌, ◌∷◌, ◌++◌, append_assoc,
}
use job_deploy_operator.Controller.Common.{get_connection_of_job_and_job_template, get_job_name}

pub connection-cons :
    (ns name : Text) → get_connection_of_job_and_job_template ns name ≡ ns ++ b'.' ∷ name
unfolding get_connection_of_job_and_job_template
connection-cons ns name = append_assoc ns (codes ".") name

pub get_job_name-cons : (a b : Text) → get_job_name a b ≡ a ++ b'-' ∷ b
unfolding get_job_name
get_job_name-cons a b = append_assoc a (codes "-") b

-- If neither of two namespaces has a dot, templates with the same connection have the same
-- namespace and the same name.
pub connection-injective :
    (ns ns' name name' : Text)
    → Lacks b'.' ns
    → Lacks b'.' ns'
    → get_connection_of_job_and_job_template ns name
      ≡ get_connection_of_job_and_job_template ns' name'
    → (ns ≡ ns') × (name ≡ name')
connection-injective ns ns' name name' h h' e =
    joined_eq b'.' ns ns' name name' h h'
      (sym (connection-cons ns name) ∙ e ∙ connection-cons ns' name')

-- Within one JobFlow the jobs of two flows have the same name only if the flows have.
pub get_job_name-injective :
    (job_flow a b : Text) → get_job_name job_flow a ≡ get_job_name job_flow b → a ≡ b
get_job_name-injective job_flow a b e = cons_cancel (
    append_cancel job_flow (b'-' ∷ a) (b'-' ∷ b)
      (sym (get_job_name-cons job_flow a) ∙ e ∙ get_job_name-cons job_flow b))
