-- ===== src/Tests/Mains.antt =====
-- A runtime whose state counts the calls; no controller can be set up.
use job_deploy_operator.Base.{ℕ, suc, ◌≡◌, refl, Option, some, none}
use job_deploy_operator.Api.Kube.{Result, ok, err}
use job_deploy_operator.Program.Main.{Controller, Runtime, exited, main}
use job_deploy_operator.Program.Main.Errors.{controller_errors_are_lost}
use job_deploy_operator.Tests.Cluster.{missing}

abbrev counting : Runtime ℕ ℕ
counting = record {
  new_manager = λ config n. (ok tt, suc n);
  scheme = record { add_known_types = λ gv types n. suc n; add_to_group_version = λ gv n. suc n };
  complete = λ ctl n. (ok tt, suc n);
  start = λ n. (ok tt, suc n);
}

abbrev refuse : Controller → ℕ → Result (Unit {0}) × ℕ
refuse ctl n = (err missing, suc n)

controller_errors_are_lost_example :
    (main (record counting { complete = refuse }) (some 3) 0 ≡ main counting (some 3) 0)
    × ((main counting (some 3) 0).0 ≡ exited → ◌≡◌ {A = Option ℕ} (some 3) none)
controller_errors_are_lost_example =
    controller_errors_are_lost counting refuse (λ ctl n. refl) (some 3) 0
