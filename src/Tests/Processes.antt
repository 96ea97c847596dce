-- ===== src/Tests/Processes.antt =====
-- Requests of the cloud and of the page, and the process from its flags to its end.
use yc_sheduler.Prelude.{ℕ, ◌+◌, ◌≡◌, refl, str_eq, true, false, ◌||◌, none, some, [], ◌∷◌, ok}
use yc_sheduler.Config.{Bytes}
use yc_sheduler.Resource.Yandex.{running, yc_operator}
use yc_sheduler.Yc.{ensure_initialized, execute_operation, wait_operation, wait_loop}
use yc_sheduler.Yc.Methods.{Services, start_instance, client_interface}
use yc_sheduler.Yc.Operated.{operate, Operated, yc_operator-Operated}
use yc_sheduler.Web.Server.{new_mux, serve}
use yc_sheduler.Web.Server.Routes.{route, serve-route}
use yc_sheduler.Main.{Flags, parsed, main}
use yc_sheduler.Main.Closed.{IsOrderly, main-IsOrderly}
use yc_sheduler.Tests.Fixtures.{zones, vm, gocron}
use yc_sheduler.Tests.Services.{sdk}
use yc_sheduler.Tests.Settings.{loaded_config}

abbrev services : Services ℕ (Unit {0})
services = record {
  instance_start = λ conn id w. (ok "op-1", w + 1);
  instance_stop = λ conn id w. (ok "op-2", w + 1);
  instance_get = λ conn id w. (ok running, w);
  instance_list = λ conn folder size w. (ok tt, w);
  cluster_start = λ conn id w. (ok "op-3", w + 1);
  cluster_stop = λ conn id w. (ok "op-4", w + 1);
  cluster_get = λ conn id w. (ok running, w);
}

starts : operate (yc_operator (client_interface services (some sdk) 5)) true vm 0 ≡ (ok tt, 2)
unfolding yc_operator client_interface start_instance execute_operation ensure_initialized
    wait_operation wait_loop
starts = refl

yc_operator-Operated_example :
    Operated services sdk 5 true vm 2
    × ((str_eq vm.type "vm" || str_eq vm.type "k8s_cluster") ≡ true)
yc_operator-Operated_example = yc_operator-Operated services sdk 5 true vm 0 2 starts

-- /ui/a
abbrev page : Bytes
page = b'/' ∷ b'u' ∷ b'i' ∷ b'/' ∷ b'a' ∷ []

serve-route_example : serve (new_mux true true) page ≡ some (route true true page)
serve-route_example = serve-route true true page refl

abbrev flags : Flags
flags = parsed (record { version = false; config = "config.yaml"; dry_run = false })

main-IsOrderly_example :
    IsOrderly gocron
      (λ l limit. ok [])
      zones
      (λ e t. none)
      (λ path. ok loaded_config)
      (main gocron (λ l limit. ok []) zones (λ e t. none) (λ path. ok loaded_config) flags)
main-IsOrderly_example =
    main-IsOrderly gocron (λ l limit. ok []) zones (λ e t. none) (λ path. ok loaded_config) flags
