-- ===== src/Tests/Cli.antt =====
-- The tool that counts children, on a manager with a browser that has no parent.
use tzafon_way_point.Prelude.{◌≡◌, ◌↔◌, true, String}
use tzafon_way_point.Proto.{type_code, chrome_browser}
use tzafon_way_point.Manager.Lifetime.Safety.{Reachable-IsValid}
use tzafon_way_point.Client.EphemeralProxy.{answered}
use tzafon_way_point.Client.Cli.{Args, failed, count_children}
use tzafon_way_point.Client.Cli.Tally.Parentless.{
  parentless, HasParentless, count_children-HasParentless,
}
use tzafon_way_point.Tests.Worlds.{beating, beating-Reachable}

abbrev all_flags : Args
all_flags = record { instance_type = type_code chrome_browser; has_parent = true; alive = true }

count_children-HasParentless_example :
    ((s : String) × (count_children
          (parentless (type_code chrome_browser))
          (λ _. answered)
          (λ _. beating)
          beating
        ≡ failed s))
    ↔ HasParentless (type_code chrome_browser) beating
count_children-HasParentless_example =
    count_children-HasParentless (type_code chrome_browser) beating
      (Reachable-IsValid beating-Reachable)
