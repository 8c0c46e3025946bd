-- ===== src/Tests/Handlers.antt =====
-- The cache of the status page, over a visit, the death of a proxy and a second visit.
use tzafon_way_point.Prelude.{ℕ, inr, none, some, [], codes}
use tzafon_way_point.Manager.StatusPage.Single.{Printing}
use tzafon_way_point.Manager.StatusPage.Handlers.{Templates, Cache, opened_at, handle_get_browsers}
use tzafon_way_point.Tests.Worlds.{leased}

abbrev printing : Printing
printing = record {
  date = λ t. some (codes "1970-01-01 00:00:00");
  debug_reason = λ r. codes "Killed";
  debug_metrics = λ m. [];
  debug_description = λ d. [];
}

abbrev templates : Templates
templates = record { single = λ p. inr p.state_info; dashboard = λ p. inr (codes "page") }

abbrev start : ℕ
start = 5_000_000_000

abbrev half_second_later : ℕ
half_second_later = 5_500_000_000

abbrev first_cache : Cache
first_cache = (handle_get_browsers printing templates none start 60_000 leased (opened_at start)).1
