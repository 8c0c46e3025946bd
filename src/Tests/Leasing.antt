-- ===== src/Tests/Leasing.antt =====
-- The theorems on leases, for a proxy that takes the browser.
use tzafon_way_point.Prelude.{◌≡◌, ◌≢◌, refl, ap, ◌↔◌, none, some, codes, [], ◌∷◌, true, false}
use tzafon_way_point.Prelude.Status.{ok}
use tzafon_way_point.Proto.{InstanceId, InstanceDescription}
use tzafon_way_point.Manager.World.{World}
use tzafon_way_point.Manager.Apply.{tie, apply_to_instance_description}
use tzafon_way_point.Manager.Apply.Later.{AllLater}
use tzafon_way_point.Manager.Apply.Leases.{HasParent}
use tzafon_way_point.Manager.Rpc.{try_update_instance_description}
use tzafon_way_point.Manager.Lifetime.{update, kill_round, serve_all}
use tzafon_way_point.Manager.Lifetime.Safety.{Reachable-IsValid}
use tzafon_way_point.Manager.Lifetime.Forever.{serve_all-AllLater, leased_once}
use tzafon_way_point.Gateway.Http.{err as http_err, Error}
use tzafon_way_point.Client.EphemeralProxy.{cdp, connect, lease_instance, open_connection}
use tzafon_way_point.Client.EphemeralProxy.Leasing.{Outcome, lease_instance-Outcome}
use tzafon_way_point.Client.EphemeralProxy.Finding.Complete.{
  Leases, HasFree, lease_instance-HasFree,
}
use tzafon_way_point.Client.EphemeralProxy.Connecting.{
  Connected, connect-Connected, open_connection_keeps_lease,
}
use tzafon_way_point.Proto.{killed, reason_code}
use tzafon_way_point.Manager.Apply.Endings.{IsDead}
use tzafon_way_point.Manager.KillLoop.Descent.{Under}
use tzafon_way_point.Manager.KillLoop.Single.{apply_kills_exactly}
use tzafon_way_point.Client.EphemeralProxy.{on_close}
use tzafon_way_point.Client.EphemeralProxy.Closing.{on_close-IsDead}
use tzafon_way_point.Tests.Worlds.{
  kill_proxy, proxy_leased, leased_p, clock, lease, both, leased, beating, b_id, p_id, tied_proxy,
  browser_leased, browser_beating, quiet, at_time, both-Reachable, leased-Reachable,
  beating-Reachable, leased_b, lease_is_found, proxy, beating_p,
}
use tzafon_way_point.Tests.Http.{request}

serve_all-AllLater_example :
    AllLater both.instance_description
      (serve_all clock both (update lease ∷ kill_round ∷ [])).instance_description
serve_all-AllLater_example = serve_all-AllLater (update lease ∷ kill_round ∷ []) both-Reachable

leased_once_example :
    (try_update_instance_description clock lease (serve_all clock leased (kill_round ∷ []))).0
    ≢ ok true
leased_once_example =
    leased_once (kill_round ∷ []) (codes "b") browser_leased tied_proxy (tie p_id) lease
      leased-Reachable leased_b refl refl refl

lease_instance-Outcome_example :
    Outcome clock quiet p_id beating (lease_instance clock quiet p_id beating)
lease_instance-Outcome_example = lease_instance-Outcome clock quiet p_id beating beating-Reachable

abbrev reachable_browser : InstanceDescription
reachable_browser = record browser_beating {
  services = some (record {
    timestamp_ms = at_time 10_000;
    chrome_debug_port_service = some (codes "10.0.0.1:9222");
    tzafonwright_service = none;
  });
}

connect-Connected_example :
    Connected (λ a. true) cdp reachable_browser (connect (λ a. true) cdp request reachable_browser)
connect-Connected_example = connect-Connected (λ a. true) cdp request reachable_browser

abbrev afterwards : World
afterwards = (lease_instance clock quiet p_id beating).1

open_connection_keeps_lease_example :
    ((x : Error) × (open_connection (λ a. false) cdp request clock quiet p_id beating
        ≡ (http_err x, afterwards)))
    × ((id : InstanceId) × (browser_beating.instance_id ≡ some id)
        × HasParent afterwards.instance_description id.instance_id (tie p_id))
open_connection_keeps_lease_example =
    open_connection_keeps_lease (λ a. false) cdp request clock quiet p_id beating browser_beating
      afterwards beating-Reachable (ap (λ x. (x, afterwards)) lease_is_found) (λ a. refl)

apply_kills_exactly_example :
    IsDead
      (apply_to_instance_description clock kill_proxy leased).1.instance_description
      (codes "b")
    ↔ Under leased.instance_description (codes "p") (codes "b")
apply_kills_exactly_example =
    apply_kills_exactly clock kill_proxy p_id
      (record { timestamp_ms = none; kill_reason = reason_code killed }) proxy_leased leased
      (codes "b") browser_leased (Reachable-IsValid leased-Reachable) (refl, refl, refl, refl, refl)
      leased_p leased_b refl

on_close-IsDead_example :
    IsDead (on_close clock quiet p_id 4 b_id leased).1.instance_description (codes "b")
on_close-IsDead_example =
    on_close-IsDead clock quiet p_id 4 b_id browser_leased leased leased-Reachable leased_b
      (λ e. cc)

lease_instance-HasFree_example :
    Leases clock 24_000 p_id beating ↔ HasFree clock 24_000 p_id beating
lease_instance-HasFree_example =
    lease_instance-HasFree clock 24_000 p_id beating proxy (Reachable-IsValid beating-Reachable)
      (beating_p, refl)
