-- ===== src/Tests/Manager.antt =====
-- The theorems on the manager's state, in the life of a browser and its proxy.
use tzafon_way_point.Prelude.{◌≢◌, ◌↔◌, refl, codes}
use tzafon_way_point.Prelude.Status.{err, diverged}
use tzafon_way_point.Manager.Cascade.{cascade}
use tzafon_way_point.Manager.Cascade.Termination.{cascade-ne-diverged}
use tzafon_way_point.Manager.Apply.{apply_to_instance_description}
use tzafon_way_point.Manager.Apply.Commit.{AllOrNothing, apply-AllOrNothing}
use tzafon_way_point.Manager.Register.{insert_new_instance_description}
use tzafon_way_point.Manager.Register.Claim.{Registered, insert_new-Registered}
use tzafon_way_point.Manager.KillLoop.{kill_unhealth_instances}
use tzafon_way_point.Manager.Apply.Endings.{IsDead}
use tzafon_way_point.Manager.KillLoop.Exactly.{Doomed, round_kills_exactly}
use tzafon_way_point.Manager.Lifetime.Safety.{Reachable-IsValid}
use tzafon_way_point.Tests.Worlds.{
  clock, add_browser, lease, both, leased, both-Reachable, browser, proxy_dead, both_b,
}

apply-AllOrNothing_example : AllOrNothing both (apply_to_instance_description clock lease both)
apply-AllOrNothing_example = apply-AllOrNothing clock lease both (Reachable-IsValid both-Reachable)

insert_new-Registered_example :
    Registered both (insert_new_instance_description clock add_browser both)
insert_new-Registered_example =
    insert_new-Registered clock add_browser both (Reachable-IsValid both-Reachable)

cascade-ne-diverged_example : (cascade clock proxy_dead leased).0 ≢ err diverged
cascade-ne-diverged_example = cascade-ne-diverged clock proxy_dead leased

round_kills_exactly_example :
    IsDead (kill_unhealth_instances clock both).instance_description (codes "b")
    ↔ Doomed both.instance_description (clock both.reads) (codes "b")
round_kills_exactly_example =
    round_kills_exactly clock both (Reachable-IsValid both-Reachable) (codes "b") browser both_b
      refl
