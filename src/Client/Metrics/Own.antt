-- ===== src/Client/Metrics/Own.antt =====
-- The loop changes nothing but the measurement of its own instance.
use tzafon_way_point.Prelude.{◌≡◌, ◌⊎◌, none, some, List, In}
use tzafon_way_point.Proto.{TimestampMs, InstanceId, SystemMetrics, InstanceDescription}
use tzafon_way_point.Dict.{get, insert}
use tzafon_way_point.Manager.World.{World}
use tzafon_way_point.Client.Metrics.{Round, read_stats}

-- What a round measured, with the time of the manager
abbrev pub Measurement : List Round → SystemMetrics → Type 0
Measurement rounds s =
    (r : Round) × (m : SystemMetrics) × (t : TimestampMs) × In r rounds
    × (read_stats r.cgroup_limits r.now ≡ some m)
    × (s ≡ record m { timestamp_ms = some t })

-- The instances are as they were, or the one instance, alive, has a measurement of a round instead.
abbrev pub OnlyOwn : InstanceId → List Round → World → World → Type 0
OnlyOwn id rounds w w' =
    (w'.instance_description ≡ w.instance_description)
    ⊎ ((d : InstanceDescription) × (s : SystemMetrics) × (get id.instance_id w.instance_description
          ≡ some d)
        × (d.kill_instance_request ≡ none)
        × Measurement rounds s
        × (w'.instance_description
            ≡ insert id.instance_id (record d { system_metrics = some s }) w.instance_description))
