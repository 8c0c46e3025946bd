-- ===== src/Tests/Worlds.antt =====
-- Two instances, a browser and its proxy, in a service whose clock advances by ten seconds a reading.
use tzafon_way_point.Prelude.{ℕ, true, ◌*◌, ◌≡◌, refl, Option, none, some, text_eq, codes, [], ◌∷◌}
use tzafon_way_point.Proto.{
  InstanceId, TimestampMs, Relationship, InstanceDescription, default, chrome_browser,
  warmpool_chrome_proxy, type_code, type_of_code, killed, reason_code, parent_dead,
  health_check_failed,
}
use tzafon_way_point.Prelude.Status.{ok}
use tzafon_way_point.Dict.{get, insert, empty, values}
use tzafon_way_point.Gateway.Http.{ok as http_ok}
use tzafon_way_point.Client.HeartBeat.{heart_beat}
use tzafon_way_point.Client.EphemeralProxy.{
  Moment, answered, lease_instance, call_at, try_instances, call, is_available, lease_request,
}
use tzafon_way_point.Dict.Weight.{weigh}
use tzafon_way_point.Manager.World.{World, new, find}
use tzafon_way_point.Manager.Lifetime.{add, update, serve, serve_all, Reachable, started, served}
use tzafon_way_point.Manager.Rpc.{
  try_add_instance, try_update_instance_description, get_all_instances, get_instance,
}
use tzafon_way_point.Manager.Register.{
  insert_new_instance_description, claim, settle, release_on_failure,
}
use tzafon_way_point.Manager.Relations.{
  same_id, validate_relationship, check_parent, check_children, check_request,
}
use tzafon_way_point.Manager.Traits.{update_instance_description, get_instance_id}
use tzafon_way_point.Manager.Apply.{
  write_fields, rewrite, tie, adopt_children, join_parent, finish, commit,
  apply_to_instance_description, get_instance_description,
}
use tzafon_way_point.Manager.Health.{unhealth_instance}
use tzafon_way_point.Manager.Cascade.{cascade}

abbrev pub clock : ℕ → ℕ
clock n = 10_000 * n

abbrev pub b_id : InstanceId
b_id = record { instance_id = codes "b" }

abbrev pub p_id : InstanceId
p_id = record { instance_id = codes "p" }

abbrev pub add_browser : InstanceDescription
add_browser = record default {
  instance_id = some b_id;
  instance_type = some (type_code chrome_browser);
}

abbrev pub add_proxy : InstanceDescription
add_proxy = record default {
  instance_id = some p_id;
  instance_type = some (type_code warmpool_chrome_proxy);
}

-- The proxy takes the browser.
abbrev pub lease : InstanceDescription
lease = record default { instance_id = some b_id; parent = some (tie p_id) }

abbrev pub kill_proxy : InstanceDescription
kill_proxy = record default {
  instance_id = some p_id;
  kill_instance_request = some (record { timestamp_ms = none; kill_reason = reason_code killed });
}

abbrev pub both : World
both = serve clock (serve clock new (add add_browser)) (add add_proxy)

abbrev pub leased : World
leased = serve clock both (update lease)

abbrev pub ended : World
ended = serve clock leased (update kill_proxy)

pub both-Reachable : Reachable clock both
both-Reachable = served (served started (add add_browser)) (add add_proxy)

pub leased-Reachable : Reachable clock leased
leased-Reachable = served both-Reachable (update lease)

pub ended-Reachable : Reachable clock ended
ended-Reachable = served leased-Reachable (update kill_proxy)

abbrev pub at_time : ℕ → Option TimestampMs
at_time t = some (record { timestamp_ms = t })

abbrev pub tied_browser : Relationship
tied_browser = record { timestamp_ms = at_time 30_000; instance_id = some b_id }

abbrev pub tied_proxy : Relationship
tied_proxy = record { timestamp_ms = at_time 20_000; instance_id = some p_id }

abbrev pub browser : InstanceDescription
browser = record default {
  created_timestamp_ms = at_time 0;
  instance_id = some b_id;
  instance_type = some (type_code chrome_browser);
}

abbrev pub proxy_leased : InstanceDescription
proxy_leased = record default {
  created_timestamp_ms = at_time 10_000;
  instance_id = some p_id;
  instance_type = some (type_code warmpool_chrome_proxy);
  children = some (record { children = tied_browser ∷ [] });
}

abbrev pub proxy_dead : InstanceDescription
proxy_dead = record proxy_leased {
  kill_instance_request =
      some (record { timestamp_ms = at_time 40_000; kill_reason = reason_code killed });
}

abbrev pub browser_dead : InstanceDescription
browser_dead = record browser {
  parent = some tied_proxy;
  kill_instance_request =
      some (record { timestamp_ms = at_time 50_000; kill_reason = reason_code parent_dead });
}

pub both_b : get (codes "b") both.instance_description ≡ some browser
unfolding serve try_add_instance insert_new_instance_description claim settle release_on_failure
    apply_to_instance_description check_request check_parent check_children find commit rewrite
    write_fields update_instance_description adopt_children join_parent finish get insert empty
    text_eq type_of_code
both_b = refl

pub leased_p : get (codes "p") leased.instance_description ≡ some proxy_leased
unfolding serve try_add_instance try_update_instance_description insert_new_instance_description
    claim settle release_on_failure apply_to_instance_description check_request check_parent
    check_children validate_relationship same_id find commit rewrite write_fields
    update_instance_description get_instance_id adopt_children join_parent finish get insert empty
    text_eq type_of_code
leased_p = refl

pub ended_p : get (codes "p") ended.instance_description ≡ some proxy_dead
unfolding serve try_add_instance try_update_instance_description insert_new_instance_description
    claim settle release_on_failure apply_to_instance_description check_request check_parent
    check_children validate_relationship same_id find commit rewrite write_fields
    update_instance_description get_instance_id adopt_children join_parent finish cascade weigh get
    insert empty text_eq type_of_code
ended_p = refl

pub ended_b : get (codes "b") ended.instance_description ≡ some browser_dead
unfolding serve try_add_instance try_update_instance_description insert_new_instance_description
    claim settle release_on_failure apply_to_instance_description check_request check_parent
    check_children validate_relationship same_id find commit rewrite write_fields
    update_instance_description get_instance_id adopt_children join_parent finish cascade weigh get
    insert empty text_eq type_of_code
ended_b = refl

pub both_unhealthy : unhealth_instance browser (clock both.reads) ≡ some health_check_failed
unfolding serve try_add_instance insert_new_instance_description claim settle release_on_failure
    apply_to_instance_description check_request check_parent check_children find commit rewrite
    write_fields update_instance_description adopt_children join_parent finish get insert empty
    text_eq type_of_code unhealth_instance
both_unhealthy = refl

abbrev pub browser_leased : InstanceDescription
browser_leased = record browser { parent = some tied_proxy }

pub leased_b : get (codes "b") leased.instance_description ≡ some browser_leased
unfolding serve try_add_instance try_update_instance_description insert_new_instance_description
    claim settle release_on_failure apply_to_instance_description check_request check_parent
    check_children validate_relationship same_id find commit rewrite write_fields
    update_instance_description get_instance_id adopt_children join_parent finish cascade weigh get
    insert empty text_eq type_of_code
leased_b = refl

pub lease_succeeds : (apply_to_instance_description clock lease both).0 ≡ ok true
unfolding serve try_add_instance try_update_instance_description insert_new_instance_description
    claim settle release_on_failure apply_to_instance_description check_request check_parent
    check_children validate_relationship same_id find commit rewrite write_fields
    update_instance_description get_instance_id adopt_children join_parent finish cascade weigh get
    insert empty text_eq type_of_code
lease_succeeds = refl

-- The browser has sent a heart beat.
abbrev pub beating : World
beating = serve clock both (update (heart_beat b_id))

pub beating-Reachable : Reachable clock beating
beating-Reachable = served both-Reachable (update (heart_beat b_id))

-- Nothing comes between the calls of the proxy, and all of them are answered.
abbrev pub quiet : ℕ → Moment
quiet n = record { before = []; delivery = answered; now = 24_000 }

abbrev pub browser_beating : InstanceDescription
browser_beating = record browser { health_check = some (record { timestamp_ms = at_time 20_000 }) }

pub lease_is_found : (lease_instance clock quiet p_id beating).0 ≡ http_ok browser_beating
unfolding serve try_add_instance try_update_instance_description insert_new_instance_description
    claim settle release_on_failure apply_to_instance_description check_request check_parent
    check_children validate_relationship same_id find commit rewrite write_fields
    update_instance_description get_instance_id adopt_children join_parent finish cascade weigh get
    insert empty text_eq type_of_code heart_beat lease_instance call_at try_instances call
    is_available lease_request serve_all get_all_instances get_instance get_instance_description
    values
lease_is_found = refl

abbrev pub proxy : InstanceDescription
proxy = record default {
  created_timestamp_ms = at_time 10_000;
  instance_id = some p_id;
  instance_type = some (type_code warmpool_chrome_proxy);
}

pub beating_p : get (codes "p") beating.instance_description ≡ some proxy
unfolding serve try_add_instance try_update_instance_description insert_new_instance_description
    claim settle release_on_failure apply_to_instance_description check_request check_parent
    check_children validate_relationship same_id find commit rewrite write_fields
    update_instance_description get_instance_id adopt_children join_parent finish get insert empty
    text_eq type_of_code heart_beat
beating_p = refl
