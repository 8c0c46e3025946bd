-- ===== src/Tests/Interleaved.antt =====
-- A registration that fails while another client takes the new instance.
use tzafon_way_point.Prelude.{◌≡◌, refl, inl, some, none, [], ◌∷◌, codes, text_eq, arith}
use tzafon_way_point.Proto.{
  InstanceDescription, default, type_of_code, warmpool_chrome_proxy, type_code,
}
use tzafon_way_point.Dict.{get, insert, remove, empty}
use tzafon_way_point.Manager.World.{World, new, find}
use tzafon_way_point.Manager.Invariant.{IsValid}
use tzafon_way_point.Manager.Lifetime.{add, update, serve, serve_all, Reachable, started, served}
use tzafon_way_point.Manager.Lifetime.Safety.{Reachable-IsValid}
use tzafon_way_point.Manager.Lifetime.Interleaved.{Gaps, insert_new_among, settle_among}
use tzafon_way_point.Manager.Lifetime.Interleaved.Outcome.{Outcome, insert_new_among-Outcome}
use tzafon_way_point.Manager.Rpc.{try_add_instance, try_update_instance_description}
use tzafon_way_point.Manager.Register.{
  insert_new_instance_description, claim, settle, release_on_failure,
}
use tzafon_way_point.Manager.Relations.{
  same_id, validate_relationship, check_parent, check_children, check_request,
}
use tzafon_way_point.Manager.Traits.{update_instance_description, get_instance_id}
use tzafon_way_point.Manager.Apply.{
  write_fields, rewrite, tie, adopt_children, join_parent, finish, commit,
  apply_to_instance_description,
}
use tzafon_way_point.Tests.Worlds.{clock, p_id, b_id, add_proxy, add_browser, lease, at_time}

-- The proxy alone.
abbrev alone : World
alone = serve clock new (add add_proxy)

alone-Reachable : Reachable clock alone
alone-Reachable = served started (add add_proxy)

-- The browser names a parent that nobody knows, and so its registration fails.
abbrev with_missing_parent : InstanceDescription
with_missing_parent = record add_browser {
  parent = some (tie (record { instance_id = codes "x" }));
}

-- The proxy takes the browser in the meantime.
abbrev snatched : Gaps
snatched = record { first = update lease ∷ []; second = [] }

insert_new_among-Outcome_example :
    Outcome clock snatched with_missing_parent alone
      (insert_new_among clock snatched with_missing_parent alone)
insert_new_among-Outcome_example =
    insert_new_among-Outcome clock snatched with_missing_parent alone
      (Reachable-IsValid alone-Reachable)

abbrev left_over : World
left_over = (insert_new_among clock snatched with_missing_parent alone).1

-- The browser is gone, and the proxy lists it still.
left_over_b : get (codes "b") left_over.instance_description ≡ none
unfolding serve try_add_instance try_update_instance_description insert_new_instance_description
    claim settle release_on_failure apply_to_instance_description check_request check_parent
    check_children validate_relationship same_id find commit rewrite write_fields
    update_instance_description get_instance_id adopt_children join_parent finish get insert empty
    text_eq type_of_code insert_new_among settle_among serve_all remove
left_over_b = refl

left_over_p :
    get (codes "p") left_over.instance_description
    ≡ some (record default {
      created_timestamp_ms = at_time 0;
      instance_id = some p_id;
      instance_type = some (type_code warmpool_chrome_proxy);
      children = some (record {
        children = record { timestamp_ms = at_time 30_000; instance_id = some b_id } ∷ [];
      });
    })
unfolding serve try_add_instance try_update_instance_description insert_new_instance_description
    claim settle release_on_failure apply_to_instance_description check_request check_parent
    check_children validate_relationship same_id find commit rewrite write_fields
    update_instance_description get_instance_id adopt_children join_parent finish get insert empty
    text_eq type_of_code insert_new_among settle_among serve_all remove
left_over_p = refl

-- So the state is not valid any more.
left_over_broken : ¬ IsValid left_over
left_over_broken v =
    let (i, e, n, g, a) =
      v.linked.child_back (codes "p") _
        (record { timestamp_ms = at_time 30_000; instance_id = some b_id }) left_over_p
        (inl refl) in
    let here : codes "b" ≡ i = ground (arith, n) in absurd (ground (arith, left_over_b, g, here))
