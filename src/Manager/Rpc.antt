-- ===== src/Manager/Rpc.antt =====
-- apps/rust-instance-manager/src/service.rs: the methods of TryService, GetService, PostService.
pub mod Listing
pub mod Metrics
use tzafon_way_point.Prelude.{
  ℕ, Bool, ◌&&◌, some, is_none, is_some, if◌then◌else◌, ◌==◌, keep, map, unwrap_or, codes,
}
use tzafon_way_point.Prelude.Status.{ok, err, invalid_argument}
use tzafon_way_point.Proto.{
  InstanceId, InstanceDescription, AllInstancesQuery, AllInstancesResponse,
}
use tzafon_way_point.Dict.{values}
use tzafon_way_point.Manager.World.{Exec}
use tzafon_way_point.Manager.Apply.{apply_to_instance_description, get_instance_description}
use tzafon_way_point.Manager.Register.{insert_new_instance_description}

abbrev pub no_metrics : InstanceDescription → Bool
no_metrics r =
    is_none r.proxy_metrics
    && (is_none r.system_metrics && (is_none r.gpu_metrics && is_none r.llm_metrics))

abbrev pub gated : Bool → Exec Bool → Exec Bool
gated admitted m w = if admitted then m w else (err (invalid_argument "Invalid request"), w)

-- The patterns of the three writing methods.
abbrev pub is_add : InstanceDescription → Bool
is_add r =
    is_some r.instance_id
    && (is_none r.created_timestamp_ms
        && (is_some r.instance_type
            && (is_none r.health_check && (no_metrics r && is_none r.kill_instance_request))))

abbrev pub is_update : InstanceDescription → Bool
is_update r =
    is_some r.instance_id
    && (is_none r.created_timestamp_ms && (is_none r.instance_type && no_metrics r))

abbrev pub is_post : InstanceDescription → Bool
is_post r =
    is_some r.instance_id
    && (is_none r.created_timestamp_ms
        && (is_none r.instance_type
            && (is_none r.children
                && (is_none r.parent
                    && (is_none r.health_check
                        && (is_none r.kill_instance_request && is_none r.services))))))

module _ (clock : ℕ → ℕ) where
  unfoldable pub try_add_instance : InstanceDescription → Exec Bool
  try_add_instance r = gated (is_add r) (insert_new_instance_description clock r)

  unfoldable pub try_update_instance_description : InstanceDescription → Exec Bool
  try_update_instance_description r = gated (is_update r) (apply_to_instance_description clock r)

  unfoldable pub post_instance_description : InstanceDescription → Exec Bool
  post_instance_description r = gated (is_post r) (apply_to_instance_description clock r)

-- The three filters of `get_all_instances`.
abbrev pub is_wanted : ℕ → InstanceDescription → Bool
is_wanted code d = unwrap_or d.instance_type 0 == code

abbrev pub has_beaten : InstanceDescription → Bool
has_beaten d = is_some d.health_check

abbrev pub is_alive : InstanceDescription → Bool
is_alive d = is_none d.kill_instance_request

abbrev pub id_or_missing : InstanceDescription → InstanceId
id_or_missing d = unwrap_or d.instance_id (record { instance_id = codes "instance_id_missing" })

unfoldable pub get_all_instances : AllInstancesQuery → Exec AllInstancesResponse
get_all_instances q w = (
  ok (record {
    instance_ids = map id_or_missing (
        keep is_alive
          (keep has_beaten (keep (is_wanted q.instance_type) (values w.instance_description))));
  }),
  w,
)

unfoldable pub get_instance : InstanceId → Exec InstanceDescription
get_instance id = get_instance_description (some id)
