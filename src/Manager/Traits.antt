-- ===== src/Manager/Traits.antt =====
-- apps/rust-instance-manager/src/traits.rs: how a part of a request is stamped and stored.
use mathlib.Core.List.{map, ◌++◌}
use tzafon_way_point.Prelude.{ℕ, suc, Option, none, some}
use tzafon_way_point.Prelude.Status.{Result, ok, err, invalid_argument}
use tzafon_way_point.Proto.{
  TimestampMs, InstanceId, HealthCheck, SystemMetrics, ProxyMetrics, LlmMetrics, GpuMetrics,
  KillInstanceRequest, Relationship, Children, Services, InstanceDescription, listed,
}

-- The traits `SetTimestamp` and `AddToInstanceDescription`.
pub record Entry (T : Type 0) : Type 0 where
  pub set_timestamp : T → TimestampMs → T
  pub add_to_instance_description : T → InstanceDescription → InstanceDescription

instance abbrev pub health_check_entry : Entry HealthCheck
health_check_entry = record {
  set_timestamp = λ v t. record v { timestamp_ms = some t };
  add_to_instance_description = λ v d. record d { health_check = some v };
}

instance abbrev pub proxy_metrics_entry : Entry ProxyMetrics
proxy_metrics_entry = record {
  set_timestamp = λ v t. record v { timestamp_ms = some t };
  add_to_instance_description = λ v d. record d { proxy_metrics = some v };
}

instance abbrev pub system_metrics_entry : Entry SystemMetrics
system_metrics_entry = record {
  set_timestamp = λ v t. record v { timestamp_ms = some t };
  add_to_instance_description = λ v d. record d { system_metrics = some v };
}

instance abbrev pub llm_metrics_entry : Entry LlmMetrics
llm_metrics_entry = record {
  set_timestamp = λ v t. record v { timestamp_ms = some t };
  add_to_instance_description = λ v d. record d { llm_metrics = some v };
}

instance abbrev pub gpu_metrics_entry : Entry GpuMetrics
gpu_metrics_entry = record {
  set_timestamp = λ v t. record v { timestamp_ms = some t };
  add_to_instance_description = λ v d. record d { gpu_metrics = some v };
}

instance abbrev pub kill_instance_request_entry : Entry KillInstanceRequest
kill_instance_request_entry = record {
  set_timestamp = λ v t. record v { timestamp_ms = some t };
  add_to_instance_description = λ v d. record d { kill_instance_request = some v };
}

instance abbrev pub services_entry : Entry Services
services_entry = record {
  set_timestamp = λ v t. record v { timestamp_ms = some t };
  add_to_instance_description = λ v d. record d { services = some v };
}

instance abbrev pub relationship_entry : Entry Relationship
relationship_entry = record {
  set_timestamp = λ v t. record v { timestamp_ms = some t };
  add_to_instance_description = λ v d. record d { parent = some v };
}

-- Children are stamped one by one, and added to those that are there.
instance abbrev pub children_entry : Entry Children
children_entry = record {
  set_timestamp =
      λ v t. record { children = map (λ c. relationship_entry.set_timestamp c t) v.children };
  add_to_instance_description =
      λ v d. record d { children = some (record { children = listed d.children ++ v.children }) };
}

-- `get_timestamp_ms` is `clock n` at the n-th call; the count of calls goes along.
unfoldable pub update_instance_description :
    {T : Type 0} ⦃e : Entry T⦄
    → (ℕ → ℕ)
    → Option T
    → InstanceDescription × ℕ
    → InstanceDescription × ℕ
update_instance_description clock none (d, n) = (d, n)
update_instance_description ⦃e⦄ clock (some v) (d, n) =
    (e.add_to_instance_description (e.set_timestamp v (record { timestamp_ms = clock n })) d, suc n)

-- `HasInstanceId` of `Option<InstanceId>`.
unfoldable pub get_instance_id : Option InstanceId → Result InstanceId
get_instance_id none = err (invalid_argument "Instance ID is required")
get_instance_id (some id) = ok id
