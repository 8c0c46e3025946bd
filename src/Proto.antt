-- ===== src/Proto.antt =====
-- apps/proto-definition/instance_manager.proto: the messages and enums, as prost generates them.
-- A `uint64` is a number below 2^64; an enum field (an `i32`) and a `float` are the numbers of
-- their bit patterns, so a negative enum value is at least 2^31 and is unknown like any above 8.
mod Enums
unfoldable pub use Enums.*
use tzafon_way_point.Prelude.{ℕ, Text, Option, none, some, List, []}

pub record TimestampMs : Type 0 where
  pub timestamp_ms : ℕ

pub record InstanceId : Type 0 where
  pub instance_id : Text

pub record HealthCheck : Type 0 where
  pub timestamp_ms : Option TimestampMs

pub record SystemMetrics : Type 0 where
  pub timestamp_ms : Option TimestampMs
  pub used_memory_bytes : ℕ
  pub total_memory_bytes : ℕ

pub record ProxyMetrics : Type 0 where
  pub timestamp_ms : Option TimestampMs
  pub active_connections : ℕ
  pub num_connections : ℕ
  pub client_to_server_bytes : ℕ
  pub server_to_client_bytes : ℕ

pub record LlmMetrics : Type 0 where
  pub timestamp_ms : Option TimestampMs
  pub num_requests : ℕ
  pub tokens_received : ℕ
  pub tokens_sent : ℕ

pub record GpuMetricData : Type 0 where
  pub used_memory : ℕ
  pub total_memory : ℕ
  pub utilization : ℕ

pub record GpuMetrics : Type 0 where
  pub timestamp_ms : Option TimestampMs
  pub gpu_metrics : List GpuMetricData

pub record AllInstancesQuery : Type 0 where
  pub instance_type : ℕ

pub record AllInstancesResponse : Type 0 where
  pub instance_ids : List InstanceId

pub record KillInstanceRequest : Type 0 where
  pub timestamp_ms : Option TimestampMs
  pub kill_reason : ℕ

pub record Relationship : Type 0 where
  pub timestamp_ms : Option TimestampMs
  pub instance_id : Option InstanceId

pub record Children : Type 0 where
  pub children : List Relationship

pub record Services : Type 0 where
  pub timestamp_ms : Option TimestampMs
  pub chrome_debug_port_service : Option Text
  pub tzafonwright_service : Option Text

pub record InstanceDescription : Type 0 where
  pub created_timestamp_ms : Option TimestampMs
  pub instance_type : Option ℕ
  pub instance_id : Option InstanceId
  pub kill_instance_request : Option KillInstanceRequest
  pub services : Option Services
  pub children : Option Children
  pub parent : Option Relationship
  pub health_check : Option HealthCheck
  pub proxy_metrics : Option ProxyMetrics
  pub system_metrics : Option SystemMetrics
  pub gpu_metrics : Option GpuMetrics
  pub llm_metrics : Option LlmMetrics

-- `Default::default()`: every field unset.
abbrev pub default : InstanceDescription
default = record {
  created_timestamp_ms = none;
  instance_type = none;
  instance_id = none;
  kill_instance_request = none;
  services = none;
  children = none;
  parent = none;
  health_check = none;
  proxy_metrics = none;
  system_metrics = none;
  gpu_metrics = none;
  llm_metrics = none;
}

-- `children.clone().unwrap_or_default().children`
abbrev pub listed : Option Children → List Relationship
listed none = []
listed (some c) = c.children
