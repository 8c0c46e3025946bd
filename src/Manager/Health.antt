-- ===== src/Manager/Health.antt =====
-- apps/rust-instance-manager/src/service.rs: `unhealth_instance`, which says why an instance has to
-- be killed. Times are `u64` milliseconds; the release build subtracts them with wrap-around.
pub mod Verdicts
use tzafon_way_point.Prelude.{ℕ, Bool, false, Option, none, some, if◌then◌else◌, ltb, sub64}
use tzafon_way_point.Proto.{
  InstanceType, chrome_browser, fake_instance, agent, KillReason, timeout, health_check_failed,
  killed, TimestampMs, InstanceDescription, type_of_code,
}

abbrev pub chrome_browser_timeout_ms : ℕ
chrome_browser_timeout_ms = 5000

abbrev pub chrome_browser_session_lifetime_ms : ℕ
chrome_browser_session_lifetime_ms = 3_600_000

abbrev pub chrome_browser_max_lifetime_ms : ℕ
chrome_browser_max_lifetime_ms = 86_400_000

abbrev pub agent_grace_ms : ℕ
agent_grace_ms = 60_000

-- `health_check.and_then(|h| h.timestamp_ms).unwrap_or(created)`
abbrev pub last_activity : InstanceDescription → TimestampMs → ℕ
last_activity d created = elim d.health_check [
  | none ↦ created.timestamp_ms
  | some h ↦ elim h.timestamp_ms [ none ↦ created.timestamp_ms | some t ↦ t.timestamp_ms ]
]

-- The guard of the first case: the instance has been connected for too long.
abbrev pub session_over : InstanceDescription → ℕ → Bool
session_over d now = elim d.parent [
  | none ↦ false
  | some p ↦ elim p.timestamp_ms [
    | none ↦ false
    | some t ↦ ltb chrome_browser_session_lifetime_ms (sub64 now t.timestamp_ms)
  ]
]

unhealth_browser : InstanceDescription → TimestampMs → ℕ → Option KillReason
unhealth_browser d created now =
    if session_over d now
    then some timeout
    else if ltb chrome_browser_timeout_ms (sub64 now (last_activity d created))
    then some health_check_failed
    else if ltb chrome_browser_max_lifetime_ms (sub64 now created.timestamp_ms)
    then some killed
    else none

unhealth_agent : InstanceDescription → TimestampMs → ℕ → Option KillReason
unhealth_agent d created now =
    if ltb (sub64 now created.timestamp_ms) agent_grace_ms
    then none
    else if ltb 5000 (sub64 now (last_activity d created))
    then some health_check_failed
    else if ltb 86_400_000 (sub64 now (last_activity d created))
    then some timeout
    else none

unhealth_typed : Option InstanceType → InstanceDescription → TimestampMs → ℕ → Option KillReason
unfolding unhealth_browser unhealth_agent
unhealth_typed (some chrome_browser) d created now = unhealth_browser d created now
unhealth_typed (some fake_instance) d created now = unhealth_browser d created now
unhealth_typed (some agent) d created now = unhealth_agent d created now
unhealth_typed _ d created now = none

unfoldable pub unhealth_instance : InstanceDescription → ℕ → Option KillReason
unfolding unhealth_typed
unhealth_instance d now = elim d.instance_type [
  | none ↦ none
  | some code ↦ elim d.created_timestamp_ms [
    | none ↦ none
    | some created ↦ unhealth_typed (type_of_code code) d created now
  ]
]
