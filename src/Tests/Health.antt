-- ===== src/Tests/Health.antt =====
-- The theorems on the health of instances, for a browser and an agent.
use tzafon_way_point.Prelude.{◌≡◌, ◌≢◌, refl, inl, none, some, arith}
use tzafon_way_point.Proto.{
  InstanceDescription, timeout, health_check_failed, chrome_browser, agent, type_code,
}
use tzafon_way_point.Manager.Health.{unhealth_instance}
use tzafon_way_point.Manager.Health.Verdicts.{
  browser_verdict, unhealth-eq-verdict, future_heartbeat_fails, agent-ne-timeout,
}
use tzafon_way_point.Tests.Worlds.{browser, at_time}

abbrev beaten : InstanceDescription
beaten = record browser { health_check = some (record { timestamp_ms = at_time 9000 }) }

abbrev old_agent : InstanceDescription
old_agent = record browser { instance_type = some (type_code agent) }

unhealth-eq-verdict_example : unhealth_instance beaten 12_000 ≡ browser_verdict none 9000 0 12_000
unhealth-eq-verdict_example =
    unhealth-eq-verdict beaten chrome_browser (record { timestamp_ms = 0 }) 12_000 (inl refl) refl
      refl (omega arith) (omega arith) (omega arith) (λ t e. cc)

-- One millisecond ahead of the loop.
future_heartbeat_fails_example : unhealth_instance beaten 8999 ≡ some health_check_failed
future_heartbeat_fails_example =
    future_heartbeat_fails beaten chrome_browser (record { timestamp_ms = 0 }) 8999 (inl refl) refl
      refl refl (omega arith) (omega arith) (omega arith)

agent-ne-timeout_example : unhealth_instance old_agent 90_000_000 ≢ some timeout
agent-ne-timeout_example = agent-ne-timeout old_agent 90_000_000 refl
