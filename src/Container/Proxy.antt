-- ===== src/Container/Proxy.antt =====
-- apps/rust-instance-container/src/browser/ephemeral_browser_proxy.rs: how a proxy starts, with
-- `start_health_loop` of apps/rust-shared/src/utils.rs.
pub mod Ready
use tzafon_way_point.Prelude.{
  ℕ, Bool, true, false, Option, none, List, [], ◌∷◌, Text, codes, if◌then◌else◌,
}
use tzafon_way_point.Prelude.Status.{Result}
use tzafon_way_point.Proto.{InstanceId, InstanceType, Services, warmpool_chrome_proxy}
use tzafon_way_point.Manager.World.{World}
use tzafon_way_point.Manager.Rpc.{try_add_instance}
use tzafon_way_point.Client.HeartBeat.{Outcome, added, failed, registration, initialize_health_loop}
use tzafon_way_point.Client.EphemeralProxy.{Delivery, call, ProxyType, cdp, tzafonwright}
use tzafon_way_point.Container.{address, check, generate_instance_id}
use tzafon_way_point.Container.Chrome.{Anyhow, ok, err, ◌>>=◌, ◌>>◌}

abbrev pub health_loop_started : Outcome → Anyhow (Unit {0})
health_loop_started added = ok tt
health_loop_started (failed what) = err what

-- `start_health_loop`: the heart beat starts once the instance is added.
unfoldable pub start_health_loop :
    (ℕ → ℕ)
    → Delivery
    → InstanceId
    → InstanceType
    → Option Services
    → World
    → Anyhow (Unit {0}) × World
start_health_loop clock delivery id kind services w =
    let (res, w') = call delivery (try_add_instance clock (registration id kind services)) w in
    (health_loop_started (initialize_health_loop res), w')

pub record Args : Type 0 where
  pub cdp_port : ℕ
  pub tzafonwright_port : ℕ

pub record Environment : Type 0 where
  pub uuid : Text
  -- `get_channel`
  pub reaches_manager : Bool
  -- What becomes of the registration
  pub delivery : Delivery
  pub binds : Text → Bool

-- A proxy that runs: its id, and the kind and address of each of its gateways.
pub record Running : Type 0 where
  pub instance_id : InstanceId
  pub gateways : List (ProxyType × Text)

abbrev pub listen : Args → Environment → InstanceId → Anyhow Running
listen args env id = do
  let cdp_addr = address (codes "0.0.0.0") args.cdp_port
  check (env.binds cdp_addr) "Failed to start simple gateway: Failed to bind address"
  let tzafonwright_addr = address (codes "0.0.0.0") args.tzafonwright_port
  check (env.binds tzafonwright_addr) "Failed to start simple gateway: Failed to bind address"
  ok (record {
    instance_id = id;
    gateways = (cdp, cdp_addr) ∷ (tzafonwright, tzafonwright_addr) ∷ [];
  })

abbrev pub listens_after :
    Args → Environment → InstanceId → Anyhow (Unit {0}) × World → Anyhow Running × World
listens_after args env id (started, w) = (started >> listen args env id, w)

-- `main` of the proxy, up to where it waits for the token
unfoldable pub proxy_main : (ℕ → ℕ) → Args → Environment → World → Anyhow Running × World
proxy_main clock args env w =
    let id = generate_instance_id (codes "ephemeral-browser-proxy") env.uuid in
    if env.reaches_manager
    then listens_after args env id
        (start_health_loop clock env.delivery id warmpool_chrome_proxy none w)
    else (err "Failed to connect", w)
