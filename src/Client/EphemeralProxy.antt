-- ===== src/Client/EphemeralProxy.antt =====
-- apps/rust-instance-container/src/browser/ephemeral_browser_proxy.rs: how a proxy takes a browser for
-- a connection and gives it up. Other clients may come between any two of its calls.
pub mod Calls
pub mod Leasing
pub mod Finding
pub mod Connecting
pub mod Closing
use tzafon_way_point.Prelude.{
  ℕ, suc, ◌+◌, Bool, true, false, ◌&&◌, Option, none, some, List, [], ◌∷◌, Text, codes, ltb, sub64,
  is_none, if◌then◌else◌,
}
use tzafon_way_point.Prelude.Status.{Status, Result, ok, err, internal}
use tzafon_way_point.Proto.{
  TimestampMs, InstanceId, HealthCheck, Relationship, Services, KillInstanceRequest,
  AllInstancesQuery, AllInstancesResponse, InstanceDescription, default, chrome_browser, type_code,
  killed, reason_code,
}
use tzafon_way_point.Manager.World.{World, Exec}
use tzafon_way_point.Manager.Apply.{tie}
use tzafon_way_point.Manager.Rpc.{try_update_instance_description, get_all_instances, get_instance}
use tzafon_way_point.Manager.Lifetime.{Event, serve_all}
use tzafon_way_point.Gateway.Http.{
  Result as HttpResult, ok as http_ok, err as http_err, Error, io_error, Request,
}
use tzafon_way_point.Gateway.Rewrite.{
  HttpProxyConfig, replace, root, new, with_path_override, with_header_override, modify_request,
}

-- What becomes of a call: it is answered, its answer is lost, or it does not arrive.
pub data Delivery : Type 0 where
  answered answer_lost undelivered : Delivery

unfoldable pub call : {A : Type 0} → Delivery → Exec A → Exec A
call answered m w = m w
call answer_lost m w = (err (internal "connection lost"), (m w).1)
call undelivered m w = (err (internal "unavailable"), w)

-- "Found healthy instance": no parent, not killed, and a heart beat in the last five seconds. The time
-- is that of the proxy's host; its subtraction wraps around.
unfoldable pub is_available : ℕ → InstanceDescription → Bool
is_available now d =
    is_none d.parent
    && (is_none d.kill_instance_request && elim d.health_check [
      | none ↦ false
      | some h ↦ elim h.timestamp_ms [ none ↦ false | some t ↦ ltb (sub64 now 5000) t.timestamp_ms ]
    ])

-- The request that makes `me` the parent of an instance.
unfoldable pub lease_request : InstanceId → InstanceId → InstanceDescription
lease_request me id = record default { instance_id = some id; parent = some (tie me) }

-- The request of `on_close`.
unfoldable pub kill_on_close : InstanceId → InstanceDescription
kill_on_close id = record default {
  instance_id = some id;
  kill_instance_request = some (record { timestamp_ms = none; kill_reason = reason_code killed });
}

-- What happens around the proxy's n-th call: the events before it, what becomes of it, and the time.
pub record Moment : Type 0 where
  pub before : List Event
  pub delivery : Delivery
  pub now : ℕ

abbrev pub failed : HttpResult InstanceDescription
failed = http_err (io_error "No available instance found")

abbrev pub Leased : Type 0
Leased = HttpResult InstanceDescription × World

-- `if let Ok(instance_health) = ... else continue`
abbrev pub considered :
    Result InstanceDescription × World
    → (InstanceDescription → World → Leased)
    → (World → Leased)
    → Leased
considered (ok d, w) f next = f d w
considered (err e, w) f next = next w

-- The response to the lease: only `Ok(true)` ends the search.
abbrev pub decided : InstanceDescription → Result Bool × World → (World → Leased) → Leased
decided d (ok true, w) next = (http_ok d, w)
decided d (ok false, w) next = next w
decided d (err e, w) next = next w

module _ (clock : ℕ → ℕ) (moments : ℕ → Moment) (me : InstanceId) where
  -- A call of the proxy's, with what happens before it.
  unfoldable pub call_at : {A : Type 0} → ℕ → Exec A → Exec A
  call_at n m w = call (moments n).delivery m (serve_all clock w (moments n).before)

  -- The loop of `get_instance` over the listed ids, from the n-th call on.
  unfoldable pub try_instances : List InstanceId → ℕ → World → Leased
  try_instances [] n w = (failed, w)
  try_instances (id ∷ ids) n w =
      considered (call_at n (get_instance id) w)
        (λ d w1. elim (is_available (moments n).now d) [
          | false ↦ try_instances ids (suc n) w1
          | true ↦
              decided d
                (call_at (suc n) (try_update_instance_description clock (lease_request me id)) w1)
                (λ w2. try_instances ids (suc (suc n)) w2)
        ])
        (λ w1. try_instances ids (suc n) w1)

  abbrev pub try_listed : Result AllInstancesResponse × World → Leased
  try_listed (err e, w) = (http_err (io_error "Failed to get instances"), w)
  try_listed (ok listing, w) = try_instances listing.instance_ids 1 w

  -- `get_instance`
  unfoldable pub lease_instance : World → Leased
  lease_instance w =
      try_listed
        (call_at 0 (get_all_instances (record { instance_type = type_code chrome_browser })) w)

-- The two ports of a browser.
pub data ProxyType : Type 0 where
  cdp tzafonwright : ProxyType

abbrev pub service_of : ProxyType → Services → Option Text
service_of cdp s = s.chrome_debug_port_service
service_of tzafonwright s = s.tzafonwright_service

unfoldable pub get_proxy_config : ProxyType → InstanceDescription → HttpResult HttpProxyConfig
get_proxy_config kind d = elim d.services [
  | none ↦ http_err (io_error "Instance has no address")
  | some s ↦ elim (service_of kind s) [
    | none ↦ http_err (io_error "Instance has no address")
    | some address ↦ http_ok (
        with_header_override (codes "Host") address
          (with_path_override (replace root) (new address)))
  ]
]

-- A connection of the proxy: what is written, where to, and the instance that `on_close` kills.
pub record ProxyConnection : Type 0 where
  pub request : Request
  pub server_addr : Text
  pub instance_id : InstanceId

module _ (connects : Text → Bool) (kind : ProxyType) (request : Request) where
  abbrev pub connect_to : InstanceId → HttpProxyConfig → HttpResult ProxyConnection
  connect_to id c =
      if connects c.server_addr
      then http_ok (record {
        request = modify_request c request;
        server_addr = c.server_addr;
        instance_id = id;
      })
      else http_err (io_error "Failed to connect to instance")

  -- What `new_connection` does with the instance it got.
  unfoldable pub connect : InstanceDescription → HttpResult ProxyConnection
  connect d = elim d.instance_id [
    | none ↦ http_err (io_error "Instance has no id")
    | some id ↦ elim (get_proxy_config kind d) [
      | http_err e ↦ http_err e
      | http_ok c ↦ connect_to id c
    ]
  ]

  abbrev pub connect_leased : Leased → HttpResult ProxyConnection × World
  connect_leased (http_err e, w) = (http_err e, w)
  connect_leased (http_ok d, w) = (connect d, w)

  -- `new_connection` of the proxy
  unfoldable pub open_connection :
      (ℕ → ℕ) → (ℕ → Moment) → InstanceId → World → HttpResult ProxyConnection × World
  open_connection clock moments me w = connect_leased (lease_instance clock moments me w)

abbrev pub closed : Result Bool × World → HttpResult (Unit {0}) × World
closed (ok b, w) = (http_ok tt, w)
closed (err e, w) = (http_err (io_error "Failed to kill instance"), w)

-- `on_close`, as the proxy's n-th call. What the connection came to is only logged.
unfoldable pub on_close :
    (ℕ → ℕ) → (ℕ → Moment) → InstanceId → ℕ → InstanceId → World → HttpResult (Unit {0}) × World
on_close clock moments me n id w =
    closed (call_at clock moments me n (try_update_instance_description clock (kill_on_close id)) w)
