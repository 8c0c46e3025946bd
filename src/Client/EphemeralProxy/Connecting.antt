-- ===== src/Client/EphemeralProxy/Connecting.antt =====
-- What a connection of the proxy sends, and what a failed one leaves behind.
use mathlib.Core.Path.{subst}
use tzafon_way_point.Prelude.{
  ℕ, ◌≡◌, refl, sym, ap, ◌∙◌, ◌⊎◌, inl, inr, true, false, none, Bool, some, Text, [], ◌∷◌, arith,
  codes, Bool-cases, Option-cases,
}
use tzafon_way_point.Proto.{InstanceId, Services, InstanceDescription}
use tzafon_way_point.Dict.{empty, get-insert_self}
use tzafon_way_point.Dict.Distinct.{insert-IsDistinct, empty-IsDistinct}
use tzafon_way_point.Dict.Named.{named}
use tzafon_way_point.Manager.World.{World}
use tzafon_way_point.Manager.Lifetime.{Reachable}
use tzafon_way_point.Manager.Apply.{tie}
use tzafon_way_point.Manager.Apply.Leases.{HasParent}
use tzafon_way_point.Gateway.Http.{
  Result as HttpResult, ok as http_ok, err as http_err, Error, io_error, Request,
}
use tzafon_way_point.Gateway.Rewrite.{
  HttpProxyConfig, replace, root, new, with_path_override, with_header_override, modify_request,
  override_path,
}
use tzafon_way_point.Gateway.Rewrite.Headers.{replaced, modify_request-headers}
use tzafon_way_point.Client.EphemeralProxy.{
  Moment, ProxyType, service_of, get_proxy_config, ProxyConnection, connect_to, connect,
  connect_leased, open_connection, lease_instance,
}
use tzafon_way_point.Client.EphemeralProxy.Leasing.{Outcome, lease_instance-Outcome}

abbrev host : Text
host = codes "Host"

-- The configuration for one address.
abbrev pub config_for : Text → HttpProxyConfig
config_for address =
    with_header_override host address (with_path_override (replace root) (new address))

rewritten :
    (address : Text) (request : Request)
    → ((modify_request (config_for address) request).path ≡ root)
      × (named host (modify_request (config_for address) request).headers ≡ (host, address) ∷ [])
unfolding with_header_override with_path_override new modify_request override_path
rewritten address request = (
  refl,
  modify_request-headers (config_for address) request host
        (insert-IsDistinct host address empty (empty-IsDistinct Text))
      ∙ ap (λ o. replaced host o request.headers) (get-insert_self host address empty),
)

-- The instance does not say where to connect to, or that server does not take the connection.
abbrev pub Unserved : (Text → Bool) → ProxyType → InstanceDescription → Type 0
Unserved connects kind d =
    (d.instance_id ≡ none)
    ⊎ ((d.services ≡ none)
        ⊎ ((s : Services) × (d.services ≡ some s)
            × ((service_of kind s ≡ none)
                ⊎ ((a : Text) × (service_of kind s ≡ some a) × (connects a ≡ false)))))

-- Where a connection goes to, and what is sent there.
abbrev pub Connected :
    (Text → Bool) → ProxyType → InstanceDescription → HttpResult ProxyConnection → Type 0
Connected connects kind d (http_err e) = Unserved connects kind d
Connected connects kind d (http_ok c) =
    (d.instance_id ≡ some c.instance_id)
    × ((s : Services) × (d.services ≡ some s) × (service_of kind s ≡ some c.server_addr))
    × (connects c.server_addr ≡ true)
    × (c.request.path ≡ root)
    × (named host c.request.headers ≡ (host, c.server_addr) ∷ [])

connect_to-Connected :
    (connects : Text → Bool) (kind : ProxyType) (request : Request) (d : InstanceDescription)
    (id : InstanceId) (s : Services) (address : Text)
    → d.instance_id ≡ some id
    → d.services ≡ some s
    → service_of kind s ≡ some address
    → Connected connects kind d (connect_to connects kind request id (config_for address))
unfolding with_header_override with_path_override new
connect_to-Connected connects kind request d id s address hi hs ha =
    elim (Bool-cases (connects address)) [
      | inl e ↦
          let (path, headers) = rewritten address request in
          rw e (hi, (s, hs, ha), e, path, headers)
      | inr e ↦ rw e (inr (inr (s, hs, inr (address, ha, e))))
    ]

pub connect_lem :
    (connects : Text → Bool) (kind : ProxyType) (request : Request) (d : InstanceDescription)
    (id : InstanceId) (s : Services) (address : Text)
    → d.instance_id ≡ some id
    → d.services ≡ some s
    → service_of kind s ≡ some address
    → connect connects kind request d ≡ connect_to connects kind request id (config_for address)
unfolding connect get_proxy_config
connect_lem connects kind request d id s address e f g =
    rw (e, connect) (rw (f, get_proxy_config) (rw g refl))

-- For every instance that a proxy is to connect to: it connects to the service that the instance names
-- for the kind of the proxy, with the path "/" and the address of the service as its one "Host" header;
-- or it fails, and the instance has no id, names no such service, or its server takes no connection.
pub connect-Connected :
    (connects : Text → Bool) (kind : ProxyType) (request : Request) (d : InstanceDescription)
    → Connected connects kind d (connect connects kind request d)
unfolding connect get_proxy_config
connect-Connected connects kind request d = elim (Option-cases d.instance_id) [
  | inl e ↦ fails (io_error "Instance has no id") (rw (e, connect) refl) (inl e)
  | inr (id, e) ↦ elim (Option-cases d.services) [
    | inl f ↦
        fails (io_error "Instance has no address") (rw (e, connect) (rw (f, get_proxy_config) refl))
          (inr (inl f))
    | inr (s, f) ↦ elim (Option-cases (service_of kind s)) [
      | inl g ↦
          fails (io_error "Instance has no address")
            (rw (e, connect) (rw (f, get_proxy_config) (rw g refl))) (inr (inr (s, f, inl g)))
      | inr (address, g) ↦
          subst (Connected connects kind d)
            (sym (connect_lem connects kind request d id s address e f g))
            (connect_to-Connected connects kind request d id s address e f g)
    ]
  ]
]
  where
    fails :
        (x : Error)
        → connect connects kind request d ≡ http_err x
        → Unserved connects kind d
        → Connected connects kind d (connect connects kind request d)
    fails x e u = subst (Connected connects kind d) (sym e) u

connect_refused :
    (connects : Text → Bool) (kind : ProxyType) (request : Request) (d : InstanceDescription)
    (res : HttpResult ProxyConnection)
    → connect connects kind request d ≡ res
    → ((a : Text) → connects a ≡ false)
    → (x : Error) × (res ≡ http_err x)
connect_refused connects kind request d (http_err x) e none_connects = (x, refl)
connect_refused connects kind request d (http_ok c) e none_connects =
    let connected =
      subst (Connected connects kind d) e (connect-Connected connects kind request d) in
    absurd (ground (arith, connected.2, none_connects c.server_addr))

-- From a state that the service can come to: when a proxy has got an instance and no server can be
-- connected to, its connection fails, and the proxy is the parent of that instance in the manager still.
pub open_connection_keeps_lease :
    (connects : Text → Bool) (kind : ProxyType) (request : Request) (clock : ℕ → ℕ)
    (moments : ℕ → Moment) (me : InstanceId) (w : World) (d : InstanceDescription) (w' : World)
    → Reachable clock w
    → lease_instance clock moments me w ≡ (http_ok d, w')
    → ((a : Text) → connects a ≡ false)
    → ((x : Error) × (open_connection connects kind request clock moments me w ≡ (http_err x, w')))
      × ((id : InstanceId) × (d.instance_id ≡ some id)
          × HasParent w'.instance_description id.instance_id (tie me))
unfolding open_connection
open_connection_keeps_lease connects kind request clock moments me w d w' r e none_connects =
    let (x, failed) =
      connect_refused connects kind request d (connect connects kind request d) refl
        none_connects in
    let (reached, (id, named, free, mine)) =
      subst (Outcome clock moments me w) e (lease_instance-Outcome clock moments me w r) in
    ((x, ap (connect_leased connects kind request) e ∙ ap (λ z. (z, w')) failed), (id, named, mine))
