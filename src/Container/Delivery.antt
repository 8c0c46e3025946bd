-- ===== src/Container/Delivery.antt =====
-- From a proxy's client to Chrome: what the container registers leads a proxy to its gateway, and the
-- gateway leads it to Chrome.
use mathlib.Core.Path.{subst}
use tzafon_way_point.Prelude.{
  ℕ, suc, ◌≡◌, refl, sym, ap, ◌∙◌, true, false, Bool, Option, none, some, List, [], ◌∷◌, ◌++◌, Text,
  String, codes, arith,
}
use tzafon_way_point.Proto.{InstanceId, Services, InstanceDescription, chrome_browser}
use tzafon_way_point.Dict.{get, empty, get-insert_self}
use tzafon_way_point.Dict.Distinct.{insert-IsDistinct, empty-IsDistinct}
use tzafon_way_point.Dict.Named.{named}
use tzafon_way_point.Manager.World.{World}
use tzafon_way_point.Manager.Invariant.{IsValid}
use tzafon_way_point.Manager.Register.Claim.{claimed}
use tzafon_way_point.Manager.Rpc.{try_add_instance}
use tzafon_way_point.Gateway.Http.{ok as http_ok, Request}
use tzafon_way_point.Gateway.Rewrite.{
  new, with_path_override, with_header_override, modify_request, override_path,
}
use tzafon_way_point.Gateway.Rewrite.Headers.{replaced, modify_request-headers}
use tzafon_way_point.Client.HeartBeat.Stored.{joined, try_add_instance-joined}
use tzafon_way_point.Client.EphemeralProxy.{cdp, ProxyConnection, connect}
use tzafon_way_point.Client.EphemeralProxy.Connecting.{config_for, connect_lem}
use tzafon_way_point.Container.Chrome.{Anyhow, ok, err, ◌>>=◌, ok_or, start_chrome}
use tzafon_way_point.Container.{
  Uri, Args, Environment, Setup, address, create_services_from_args, own_address, host_and_port,
  check, generate_instance_id, chrome_config, browser_main, registration_of,
}

module _ {ℓ κ} {A : Type ℓ} {B : Type κ} where
  bind_ok :
      (m : Anyhow A) (f : A → Anyhow B) {b : B}
      → (m >>= f) ≡ ok b
      → (a : A) × (m ≡ ok a) × (f a ≡ ok b)
  bind_ok (ok a) f h = (a, refl, h)
  bind_ok (err e) f h = cc

checked :
    {B : Type 0} (b : Bool) (what : String) (m : Anyhow B) {x : B}
    → (check b what >>= λ _. m) ≡ ok x
    → m ≡ ok x
checked true what m h = h
checked false what m h = cc

some_of_ok : {A : Type 0} (o : Option A) (what : String) {a : A} → ok_or o what ≡ ok a → o ≡ some a
some_of_ok none what h = cc
some_of_ok (some a) what h = cc

-- The setup that comes of a container's own address and Chrome's.
abbrev pub setup_of : Args → Environment → Text → Uri → Text → Text → Setup
setup_of args env ip uri host port = record {
  instance_id = generate_instance_id (codes "browser-container") env.uuid;
  proxy_config = chrome_config (host ++ (codes ":" ++ port)) uri.path;
  listen_addr = address (codes "0.0.0.0") args.cdp_port;
  services = create_services_from_args ip (some args.cdp_port) (some args.tzafonwright_port) none;
}

-- Where the setup comes from
abbrev pub Origin : Args → Environment → Setup → Type 0
Origin args env s =
    (ip : Text) × (lines : List Text) × (ws_path : Text) × (uri : Uri) × (host : Text)
    × (port : Text) × (own_address env args.ip_address ≡ ok ip)
    × (env.chrome ≡ some lines)
    × (start_chrome lines ≡ ok ws_path)
    × (env.parse_uri ws_path ≡ some uri)
    × (uri.host ≡ some host)
    × (uri.port ≡ some port)
    × (s ≡ setup_of args env ip uri host port)

browser_main-Origin :
    (args : Args) (env : Environment) (s : Setup) → browser_main args env ≡ ok s → Origin args env s
unfolding browser_main
browser_main-Origin args env s h =
    let (ip, e1, h1) = bind_ok (own_address env args.ip_address) _ h in
    let (lines, e2, h2) = bind_ok (ok_or env.chrome "Failed to start Chrome") _ h1 in
    let (ws_path, e3, h3) = bind_ok (start_chrome lines) _ h2 in
    let h4 = checked env.tzafonwright_starts "Failed to start Tzafonwright" _ h3 in
    let (uri, e5, h5) = bind_ok (ok_or (env.parse_uri ws_path) "Invalid URI") _ h4 in
    let (target, e6, h6) = bind_ok (host_and_port uri) _ h5 in
    let (host, e7, h7) = bind_ok (ok_or uri.host "No host or port") _ e6 in
    let (port, e8, h8) = bind_ok (ok_or uri.port "No host or port") _ h7 in
    let h9 =
      checked (env.binds (address (codes "0.0.0.0") args.cdp_port)) "Failed to start gateway" _
        h6 in
    (
      ip,
      lines,
      ws_path,
      uri,
      host,
      port,
      e1,
      some_of_ok env.chrome "Failed to start Chrome" e2,
      e3,
      some_of_ok (env.parse_uri ws_path) "Invalid URI" e5,
      some_of_ok uri.host "No host or port" e7,
      some_of_ok uri.port "No host or port" e8,
      sym (ground (arith, h9, h8)),
    )

abbrev host_name : Text
host_name = codes "Host"

-- What the gateway in front of Chrome makes of a request
at_chrome :
    (server_addr path : Text) (r : Request)
    → ((modify_request (chrome_config server_addr path) r).path ≡ path)
      × (named host_name (modify_request (chrome_config server_addr path) r).headers
          ≡ (host_name, server_addr) ∷ [])
unfolding chrome_config with_header_override with_path_override new modify_request override_path
at_chrome server_addr path r = (
  refl,
  modify_request-headers (chrome_config server_addr path) r host_name
        (insert-IsDistinct host_name server_addr empty (empty-IsDistinct Text))
      ∙ ap (λ o. replaced host_name o r.headers) (get-insert_self host_name server_addr empty),
)

-- What a proxy that connects to the new instance reaches.
abbrev pub Reached : Args → Setup → Text → Uri → Text → Text → ProxyConnection → Type 0
Reached args s ip uri host port c =
    (c.instance_id ≡ s.instance_id)
    × (c.server_addr ≡ address ip args.cdp_port)
    × (s.listen_addr ≡ address (codes "0.0.0.0") args.cdp_port)
    × (s.proxy_config.server_addr ≡ host ++ (codes ":" ++ port))
    × ((modify_request s.proxy_config c.request).path ≡ uri.path)
    × (named host_name (modify_request s.proxy_config c.request).headers
        ≡ (host_name, host ++ (codes ":" ++ port)) ∷ [])

abbrev connection_to : InstanceId → Text → Request → ProxyConnection
connection_to id server_addr r = record {
  request = modify_request (config_for server_addr) r;
  server_addr = server_addr;
  instance_id = id;
}

connects_there :
    (id : InstanceId) (services : Services) (born stored : ℕ) (server_addr : Text)
    (connects : Text → Bool) (r : Request)
    → services.chrome_debug_port_service ≡ some server_addr
    → connects server_addr ≡ true
    → connect connects cdp r (joined id chrome_browser services born stored)
      ≡ http_ok (connection_to id server_addr r)
unfolding with_header_override with_path_override new
connects_there id services born stored server_addr connects r named_so up =
    connect_lem connects cdp r (joined id chrome_browser services born stored) id _ server_addr refl
      refl named_so
    ∙ rw up refl

setup_of-Reached :
    (args : Args) (env : Environment) (ip : Text) (uri : Uri) (host port : Text) (r : Request)
    → Reached args (setup_of args env ip uri host port) ip uri host port (
        connection_to
          (generate_instance_id (codes "browser-container") env.uuid)
          (address ip args.cdp_port)
          r)
unfolding chrome_config with_header_override with_path_override new
setup_of-Reached args env ip uri host port r =
    let (path, headers) =
      at_chrome (host ++ (codes ":" ++ port)) uri.path
        (modify_request (config_for (address ip args.cdp_port)) r) in
    (refl, refl, refl, refl, path, headers)

-- What the manager has of the container, where a proxy that connects to it goes, and what that comes from.
abbrev pub Delivery :
    (ℕ → ℕ) → World → Args → Environment → Setup → (Text → Bool) → Request → Type 0
Delivery clock w args env s connects r =
    (d : InstanceDescription) × (c : ProxyConnection) × (ip : Text) × (lines : List Text)
    × (ws_path : Text) × (uri : Uri) × (host : Text) × (port : Text) × (get
          s.instance_id.instance_id
          (try_add_instance clock (registration_of s) w).1.instance_description
        ≡ some d)
    × (connect connects cdp r d ≡ http_ok c)
    × (own_address env args.ip_address ≡ ok ip)
    × (env.chrome ≡ some lines)
    × (start_chrome lines ≡ ok ws_path)
    × (env.parse_uri ws_path ≡ some uri)
    × (uri.host ≡ some host)
    × (uri.port ≡ some port)
    × Reached args s ip uri host port c

-- If the container comes as far as its registration, and registers in a valid state under a free id,
-- then a proxy that connects to what the manager has of it then, and can reach the address there, goes to
-- the container's own address, at the port where its gateway listens; and the gateway passes the request
-- on to the host and port of the address that Chrome has announced, with the path of that address and
-- that host and port as the one "Host" header.
pub browser_main-Reached :
    (args : Args) (env : Environment) (s : Setup) (clock : ℕ → ℕ) (w : World)
    (connects : Text → Bool) (r : Request)
    → browser_main args env ≡ ok s
    → IsValid w
    → get s.instance_id.instance_id w.instance_description ≡ none
    → ((a : Text) → s.services.chrome_debug_port_service ≡ some a → connects a ≡ true)
    → Delivery clock w args env s connects r
unfolding create_services_from_args
browser_main-Reached args env s clock w connects r h v vacant up =
    let (ip, lines, ws_path, uri, host, port, own, e1, e2, e3, has_host, has_port, same) =
      browser_main-Origin args env s h in
    let server_addr = address ip args.cdp_port in
    let named_so = ap (λ (z : Setup). z.services.chrome_debug_port_service) same in
    (
      joined s.instance_id chrome_browser s.services (clock w.reads) (clock (suc w.reads)),
      connection_to s.instance_id server_addr r,
      ip,
      lines,
      ws_path,
      uri,
      host,
      port,
      unfold claimed in
          try_add_instance-joined clock s.instance_id chrome_browser s.services w v vacant,
      connects_there s.instance_id s.services (clock w.reads) (clock (suc w.reads)) server_addr
          connects r named_so (up server_addr named_so),
      own,
      e1,
      e2,
      e3,
      has_host,
      has_port,
      subst
          (λ (z : Setup).
            Reached args z ip uri host port (connection_to z.instance_id server_addr r))
          (sym same) (setup_of-Reached args env ip uri host port r),
    )
