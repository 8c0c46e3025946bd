-- ===== src/Container.antt =====
-- apps/rust-instance-container: the container of one browser, from src/lib.rs and src/browser/main.rs.
-- What the processes and the network answer is the environment, a parameter.
pub mod Chrome
pub mod Delivery
pub mod Tasks
pub mod Proxy
use tzafon_way_point.Prelude.{
  ℕ, zero, suc, ◌+◌, ◌/◌, ◌%◌, Bool, true, false, Option, none, some, List, [], ◌∷◌, ◌++◌, Text,
  String, codes, ltb, if◌then◌else◌,
}
use tzafon_way_point.Proto.{InstanceId, Services, InstanceDescription, chrome_browser}
use tzafon_way_point.Gateway.Http.{trim}
use tzafon_way_point.Gateway.Rewrite.{
  HttpProxyConfig, replace, new, with_path_override, with_header_override,
}
use tzafon_way_point.Client.HeartBeat.{registration}
use tzafon_way_point.Container.Chrome.{Anyhow, ok, err, ◌>>=◌, ◌>>◌, ok_or, start_chrome}

digits : ℕ → ℕ → Text
digits zero n = []
digits (suc fuel) n =
    let rest = digits fuel (n / 10) in
    if ltb n 10 then (48 + n) ∷ [] else rest ++ (48 + n % 10) ∷ []

-- `Display` of a `u16`, which has five digits at most
unfoldable pub decimal : ℕ → Text
unfolding digits
decimal n = digits 5 n

-- `format!("{}:{}", host, port)`
unfoldable pub address : Text → ℕ → Text
address host port = host ++ (codes ":" ++ decimal port)

unfoldable pub create_services_from_args : Text → Option ℕ → Option ℕ → Option ℕ → Services
create_services_from_args ip cdp tzafonwright ssh = record {
  timestamp_ms = none;
  chrome_debug_port_service = elim cdp [ none ↦ none | some port ↦ some (address ip port) ];
  tzafonwright_service = elim tzafonwright [ none ↦ none | some port ↦ some (address ip port) ];
}

-- `generate_instance_id` of apps/rust-shared/src/utils.rs; the UUID is random.
unfoldable pub generate_instance_id : Text → Text → InstanceId
generate_instance_id prefix uuid = record { instance_id = prefix ++ (codes "-" ++ uuid) }

-- What `hostname -i` comes to: it cannot be run, or its status and output.
pub record HostName : Type 0 where
  pub success : Bool
  pub stdout : Text

unfoldable pub get_ip_address : Option HostName → Anyhow Text
get_ip_address none = err "Failed to run hostname"
get_ip_address (some output) =
    if output.success then ok (trim output.stdout) else err "Failed to get IP address"

-- The parts of a `hyper::Uri` that are used.
pub record Uri : Type 0 where
  pub host : Option Text
  pub port : Option Text
  pub path : Text

pub record Args : Type 0 where
  pub cdp_port : ℕ
  pub tzafonwright_port : ℕ
  pub ip_address : Option Text

pub record Environment : Type 0 where
  pub uuid : Text
  pub hostname : Option HostName
  -- Chrome cannot be started, or writes these lines to its standard error.
  pub chrome : Option (List Text)
  pub tzafonwright_starts : Bool
  -- The addresses that can be listened on
  pub binds : Text → Bool
  -- `Uri::from_maybe_shared`
  pub parse_uri : Text → Option Uri

-- What runs when the container registers: its gateway's configuration, where the gateway listens, and
-- the request of the registration.
pub record Setup : Type 0 where
  pub instance_id : InstanceId
  pub proxy_config : HttpProxyConfig
  pub listen_addr : Text
  pub services : Services

abbrev pub check : Bool → String → Anyhow (Unit {0})
check true what = ok tt
check false what = err what

abbrev own_address : Environment → Option Text → Anyhow Text
own_address env none = get_ip_address env.hostname
own_address env (some ip) = ok ip

-- `uri.host().zip(uri.port())`
abbrev pub host_and_port : Uri → Anyhow (Text × Text)
host_and_port uri = do
  host ← ok_or uri.host "No host or port"
  port ← ok_or uri.port "No host or port"
  ok (host, port)

-- The gateway in front of Chrome
unfoldable pub chrome_config : Text → Text → HttpProxyConfig
chrome_config server_addr path =
    with_path_override (replace path)
      (with_header_override (codes "Host") server_addr (new server_addr))

-- `main` up to the registration
unfoldable pub browser_main : Args → Environment → Anyhow Setup
browser_main args env = do
  let id = generate_instance_id (codes "browser-container") env.uuid
  ip ← own_address env args.ip_address
  lines ← ok_or env.chrome "Failed to start Chrome"
  ws_path ← start_chrome lines
  check env.tzafonwright_starts "Failed to start Tzafonwright"
  uri ← ok_or (env.parse_uri ws_path) "Invalid URI"
  target ← host_and_port uri
  let server_addr = target.0 ++ (codes ":" ++ target.1)
  let listen_addr = address (codes "0.0.0.0") args.cdp_port
  check (env.binds listen_addr) "Failed to start gateway"
  ok (record {
    instance_id = id;
    proxy_config = chrome_config server_addr uri.path;
    listen_addr = listen_addr;
    services = create_services_from_args ip (some args.cdp_port) (some args.tzafonwright_port) none;
  })

-- The registration that `instance_manager_connection` sends.
abbrev pub registration_of : Setup → InstanceDescription
registration_of s = registration s.instance_id chrome_browser (some s.services)
