-- ===== src/Tests/Container.antt =====
-- A container that starts Chrome and registers, one whose Chrome exits, and a proxy.
use tzafon_way_point.Prelude.{◌≡◌, refl, true, some, none, List, [], ◌∷◌, Text, codes}
use tzafon_way_point.Proto.{InstanceDescription}
use tzafon_way_point.Dict.{get-empty}
use tzafon_way_point.Manager.World.{new}
use tzafon_way_point.Manager.Lifetime.{Reachable, started}
use tzafon_way_point.Manager.Lifetime.Safety.{Reachable-IsValid}
use tzafon_way_point.Gateway.Http.{Request}
use tzafon_way_point.Container.Chrome.{
  ok, start_chrome, announced, contains, starts_with, parse_url_from_line, split, last,
}
use tzafon_way_point.Container.Chrome.Announced.{Announced, start_chrome-Announced}
use tzafon_way_point.Container.{Uri, Args, Environment, Setup, browser_main, address, decimal}
use tzafon_way_point.Container.Delivery.{setup_of, Delivery, browser_main-Reached}
use tzafon_way_point.Container.Tasks.{
  Program, launched, waiting, ended, Run, here, next, gateway_moves, chrome_moves, GatewayStep,
  ChildStep,
}
use tzafon_way_point.Container.Tasks.Shutdown.{Stage, launched-Stage}
use tzafon_way_point.Prelude.{text_eq}
use tzafon_way_point.Proto.{type_of_code}
use tzafon_way_point.Dict.{get, insert, empty}
use tzafon_way_point.Manager.World.{World, find}
use tzafon_way_point.Manager.Traits.{update_instance_description}
use tzafon_way_point.Manager.Relations.{check_request, check_parent, check_children}
use tzafon_way_point.Manager.Apply.{
  apply_to_instance_description, commit, rewrite, write_fields, adopt_children, join_parent, finish,
}
use tzafon_way_point.Manager.Register.{
  claim, settle, release_on_failure, insert_new_instance_description,
}
use tzafon_way_point.Manager.Rpc.{try_add_instance}
use tzafon_way_point.Client.HeartBeat.{registration, initialize_health_loop}
use tzafon_way_point.Client.EphemeralProxy.{answered, call}
use tzafon_way_point.Container.{generate_instance_id}
use tzafon_way_point.Container.Proxy
use tzafon_way_point.Container.Proxy.{start_health_loop, proxy_main}
use tzafon_way_point.Container.Proxy.Ready.{running_as, own_id, Ready, proxy_main-Ready}
use tzafon_way_point.Tests.Worlds.{clock}

abbrev lines : List Text
lines = codes "starting" ∷ codes "DevTools listening on ws://127.0.0.1:37/x" ∷ codes "ready" ∷ []

start_chrome-finds : start_chrome lines ≡ ok (codes "ws://127.0.0.1:37/x")
unfolding start_chrome announced contains starts_with parse_url_from_line split last
start_chrome-finds = refl

abbrev uri : Uri
uri = record { host = some (codes "127.0.0.1"); port = some (codes "37"); path = codes "/x" }

abbrev env : Environment
env = record {
  uuid = codes "1";
  hostname = none;
  chrome = some lines;
  tzafonwright_starts = true;
  binds = λ a. true;
  parse_uri = λ t. some uri;
}

abbrev args : Args
args = record { cdp_port = 9222; tzafonwright_port = 1337; ip_address = some (codes "10.0.0.5") }

abbrev setup : Setup
setup = setup_of args env (codes "10.0.0.5") uri (codes "127.0.0.1") (codes "37")

registered_address : address (codes "10.0.0.5") 9222 ≡ codes "10.0.0.5:9222"
unfolding address decimal
registered_address = refl

comes_up : browser_main args env ≡ ok setup
unfolding browser_main start_chrome announced contains starts_with parse_url_from_line split last
comes_up = refl

abbrev request : Request
request = record {
  method = codes "GET";
  path = codes "/devtools";
  version = codes "HTTP/1.1";
  headers = (codes "Host", codes "proxy") ∷ [];
}

new-Reachable : Reachable clock new
new-Reachable = started

browser_main-Reached_example : Delivery clock new args env setup (λ a. true) request
browser_main-Reached_example =
    browser_main-Reached args env setup clock new (λ a. true) request comes_up
      (Reachable-IsValid new-Reachable)
      (get-empty {V = InstanceDescription} setup.instance_id.instance_id) (λ a h. refl)

start_chrome-Announced_example : Announced lines (start_chrome lines)
start_chrome-Announced_example = start_chrome-Announced lines

abbrev chrome_gone : Program
chrome_gone = record launched { gateway = waiting; chrome = ended; token_cancelled = true }

-- A client that has not sent its head, and Chrome exits.
chrome_gone-Run : Run launched chrome_gone
chrome_gone-Run =
    next (next here refl (gateway_moves (GatewayStep.accepts refl))) refl
      (chrome_moves (ChildStep.exits refl))

launched-Stage_example : Stage chrome_gone
launched-Stage_example = launched-Stage chrome_gone-Run

abbrev proxy_args : Proxy.Args
proxy_args = record { cdp_port = 9222; tzafonwright_port = 1337 }

abbrev proxy_env : Proxy.Environment
proxy_env = record {
  uuid = codes "1";
  reaches_manager = true;
  delivery = answered;
  binds = λ a. true;
}

abbrev proxy_started : World
proxy_started = (proxy_main clock proxy_args proxy_env new).1

proxy_starts :
    proxy_main clock proxy_args proxy_env new
    ≡ (ok (running_as proxy_args (own_id proxy_env)), proxy_started)
unfolding proxy_main start_health_loop call initialize_health_loop registration try_add_instance
    insert_new_instance_description claim settle release_on_failure apply_to_instance_description
    check_request check_parent check_children find commit rewrite write_fields
    update_instance_description adopt_children join_parent finish get insert empty type_of_code
    text_eq generate_instance_id
proxy_starts = refl

proxy_main-Ready_example :
    Ready clock 24_000 proxy_args proxy_env (running_as proxy_args (own_id proxy_env)) proxy_started
proxy_main-Ready_example =
    proxy_main-Ready clock 24_000 proxy_args proxy_env new
      (running_as proxy_args (own_id proxy_env)) proxy_started (Reachable-IsValid new-Reachable)
      proxy_starts
