-- ===== src/Tests/Listen.antt =====
-- Two clients at a gateway, one of them without a request, and the end of its token.
use tzafon_way_point.Prelude.{◌+◌, ◌≡◌, refl, true, false, List, [], ◌∷◌, codes, arith, ◌++◌, some}
use tzafon_way_point.Dict.{insert, empty}
use tzafon_way_point.Gateway.Http.{trim, trim_start, is_whitespace}
use tzafon_way_point.Gateway.Rewrite.{
  HttpProxyConfig, simple_http_config, with_header_override, new,
}
use tzafon_way_point.Gateway.Rewrite.Forward.{IsCleanConfig}
use tzafon_way_point.Gateway.Listen.{
  Client, Arrival, cancelled, accepted, started, accept_loop, turn, tcp_connection, http_connection,
}
use tzafon_way_point.Gateway.Listen.Serving.{
  AllDelivered, reached, opened, ending, is_stopped, accept_loop-AllDelivered,
}

abbrev config : HttpProxyConfig
config = simple_http_config (codes "10.0.0.1:9222")

config-IsCleanConfig : IsCleanConfig config
unfolding simple_http_config with_header_override new insert empty trim trim_start is_whitespace
config-IsCleanConfig = ground arith

abbrev silent : Client
silent = record { bytes = []; stays_open = false; connects = λ a. true }

abbrev talking : Client
talking = record {
  bytes = codes "GET / HTTP/1.1" ++ (13 ∷ 10 ∷ 13 ∷ 10 ∷ []);
  stays_open = true;
  connects = λ a. true;
}

abbrev arrivals : List Arrival
arrivals = accepted silent ∷ accepted talking ∷ cancelled ∷ []

accept_loop-AllDelivered_example :
    AllDelivered config
      (reached arrivals)
      (accept_loop http_connection arrivals (started config)).handled
      (accept_loop http_connection arrivals (started config)).proxy_config
    × ((accept_loop http_connection arrivals (started config)).proxy_config ≡ record config {
      connection_count =
          config.connection_count
          + opened (accept_loop http_connection arrivals (started config)).handled;
    })
    × ((accept_loop http_connection arrivals (started config)).phase ≡ ending arrivals)
    × ((accept_loop http_connection arrivals (started config)).token_cancelled
        ≡ is_stopped (ending arrivals))
accept_loop-AllDelivered_example = accept_loop-AllDelivered arrivals config config-IsCleanConfig

-- The gateway without HTTP passes the bytes on as they are.
tcp_passes_on :
    (accept_loop tcp_connection arrivals (started (codes "10.0.0.1:1337"))).handled
    ≡ some [] ∷ some talking.bytes ∷ []
unfolding accept_loop turn tcp_connection
tcp_passes_on = refl
