-- ===== src/Gateway/Listen.antt =====
-- apps/rust-shared/src/socket_gateway/simple_gateway.rs: the accept loops of the gateways.
-- A connection is set up inside the loop; what runs in its own task afterwards does not hold it up.
pub mod Serving
use tzafon_way_point.Prelude.{
  ℕ, ◌==◌, ◌/◌, ◌%◌, ◌+◌, zero, suc, Bool, true, false, ◌&&◌, Option, none, some, List, [], ◌∷◌,
  ◌++◌, Text, codes, ltb, if◌then◌else◌,
}
use tzafon_way_point.Gateway.Http.{Result, ok, err, read_until_empty_line}
use tzafon_way_point.Gateway.Rewrite.{HttpProxyConfig, Forwarded, start_http_proxy_connection}

-- A client: what it sends, whether it then keeps its side open without sending more, and which
-- servers can be reached when it comes.
pub record Client : Type 0 where
  pub bytes : List ℕ
  pub stays_open : Bool
  pub connects : Text → Bool

-- What `select!` yields in a round.
pub data Arrival : Type 0 where
  cancelled listener_closed : Arrival
  accepted : Client → Arrival

-- The loop is at `select!`, waits for the head of a request, or has ended.
pub data Phase : Type 0 where
  selecting waiting stopped : Phase

pub record Listener (C R : Type 0) : Type 0 where
  pub proxy_config : C
  pub handled : List R
  pub phase : Phase
  pub token_cancelled : Bool

abbrev pub started : {C R : Type 0} → C → Listener C R
started c = record { proxy_config = c; handled = []; phase = selecting; token_cancelled = false }

-- `connection` sets a connection up, or does not come back (`none`).
module _ {C R : Type 0} (connection : C → Client → Option (R × C)) where
  unfoldable pub turn : Arrival → Listener C R → Listener C R
  turn cancelled l = record l { phase = stopped; token_cancelled = true }
  turn listener_closed l = record l { phase = stopped; token_cancelled = true }
  turn (accepted client) l = elim (connection l.proxy_config client) [
    | none ↦ record l { phase = waiting }
    | some (result, c) ↦ record l { proxy_config = c; handled = l.handled ++ result ∷ [] }
  ]

  -- Only a loop that is at `select!` takes what comes.
  unfoldable pub accept_loop : List Arrival → Listener C R → Listener C R
  accept_loop [] l = l
  accept_loop (a ∷ rest) l =
      accept_loop rest (elim l.phase [ selecting ↦ turn a l | waiting ↦ l | stopped ↦ l ])

-- The head of the request does not end, and neither does the stream.
unfoldable pub stalls : Client → Bool
stalls client =
    client.stays_open && elim (read_until_empty_line client.bytes) [ ok _ ↦ false | err _ ↦ true ]

-- The loop of `start_simple_http_gateway_with_proxy_config`, for the simple configuration
unfoldable pub http_connection :
    HttpProxyConfig → Client → Option (Result Forwarded × HttpProxyConfig)
http_connection c client =
    if stalls client
    then none
    else some (start_http_proxy_connection client.connects c client.bytes)

-- `start_proxy_connection` always succeeds: the server is connected to in the task, and gets the
-- client's bytes if it can be reached.
unfoldable pub tcp_connection : Text → Client → Option (Option (List ℕ) × Text)
tcp_connection server_addr client =
    some (if client.connects server_addr then some client.bytes else none, server_addr)
