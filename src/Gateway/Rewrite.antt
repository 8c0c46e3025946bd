-- ===== src/Gateway/Rewrite.antt =====
-- apps/rust-shared/src/socket_gateway/simple_gateway.rs and the connection of http_proxy.rs: how the
-- gateway rewrites a request, and what it sends to the server.
pub mod Headers
pub mod Forward
pub mod Connection
pub mod Chain
use tzafon_way_point.Prelude.{
  ℕ, suc, Bool, true, false, not, List, [], ◌∷◌, ◌++◌, Text, codes, text_eq, if◌then◌else◌, is_some,
  keep,
}
use tzafon_way_point.Dict.{Dict, get, insert, empty}
use tzafon_way_point.Gateway.Http.{
  Result, ok, err, ◌>>=◌, Error, io_error, Request, read_until_empty_line, parse, write_to_stream,
}

pub data PathOverride : Type 0 where
  prefix replace append : Text → PathOverride

pub record HttpProxyConfig : Type 0 where
  pub override_headers : Dict Text
  pub path_override : PathOverride
  pub server_addr : Text
  pub connection_count : ℕ

-- "/"
abbrev pub root : Text
root = 47 ∷ []

-- `HttpProxyConfig::new`
unfoldable pub new : Text → HttpProxyConfig
new server_addr = record {
  override_headers = empty;
  path_override = prefix root;
  server_addr = server_addr;
  connection_count = 0;
}

unfoldable pub with_path_override : PathOverride → HttpProxyConfig → HttpProxyConfig
with_path_override p c = record c { path_override = p }

unfoldable pub with_header_override : Text → Text → HttpProxyConfig → HttpProxyConfig
with_header_override key value c = record c {
  override_headers = insert key value c.override_headers;
}

-- The match of `modify_request` on the override and the path.
unfoldable pub override_path : PathOverride → Text → Text
override_path (replace p) path = p
override_path (prefix p) path = if text_eq path root then p else p ++ path
override_path (append p) path = if text_eq path root then p else path ++ p

-- `retain` and `extend`
unfoldable pub override : Dict Text → List (Text × Text) → List (Text × Text)
override d hs = keep (λ h. not (is_some (get h.0 d))) hs ++ d.entries

unfoldable pub modify_request : HttpProxyConfig → Request → Request
modify_request c r = record r {
  path = override_path c.path_override r.path;
  headers = override c.override_headers r.headers;
}

-- A connection to the server: whether it can be opened is the network's answer.
pub record HttpProxyInstance : Type 0 where
  pub request : Request
  pub connection_id : ℕ

module _ (connects : Text → Bool) where
  -- `new_connection` of the simple gateway; a refusal leaves the count as it was.
  unfoldable pub new_connection :
      HttpProxyConfig → Request → Result HttpProxyInstance × HttpProxyConfig
  new_connection c r =
      if connects c.server_addr
      then (
        ok (record { request = modify_request c r; connection_id = suc c.connection_count }),
        record c { connection_count = suc c.connection_count },
      )
      else (err (io_error "Failed to connect to server"), c)

-- What the server gets: the head that is written, and the client's bytes that the copy begins with.
pub record Forwarded : Type 0 where
  pub head : List ℕ
  pub body : List ℕ

abbrev pub sent :
    List ℕ → Result HttpProxyInstance × HttpProxyConfig → Result Forwarded × HttpProxyConfig
sent rest (m, c) = (m >>= (λ i. ok (record { head = write_to_stream i.request; body = rest })), c)

abbrev pub received :
    (Text → Bool) → HttpProxyConfig → Result (Request × List ℕ) → Result Forwarded × HttpProxyConfig
received connects c (err e) = (err e, c)
received connects c (ok (r, rest)) = sent rest (new_connection connects c r)

abbrev pub read_request : List ℕ → Result (Request × List ℕ)
read_request bytes = read_until_empty_line bytes >>= (λ x. parse x.0 >>= (λ r. ok (r, x.1)))

-- `start_http_proxy_connection`, if no write fails.
unfoldable pub start_http_proxy_connection :
    (Text → Bool) → HttpProxyConfig → List ℕ → Result Forwarded × HttpProxyConfig
start_http_proxy_connection connects c bytes = received connects c (read_request bytes)

-- `start_simple_http_gateway`
unfoldable pub simple_http_config : Text → HttpProxyConfig
simple_http_config server_addr = with_header_override (codes "Host") server_addr (new server_addr)
