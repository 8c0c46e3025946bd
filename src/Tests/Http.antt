-- ===== src/Tests/Http.antt =====
-- The theorems on request heads, for a small one.
use mathlib.Core.Path.{subst}
use tzafon_way_point.Prelude.{suc, true, arith, ◌≡◌, refl, [], ◌∷◌, ◌++◌, Text, text_eq, codes}
use tzafon_way_point.Dict.{get, insert, empty}
use tzafon_way_point.Dict.Distinct.{IsDistinct, insert-IsDistinct, empty-IsDistinct}
use tzafon_way_point.Dict.Named.{named}
use tzafon_way_point.Gateway.Http.{
  ok, Request, crlf, ends_with, read_until_empty_line, read_loop, split_lines, split_once,
  is_whitespace, trim_start, trim, parse_request_line, parse_header_line, parse_headers,
  parse_lines, parse, head_text,
}
use tzafon_way_point.Gateway.Http.Read.{Reads, read_until_empty_line-Reads}
use tzafon_way_point.Gateway.Http.RoundTrip.{IsClean}
use tzafon_way_point.Gateway.Http.Parsed.{Holds, parse-IsClean, parse-head_text-parse}
use tzafon_way_point.Gateway.Rewrite.{
  HttpProxyConfig, root, new, with_header_override, modify_request, simple_http_config,
}
use tzafon_way_point.Gateway.Http.{write_to_stream, request_line, header_line, header_lines}
use tzafon_way_point.Gateway.Rewrite.{
  start_http_proxy_connection, read_request, Forwarded, override, override_path,
}
use tzafon_way_point.Gateway.Rewrite.Connection.{
  IsRequest, Delivers, start_http_proxy_connection-Delivers,
}
use tzafon_way_point.Gateway.Rewrite.Headers.{replaced, modify_request-headers}
use tzafon_way_point.Gateway.Rewrite.Forward.{IsCleanConfig}
use tzafon_way_point.Gateway.Rewrite.Chain.{
  read_request-write_to_stream, delivery, start_http_proxy_connection-twice,
}

abbrev line : Text
line = codes "GET / HTTP/1.1"

abbrev host : Text × Text
host = (codes "Host", codes "a")

-- The head of the repository's own test, shorter; the header's value stands between spaces.
abbrev head : Text
head = line ++ crlf ++ (codes "Host:  a " ++ crlf ++ crlf)

abbrev pub request : Request
request = record {
  method = codes "GET";
  path = root;
  version = codes "HTTP/1.1";
  headers = host ∷ [];
}

abbrev config : HttpProxyConfig
config = simple_http_config (codes "10.0.0.1:9222")

read_until_empty_line-Reads_example :
    Reads [] (head ++ codes "body") (read_until_empty_line (head ++ codes "body"))
read_until_empty_line-Reads_example = read_until_empty_line-Reads (head ++ codes "body")

head_is_read : read_until_empty_line (head ++ codes "body") ≡ ok (head, codes "body")
unfolding read_until_empty_line ends_with text_eq
head_is_read = refl

head_is_parsed : parse head ≡ ok request
unfolding parse parse_lines parse_headers parse_header_line parse_request_line split_lines
    split_once trim trim_start is_whitespace
head_is_parsed = refl

request-IsClean : IsClean request
request-IsClean = subst (Holds IsClean) head_is_parsed (parse-IsClean head)

parse-head_text-parse_example : parse (head_text request) ≡ ok request
parse-head_text-parse_example = parse-head_text-parse head request head_is_parsed

config-IsDistinct : IsDistinct config.override_headers
unfolding simple_http_config with_header_override new
config-IsDistinct =
    insert-IsDistinct (codes "Host") (codes "10.0.0.1:9222") empty (empty-IsDistinct Text)

modify_request-headers_example :
    named (codes "Host") (modify_request config request).headers
    ≡ replaced (codes "Host") (get (codes "Host") config.override_headers) request.headers
modify_request-headers_example =
    modify_request-headers config request (codes "Host") config-IsDistinct

config-IsCleanConfig : IsCleanConfig config
unfolding simple_http_config with_header_override new insert empty trim trim_start is_whitespace
config-IsCleanConfig = ground arith

read_request-write_to_stream_example :
    read_request (write_to_stream request ++ codes "body") ≡ ok (request, codes "body")
unfolding head_text request_line header_lines header_line
read_request-write_to_stream_example =
    read_request-write_to_stream request (codes "body") request-IsClean (ground arith)

abbrev second : HttpProxyConfig
second = simple_http_config (codes "127.0.0.1:37")

head_with_body : IsRequest (head ++ codes "body") request (codes "body")
unfolding read_until_empty_line read_loop ends_with text_eq
head_with_body = (head, refl, head_is_parsed)

start_http_proxy_connection-twice_example :
    (f : Forwarded) × (start_http_proxy_connection (λ a. true) config (head ++ codes "body")
      ≡ (ok f, record config { connection_count = suc config.connection_count }))
    × (start_http_proxy_connection (λ a. true) second (f.head ++ f.body)
        ≡ delivery second (modify_request config request) (codes "body"))
unfolding modify_request override override_path simple_http_config with_header_override new insert
    empty get text_eq head_text request_line header_lines header_line
start_http_proxy_connection-twice_example =
    start_http_proxy_connection-twice (λ a. true) config second (head ++ codes "body") request
      (codes "body") config-IsCleanConfig head_with_body (ground arith) refl refl

start_http_proxy_connection-Delivers_example :
    Delivers
      (λ a. true)
      config
      (head ++ codes "body")
      (start_http_proxy_connection (λ a. true) config (head ++ codes "body"))
start_http_proxy_connection-Delivers_example =
    start_http_proxy_connection-Delivers (λ a. true) config (head ++ codes "body")
      config-IsCleanConfig
