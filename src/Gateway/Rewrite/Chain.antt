-- ===== src/Gateway/Rewrite/Chain.antt =====
-- Two gateways in a row, as the one that a proxy is and the one of a container behind it.
use mathlib.Core.Path.{subst}
use tzafon_way_point.Prelude.{ℕ, suc, ◌≡◌, refl, ap, ◌∙◌, Bool, true, List, ◌++◌, Text, All, ltb}
use tzafon_way_point.Gateway.Http.{Result, ok, ◌>>=◌, Request, parse, head_text, write_to_stream}
use tzafon_way_point.Gateway.Http.RoundTrip.{IsClean, parse-head_text}
use tzafon_way_point.Gateway.Http.Parsed.{Holds, parse-IsClean}
use tzafon_way_point.Gateway.Http.Written.{read_until_empty_line-head_text}
use tzafon_way_point.Gateway.Rewrite.{
  HttpProxyConfig, Forwarded, modify_request, new_connection, received, read_request,
  start_http_proxy_connection,
}
use tzafon_way_point.Gateway.Rewrite.Forward.{IsCleanConfig, modify_request-IsClean}
use tzafon_way_point.Gateway.Rewrite.Connection.{IsRequest, as_bytes_ascii}

abbrev pub IsAscii : Text → Type 0
IsAscii = All (λ c. ltb c 128 ≡ true)

read_request-ok :
    (bytes : List ℕ) (r : Request) (rest : List ℕ)
    → IsRequest bytes r rest
    → read_request bytes ≡ ok (r, rest)
read_request-ok bytes r rest (head, e, p) =
    ap (λ m. m >>= (λ x. parse x.0 >>= (λ q. ok (q, x.1)))) e
    ∙ ap (λ m. m >>= (λ q. ok (q, rest))) p

-- For every clean request whose head is ASCII, and whatever follows it: what is read of the bytes that
-- were written for it is the request, and what follows is left.
pub read_request-write_to_stream :
    (r : Request) (body : List ℕ)
    → IsClean r
    → IsAscii (head_text r)
    → read_request (write_to_stream r ++ body) ≡ ok (r, body)
unfolding write_to_stream
read_request-write_to_stream r body clean plain =
    ap (λ x. read_request (x ++ body)) (as_bytes_ascii (head_text r) plain)
    ∙ read_request-ok (head_text r ++ body) r body
        (head_text r, read_until_empty_line-head_text r body clean, parse-head_text r clean)

-- What a gateway makes of a request, if its server can be reached
abbrev pub delivery : HttpProxyConfig → Request → List ℕ → Result Forwarded × HttpProxyConfig
delivery c r rest = (
  ok (record { head = write_to_stream (modify_request c r); body = rest }),
  record c { connection_count = suc c.connection_count },
)

passes_on :
    (connects : Text → Bool) (c : HttpProxyConfig) (bytes : List ℕ) (r : Request) (rest : List ℕ)
    → connects c.server_addr ≡ true
    → read_request bytes ≡ ok (r, rest)
    → start_http_proxy_connection connects c bytes ≡ delivery c r rest
unfolding start_http_proxy_connection new_connection
passes_on connects c bytes r rest up e = ap (received connects c) e ∙ rw up refl

-- For a client's request with a body, and a gateway with a clean path and clean headers that rewrites it to
-- an ASCII head: the gateway passes the bytes on, and a second gateway that gets them passes on the request
-- that its own configuration makes of the rewritten one, with the same body, if their servers can be reached.
pub start_http_proxy_connection-twice :
    (connects : Text → Bool) (c d : HttpProxyConfig) (bytes : List ℕ) (r : Request) (rest : List ℕ)
    → IsCleanConfig c
    → IsRequest bytes r rest
    → IsAscii (head_text (modify_request c r))
    → connects c.server_addr ≡ true
    → connects d.server_addr ≡ true
    → (f : Forwarded) × (start_http_proxy_connection connects c bytes
        ≡ (ok f, record c { connection_count = suc c.connection_count }))
      × (start_http_proxy_connection connects d (f.head ++ f.body)
          ≡ delivery d (modify_request c r) rest)
start_http_proxy_connection-twice connects c d bytes r rest clean (head, e, p) plain up up' =
    let q = modify_request c r in
    let q-IsClean =
      modify_request-IsClean c r clean (subst (Holds IsClean) p (parse-IsClean head)) in
    (
      record { head = write_to_stream q; body = rest },
      passes_on connects c bytes r rest up (read_request-ok bytes r rest (head, e, p)),
      passes_on connects d (write_to_stream q ++ rest) q rest up'
          (read_request-write_to_stream q rest q-IsClean plain),
    )
