-- ===== src/Gateway/Rewrite/Connection.antt =====
-- A whole connection: what the client sends and what the server gets.
use tzafon_way_point.Prelude.{
  ℕ, suc, ◌≡◌, refl, ap, ◌⊎◌, inl, inr, Bool, true, false, List, [], ◌∷◌, Text, arith, All, ltb,
  Bool-cases,
}
use tzafon_way_point.Gateway.Http.{
  Result, ok, err, ◌>>=◌, Request, read_until_empty_line, parse, head_text, encode, as_bytes,
  write_to_stream,
}
use tzafon_way_point.Gateway.Rewrite.{
  HttpProxyConfig, Forwarded, modify_request, new_connection, sent, received, read_request,
  start_http_proxy_connection,
}
use tzafon_way_point.Gateway.Rewrite.Forward.{IsCleanConfig, parse-modify_request}

-- ASCII texts are sent as they are.
pub as_bytes_ascii : (s : Text) → All (λ c. ltb c 128 ≡ true) s → as_bytes s ≡ s
unfolding as_bytes encode
as_bytes_ascii [] h = refl
as_bytes_ascii (c ∷ s) (h, hs) = rw h (ap (λ x. c ∷ x) (as_bytes_ascii s hs))

-- The client's bytes are a head that was read and parsed, and the rest.
abbrev pub IsRequest : List ℕ → Request → List ℕ → Type 0
IsRequest bytes r rest =
    (head : Text) × (read_until_empty_line bytes ≡ ok (head, rest)) × (parse head ≡ ok r)

-- What a connection comes to: it fails, with the configuration as it was, or the server gets the
-- rewritten request and what follows the client's head.
abbrev pub Delivers :
    (Text → Bool) → HttpProxyConfig → List ℕ → Result Forwarded × HttpProxyConfig → Type 0
Delivers connects c bytes (err e, c') =
    (c' ≡ c)
    × (((r : Request) (rest : List ℕ) → IsRequest bytes r rest → ⊥)
        ⊎ (connects c.server_addr ≡ false))
Delivers connects c bytes (ok f, c') =
    (r : Request) × IsRequest bytes r f.body
    × (f.head ≡ as_bytes (head_text (modify_request c r)))
    × (parse (head_text (modify_request c r)) ≡ ok (modify_request c r))
    × (connects c.server_addr ≡ true)
    × (c' ≡ record c { connection_count = suc c.connection_count })

sent-Delivers :
    (connects : Text → Bool) (c : HttpProxyConfig) (bytes : List ℕ) (r : Request) (rest : List ℕ)
    → IsCleanConfig c
    → IsRequest bytes r rest
    → Delivers connects c bytes (sent rest (new_connection connects c r))
unfolding new_connection write_to_stream
sent-Delivers connects c bytes r rest clean (head, e, p) =
    elim (Bool-cases (connects c.server_addr)) [
      | inl up ↦ rw up (r, (head, e, p), refl, parse-modify_request c head r clean p, up, refl)
      | inr down ↦ rw down (refl, inr down)
    ]

-- Reading and parsing: a request and the rest, or an error when there is no request.
abbrev IsParsed : List ℕ → Result (Request × List ℕ) → Type 0
IsParsed bytes (ok (r, rest)) = IsRequest bytes r rest
IsParsed bytes (err e) = (r : Request) (rest : List ℕ) → IsRequest bytes r rest → ⊥

parse-IsParsed :
    (bytes : List ℕ) (head : Text) (rest : List ℕ) (m : Result Request)
    → read_until_empty_line bytes ≡ ok (head, rest)
    → parse head ≡ m
    → IsParsed bytes (m >>= (λ r. ok (r, rest)))
parse-IsParsed bytes head rest (ok r) e p = (head, e, p)
parse-IsParsed bytes head rest (err x) e p = λ r rest' (head', e', p').
    let same : head ≡ head' = ground (arith, e, e') in absurd (ground (arith, p, p', same))

read_request-IsParsed :
    (bytes : List ℕ) (m : Result (Text × List ℕ))
    → read_until_empty_line bytes ≡ m
    → IsParsed bytes (m >>= (λ x. parse x.0 >>= (λ r. ok (r, x.1))))
read_request-IsParsed bytes (ok (head, rest)) e = parse-IsParsed bytes head rest (parse head) e refl
read_request-IsParsed bytes (err x) e = λ r rest (head, e', p). absurd (ground (arith, e, e'))

received-Delivers :
    (connects : Text → Bool) (c : HttpProxyConfig) (bytes : List ℕ) (m : Result (Request × List ℕ))
    → IsCleanConfig c
    → IsParsed bytes m
    → Delivers connects c bytes (received connects c m)
received-Delivers connects c bytes (ok (r, rest)) clean h =
    sent-Delivers connects c bytes r rest clean h
received-Delivers connects c bytes (err e) clean h = (refl, inl h)

-- For every configuration with a clean path and clean headers and all bytes of a client: if the server
-- gets anything, it is the UTF-8 of the rewritten request, which parses to the rewritten request, and the
-- client's bytes behind its head, and one more connection is counted; if not, the configuration is
-- unchanged, and the bytes hold no request or the server could not be reached.
pub start_http_proxy_connection-Delivers :
    (connects : Text → Bool) (c : HttpProxyConfig) (bytes : List ℕ)
    → IsCleanConfig c
    → Delivers connects c bytes (start_http_proxy_connection connects c bytes)
unfolding start_http_proxy_connection
start_http_proxy_connection-Delivers connects c bytes clean =
    received-Delivers connects c bytes (read_request bytes) clean
      (read_request-IsParsed bytes (read_until_empty_line bytes) refl)
