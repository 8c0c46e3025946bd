-- ===== src/Gateway/Http/RoundTrip.antt =====
-- A request head that is written is parsed to the same request.
use mathlib.Core.List.{append_assoc}
use tzafon_way_point.Prelude.{◌≡◌, refl, sym, ap, ◌∙◌, List, [], ◌∷◌, ◌++◌, Text, All}
use tzafon_way_point.Gateway.Http.{
  ok, ◌>>=◌, Request, cr, lf, crlf, space, colon, split_lines, trim_start, trim, is_whitespace,
  parse_request_line, parse_header_line, parse_headers, parse_lines, parse, request_line,
  header_line, header_lines, head_text,
}
use tzafon_way_point.Gateway.Http.Lines.{Lacks, NoCrlf, split_once-append, split_lines-append}

-- A header that survives being written and parsed.
abbrev pub IsCleanHeader : Text × Text → Type 0
IsCleanHeader (key, value) =
    Lacks colon key
    × (trim key ≡ key)
    × (trim value ≡ value)
    × NoCrlf (key ++ colon ∷ space ∷ value)

abbrev pub IsClean : Request → Type 0
IsClean r =
    Lacks space r.method
    × Lacks space r.path
    × NoCrlf (r.method ++ space ∷ (r.path ++ space ∷ r.version))
    × All IsCleanHeader r.headers

parse_request_line-join :
    (method path version : Text)
    → Lacks space method
    → Lacks space path
    → parse_request_line (method ++ space ∷ (path ++ space ∷ version)) ≡ ok (method, path, version)
unfolding parse_request_line
parse_request_line-join method path version hm hp = rw (
  parse_request_line,
  split_once-append space method (path ++ space ∷ version) hm,
  split_once-append space path version hp,
)

trim-space : (v : Text) → trim (space ∷ v) ≡ trim v
unfolding trim trim_start is_whitespace
trim-space v = refl

parse_header_line-join :
    (key value : Text)
    → Lacks colon key
    → trim key ≡ key
    → trim value ≡ value
    → parse_header_line (key ++ colon ∷ space ∷ value) ≡ ok (key, value)
unfolding parse_header_line
parse_header_line-join key value h hk hv =
    rw (parse_header_line, split_once-append colon key (space ∷ value) h, trim-space value, hk, hv)

parse_headers-cons :
    (key value : Text) (lines : List Text)
    → parse_headers ((key ++ colon ∷ value) ∷ lines) ≡ (
        parse_header_line (key ++ colon ∷ value)
        >>= (λ h. parse_headers lines >>= (λ hs. ok (h ∷ hs))))
unfolding parse_headers
parse_headers-cons [] value lines = refl
parse_headers-cons (c ∷ key) value lines = refl

pub header_line-join :
    (key value : Text) → header_line (key, value) ≡ (key ++ colon ∷ space ∷ value) ++ crlf
unfolding header_line
header_line-join key value = sym (append_assoc key (colon ∷ space ∷ value) crlf)

headers_end : parse_headers (split_lines (header_lines [])) ≡ ok []
unfolding parse_headers split_lines header_lines
headers_end = refl

parse_headers-header_lines :
    (hs : List (Text × Text))
    → All IsCleanHeader hs
    → parse_headers (split_lines (header_lines hs)) ≡ ok hs
unfolding header_lines
parse_headers-header_lines [] h = headers_end
parse_headers-header_lines ((key, value) ∷ hs) ((hc, hk, hv, hn), h) =
    let line = key ++ colon ∷ space ∷ value in
    let cut : split_lines (header_line (key, value) ++ header_lines hs)
        ≡ line ∷ split_lines (header_lines hs) =
      ap (λ x. split_lines (x ++ header_lines hs)) (header_line-join key value)
      ∙ ap split_lines (append_assoc line crlf (header_lines hs))
      ∙ split_lines-append line (header_lines hs) hn in
    ap parse_headers cut
    ∙ parse_headers-cons key (space ∷ value) (split_lines (header_lines hs))
    ∙ rw (parse_header_line-join key value hc hk hv, parse_headers-header_lines hs h)

pub request_line-join :
    (r : Request) (rest : Text)
    → request_line r ++ rest ≡ (r.method ++ space ∷ (r.path ++ space ∷ r.version)) ++ cr ∷ lf ∷ rest
unfolding request_line
request_line-join r rest =
    let front = r.method ++ space ∷ (r.path ++ space ∷ r.version) in
    let joined : r.method ++ space ∷ (r.path ++ space ∷ (r.version ++ crlf)) ≡ front ++ crlf =
      ap (λ x. r.method ++ space ∷ x) (sym (append_assoc r.path (space ∷ r.version) crlf))
      ∙ sym (append_assoc r.method (space ∷ (r.path ++ space ∷ r.version)) crlf) in
    ap (λ x. x ++ rest) joined ∙ append_assoc front crlf rest

-- For every clean request, the head that `write_to_stream` sends is parsed by `Request::new` to that request.
pub parse-head_text : (r : Request) → IsClean r → parse (head_text r) ≡ ok r
unfolding parse head_text parse_lines
parse-head_text r (hm, hp, hn, hh) =
    let front = r.method ++ space ∷ (r.path ++ space ∷ r.version) in
    ap parse (request_line-join r (header_lines r.headers))
    ∙ ap parse_lines (split_lines-append front (header_lines r.headers) hn)
    ∙ rw (
      parse_request_line-join r.method r.path r.version hm hp,
      parse_headers-header_lines r.headers hh,
    )
