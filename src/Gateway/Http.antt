-- ===== src/Gateway/Http.antt =====
-- apps/rust-shared/src/socket_gateway/http_proxy.rs: reading, parsing and writing a request head.
-- The bytes of a head are read one by one as the characters U+0000 to U+00FF.
pub mod Lines
pub mod Trim
pub mod Read
pub mod RoundTrip
pub mod Parsed
pub mod Written
use mathlib.Core.List.{flat_map}
use tzafon_way_point.Prelude.{
  ℕ, ◌+◌, ◌*◌, ◌/◌, ◌%◌, Bool, true, false, ◌&&◌, ◌||◌, Option, none, some, List, [], ◌∷◌, ◌++◌,
  reverse, Text, codes, text_eq, String, if◌then◌else◌, ltb, leb, ◌==◌,
}

pub data Error : Type 0 where
  parse_error io_error : String → Error

pub data Result (A : Type 0) : Type 0 where
  ok : A → Result A
  err : Error → Result A

infixl 5 ◌>>=◌
abbrev pub ◌>>=◌ : {A B : Type 0} → Result A → (A → Result B) → Result B
ok a >>= f = f a
err e >>= f = err e

abbrev pub ok_or : {A : Type 0} → Option A → Error → Result A
ok_or none e = err e
ok_or (some a) e = ok a

pub record Request : Type 0 where
  pub method : Text
  pub path : Text
  pub version : Text
  pub headers : List (Text × Text)

abbrev pub cr : ℕ
cr = 13

abbrev pub lf : ℕ
lf = 10

abbrev pub space : ℕ
space = 32

abbrev pub colon : ℕ
colon = 58

abbrev pub crlf : Text
crlf = cr ∷ lf ∷ []

-- `ends_with`
unfoldable pub ends_with : Text → Text → Bool
ends_with suffix [] = text_eq suffix []
ends_with suffix (c ∷ s) = text_eq suffix (c ∷ s) || ends_with suffix s

-- The loop of `read_until_empty_line` over what the client sends; a stream that ends is an error.
-- The result has the bytes that are left in the stream too.
unfoldable pub read_loop : Text → List ℕ → Result (Text × List ℕ)
read_loop data' [] = err (io_error "Failed to read")
read_loop data' (b ∷ bs) =
    let next = data' ++ b ∷ [] in
    let rest = read_loop next bs in
    if ends_with (cr ∷ lf ∷ cr ∷ lf ∷ []) next then ok (next, bs) else rest

unfoldable pub read_until_empty_line : List ℕ → Result (Text × List ℕ)
unfolding read_loop
read_until_empty_line bytes = read_loop [] bytes

-- A character in front of the first piece.
abbrev pub onto_first : ℕ → List Text → List Text
onto_first c [] = (c ∷ []) ∷ []
onto_first c (l ∷ ls) = (c ∷ l) ∷ ls

-- `split("\r\n")`
unfoldable pub split_lines : Text → List Text
split_lines [] = [] ∷ []
split_lines (a ∷ []) = (a ∷ []) ∷ []
split_lines (a ∷ b ∷ s) = elim (a == cr && b == lf) [
  | true ↦ [] ∷ split_lines s
  | false ↦ onto_first a (split_lines (b ∷ s))
]

-- `split_once` at a character
unfoldable pub split_once : ℕ → Text → Option (Text × Text)
split_once c [] = none
split_once c (a ∷ s) =
    if a == c
    then some ([], s)
    else elim (split_once c s) [ none ↦ none | some (l, r) ↦ some (a ∷ l, r) ]

-- `char::is_whitespace`
unfoldable pub is_whitespace : ℕ → Bool
is_whitespace c =
    (leb 9 c && leb c 13)
    || (c == 32
        || (c == 133
            || (c == 160
                || (c == 5760
                    || ((leb 8192 c && leb c 8202)
                        || (c == 8232
                            || (c == 8233 || (c == 8239 || (c == 8287 || c == 12288)))))))))

unfoldable pub trim_start : Text → Text
trim_start [] = []
trim_start (c ∷ s) = let rest = trim_start s in if is_whitespace c then rest else c ∷ s

unfoldable pub trim : Text → Text
trim s = reverse (trim_start (reverse (trim_start s)))

-- `splitn(3, " ")`; `next` on it finds a method always.
unfoldable pub parse_request_line : Text → Result (Text × Text × Text)
parse_request_line line = elim (split_once space line) [
  | none ↦ err (parse_error "Missing path")
  | some (method, rest) ↦ elim (split_once space rest) [
    | none ↦ err (parse_error "Missing version")
    | some (path, version) ↦ ok (method, path, version)
  ]
]

unfoldable pub parse_header_line : Text → Result (Text × Text)
parse_header_line line = elim (split_once colon line) [
  | none ↦ err (parse_error "Malformed header line")
  | some (key, value) ↦ ok (trim key, trim value)
]

-- The loop over the lines behind the first, up to an empty one.
unfoldable pub parse_headers : List Text → Result (List (Text × Text))
parse_headers [] = err (parse_error "Missing empty line")
parse_headers ([] ∷ lines) = ok []
parse_headers ((c ∷ line) ∷ lines) = do
  header ← parse_header_line (c ∷ line)
  rest ← parse_headers lines
  ok (header ∷ rest)

-- `Request::new`. `split` yields one piece at least.
unfoldable pub parse_lines : List Text → Result Request
parse_lines [] = err (parse_error "Missing header line")
parse_lines (first ∷ lines) = do
  parts ← parse_request_line first
  headers ← parse_headers lines
  ok (record { method = parts.0; path = parts.1; version = parts.2; headers = headers })

unfoldable pub parse : Text → Result Request
parse data' = parse_lines (split_lines data')

-- What `write_to_stream` sends, as characters.
unfoldable pub request_line : Request → Text
request_line r = r.method ++ space ∷ (r.path ++ space ∷ (r.version ++ crlf))

unfoldable pub header_line : Text × Text → Text
header_line (key, value) = key ++ colon ∷ space ∷ (value ++ crlf)

unfoldable pub header_lines : List (Text × Text) → Text
header_lines [] = crlf
header_lines (h ∷ hs) = header_line h ++ header_lines hs

unfoldable pub head_text : Request → Text
head_text r = request_line r ++ header_lines r.headers

-- `as_bytes`: UTF-8.
unfoldable pub encode : ℕ → List ℕ
encode c =
    if ltb c 128
    then c ∷ []
    else if ltb c 2048
    then (192 + c / 64) ∷ (128 + c % 64) ∷ []
    else if ltb c 65536
    then (224 + c / 4096) ∷ (128 + c / 64 % 64) ∷ (128 + c % 64) ∷ []
    else (240 + c / 262144) ∷ (128 + c / 4096 % 64) ∷ (128 + c / 64 % 64) ∷ (128 + c % 64) ∷ []

unfoldable pub as_bytes : Text → List ℕ
as_bytes [] = []
as_bytes (c ∷ s) = encode c ++ as_bytes s

-- The bytes on the server's side of the connection, if no write fails.
unfoldable pub write_to_stream : Request → List ℕ
write_to_stream r = as_bytes (head_text r)
