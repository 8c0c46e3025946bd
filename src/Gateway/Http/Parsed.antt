-- ===== src/Gateway/Http/Parsed.antt =====
-- A request that `Request::new` returns is clean.
use mathlib.Core.Path.{subst}
use tzafon_way_point.Prelude.{
  ℕ, ◌≡◌, refl, sym, false, Option, none, some, List, [], ◌∷◌, ◌++◌, Text, arith, ◌==◌, All,
}
use tzafon_way_point.Gateway.Http.{
  Result, ok, err, ◌>>=◌, parse_error, Request, space, colon, split_lines, split_once, trim,
  parse_request_line, parse_header_line, parse_headers, parse_lines, parse, head_text,
}
use tzafon_way_point.Gateway.Http.Lines.{
  Lacks, NoCrlf, split_once_sound, split_lines-NoCrlf, NoCrlf-append_left, NoCrlf-append_right,
  NoCrlf-join, NoCrlf-cons,
}
use tzafon_way_point.Gateway.Http.Trim.{trim_split, trim-trim}
use tzafon_way_point.Gateway.Http.RoundTrip.{IsCleanHeader, IsClean, parse-head_text}

-- What holds of the value of a result that is one.
abbrev pub Holds : {A : Type 0} → (A → Type 0) → Result A → Type 0
Holds P (ok a) = P a
Holds P (err e) = Unit

Holds->>= :
    {A B : Type 0} (P : A → Type 0) (Q : B → Type 0) (m : Result A) (f : A → Result B)
    → Holds P m
    → ((a : A) → P a → Holds Q (f a))
    → Holds Q (m >>= f)
Holds->>= P Q (ok a) f h k = k a h
Holds->>= P Q (err e) f h k = tt

IsCleanLine : Text × Text × Text → Type 0
IsCleanLine (method, path, version) =
    Lacks space method × Lacks space path × NoCrlf (method ++ space ∷ (path ++ space ∷ version))

-- The two separators of a request line.
abbrev path_part : Text → Option (Text × Text) → Result (Text × Text × Text)
path_part method none = err (parse_error "Missing version")
path_part method (some (path, version)) = ok (method, path, version)

abbrev method_part : Option (Text × Text) → Result (Text × Text × Text)
method_part none = err (parse_error "Missing path")
method_part (some (method, rest)) = path_part method (split_once space rest)

parse_request_line_parts :
    (line : Text) → parse_request_line line ≡ method_part (split_once space line)
unfolding parse_request_line
parse_request_line_parts line = ground arith

path_part-IsCleanLine :
    (method rest : Text) (o : Option (Text × Text))
    → split_once space rest ≡ o
    → Lacks space method
    → NoCrlf (method ++ space ∷ rest)
    → Holds IsCleanLine (path_part method o)
unfolding IsCleanLine
path_part-IsCleanLine method rest none e h n = tt
path_part-IsCleanLine method rest (some (path, version)) e h n =
    let (same, lacks) = split_once_sound space rest path version e in
    (h, lacks, subst (λ x. NoCrlf (method ++ space ∷ x)) same n)

method_part-IsCleanLine :
    (line : Text) (o : Option (Text × Text))
    → split_once space line ≡ o
    → NoCrlf line
    → Holds IsCleanLine (method_part o)
method_part-IsCleanLine line none e n = tt
method_part-IsCleanLine line (some (method, rest)) e n =
    let (same, lacks) = split_once_sound space line method rest e in
    path_part-IsCleanLine method rest (split_once space rest) refl lacks (subst NoCrlf same n)

parse_request_line-IsCleanLine :
    (line : Text) → NoCrlf line → Holds IsCleanLine (parse_request_line line)
parse_request_line-IsCleanLine line n =
    subst (Holds IsCleanLine) (sym (parse_request_line_parts line))
      (method_part-IsCleanLine line (split_once space line) refl n)

All-append_left : (P : ℕ → Type 0) (s t : Text) → All P (s ++ t) → All P s
All-append_left P [] t h = tt
All-append_left P (a ∷ s) t h = (h.0, All-append_left P s t h.1)

All-append_right : (P : ℕ → Type 0) (s t : Text) → All P (s ++ t) → All P t
All-append_right P [] t h = h
All-append_right P (a ∷ s) t h = All-append_right P s t h.1

trim-Lacks : (c : ℕ) (s : Text) → Lacks c s → Lacks c (trim s)
trim-Lacks c s h =
    let (v, w, e) = trim_split s in
    All-append_left (λ x. (x == c) ≡ false) (trim s) w
      (All-append_right (λ x. (x == c) ≡ false) v (trim s ++ w) (subst (Lacks c) e h))

trim-NoCrlf : (s : Text) → NoCrlf s → NoCrlf (trim s)
trim-NoCrlf s h =
    let (v, w, e) = trim_split s in
    NoCrlf-append_left (trim s) w (NoCrlf-append_right v (trim s ++ w) (subst NoCrlf e h))

abbrev header_part : Option (Text × Text) → Result (Text × Text)
header_part none = err (parse_error "Malformed header line")
header_part (some (key, value)) = ok (trim key, trim value)

parse_header_line_parts :
    (line : Text) → parse_header_line line ≡ header_part (split_once colon line)
unfolding parse_header_line
parse_header_line_parts line = ground arith

header_part-IsCleanHeader :
    (line : Text) (o : Option (Text × Text))
    → split_once colon line ≡ o
    → NoCrlf line
    → Holds IsCleanHeader (header_part o)
header_part-IsCleanHeader line none e n = tt
header_part-IsCleanHeader line (some (key, value)) e n =
    let (same, lacks) = split_once_sound colon line key value e in
    let whole = subst NoCrlf same n in
    let of_value =
      NoCrlf-append_right (colon ∷ []) value (NoCrlf-append_right key (colon ∷ value) whole) in
    (
      trim-Lacks colon key lacks,
      trim-trim key,
      trim-trim value,
      NoCrlf-join (trim key) (space ∷ trim value) colon refl
          (trim-NoCrlf key (NoCrlf-append_left key (colon ∷ value) whole))
          (NoCrlf-cons colon (space ∷ trim value) refl
            (NoCrlf-cons space (trim value) refl (trim-NoCrlf value of_value))),
    )

parse_header_line-IsCleanHeader :
    (line : Text) → NoCrlf line → Holds IsCleanHeader (parse_header_line line)
parse_header_line-IsCleanHeader line n =
    subst (Holds IsCleanHeader) (sym (parse_header_line_parts line))
      (header_part-IsCleanHeader line (split_once colon line) refl n)

parse_headers-IsClean :
    (lines : List Text) → All NoCrlf lines → Holds (All IsCleanHeader) (parse_headers lines)
unfolding parse_headers
parse_headers-IsClean [] h = tt
parse_headers-IsClean ([] ∷ lines) h = tt
parse_headers-IsClean ((c ∷ line) ∷ lines) h =
    Holds->>= IsCleanHeader (All IsCleanHeader) (parse_header_line (c ∷ line))
      (λ x. parse_headers lines >>= (λ xs. ok (x ∷ xs)))
      (parse_header_line-IsCleanHeader (c ∷ line) h.0)
      (λ x hx.
        Holds->>= (All IsCleanHeader) (All IsCleanHeader) (parse_headers lines) (λ xs. ok (x ∷ xs))
          (parse_headers-IsClean lines h.1) (λ xs hxs. (hx, hxs)))

parse_lines-IsClean : (lines : List Text) → All NoCrlf lines → Holds IsClean (parse_lines lines)
unfolding parse_lines IsCleanLine
parse_lines-IsClean [] h = tt
parse_lines-IsClean (line ∷ lines) h =
    Holds->>= IsCleanLine IsClean (parse_request_line line)
      (λ p.
        parse_headers lines
        >>= (λ xs. ok (record { method = p.0; path = p.1; version = p.2; headers = xs })))
      (parse_request_line-IsCleanLine line h.0)
      (λ p hp.
        Holds->>= (All IsCleanHeader) IsClean (parse_headers lines)
          (λ xs. ok (record { method = p.0; path = p.1; version = p.2; headers = xs }))
          (parse_headers-IsClean lines h.1) (λ xs hxs. (hp.0, hp.1, hp.2, hxs)))

pub parse-IsClean : (data' : Text) → Holds IsClean (parse data')
unfolding parse
parse-IsClean data' = parse_lines-IsClean (split_lines data') (split_lines-NoCrlf data')

-- For every text that `Request::new` parses to a request, the head written for that request is
-- parsed to the same request.
pub parse-head_text-parse :
    (data' : Text) (r : Request) → parse data' ≡ ok r → parse (head_text r) ≡ ok r
parse-head_text-parse data' r e = parse-head_text r (subst (Holds IsClean) e (parse-IsClean data'))
