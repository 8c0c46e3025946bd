-- ===== src/Gateway/Rewrite/Forward.antt =====
-- The head that the server receives.
use mathlib.Core.Path.{subst}
use mathlib.Core.List.{append-nil}
use tzafon_way_point.Prelude.{
  ◌≡◌, refl, sym, inl, inr, Bool, false, not, List, [], ◌∷◌, ◌++◌, Text, text_eq, ◌==◌, is_some,
  keep, Bool-cases, All, All-append,
}
use tzafon_way_point.Dict.{get}
use tzafon_way_point.Gateway.Http.{ok, Request, cr, lf, space, parse, head_text}
use tzafon_way_point.Gateway.Http.Lines.{
  Lacks, NoCrlf, NoCrlf-append_left, NoCrlf-append_right, NoCrlf-join, NoCrlf-cons,
}
use tzafon_way_point.Gateway.Http.RoundTrip.{IsCleanHeader, IsClean, parse-head_text}
use tzafon_way_point.Gateway.Http.Parsed.{Holds, parse-IsClean}
use tzafon_way_point.Gateway.Rewrite.{
  PathOverride, prefix, replace, append, HttpProxyConfig, root, override_path, override,
  modify_request,
}

-- A part of a path that the configuration supplies.
abbrev pub IsCleanPath : Text → Type 0
IsCleanPath p = Lacks space p × Lacks cr p × Lacks lf p

abbrev pub path_of : PathOverride → Text
path_of (prefix p) = p
path_of (replace p) = p
path_of (append p) = p

abbrev pub IsCleanConfig : HttpProxyConfig → Type 0
IsCleanConfig c =
    IsCleanPath (path_of c.path_override) × All IsCleanHeader c.override_headers.entries

-- A text without line-end characters may stand before or behind any other.
clean_before : (p s : Text) → Lacks cr p → NoCrlf s → NoCrlf (p ++ s)
clean_before [] s h n = n
clean_before (a ∷ p) s h n = NoCrlf-cons a (p ++ s) h.0 (clean_before p s h.1 n)

clean_alone : (p : Text) → Lacks cr p → NoCrlf p
clean_alone [] h = tt
clean_alone (a ∷ p) h = NoCrlf-cons a p h.0 (clean_alone p h.1)

clean_behind : (s p : Text) → Lacks cr p → Lacks lf p → NoCrlf s → NoCrlf (s ++ p)
clean_behind s [] hc hl n = subst NoCrlf (sym (append-nil s)) n
clean_behind s (a ∷ p) hc hl n = NoCrlf-join s p a hl.0 n (clean_alone (a ∷ p) hc)

-- Where the overridden path comes from.
override_path-Clean :
    (o : PathOverride) (path : Text)
    → IsCleanPath (path_of o)
    → Lacks space path
    → NoCrlf path
    → Lacks space (override_path o path) × NoCrlf (override_path o path)
unfolding override_path
override_path-Clean (replace p) path (hs, hc, hl) ls n = (hs, clean_alone p hc)
override_path-Clean (prefix p) path (hs, hc, hl) ls n = elim (Bool-cases (text_eq path root)) [
  | inl e ↦ rw e (hs, clean_alone p hc)
  | inr e ↦ rw e (All-append (λ x. (x == space) ≡ false) p path hs ls, clean_before p path hc n)
]
override_path-Clean (append p) path (hs, hc, hl) ls n = elim (Bool-cases (text_eq path root)) [
  | inl e ↦ rw e (hs, clean_alone p hc)
  | inr e ↦ rw e (All-append (λ x. (x == space) ≡ false) path p ls hs, clean_behind path p hc hl n)
]

All-keep :
    (P : Text × Text → Type 0) (p : Text × Text → Bool) (hs : List (Text × Text))
    → All P hs
    → All P (keep p hs)
All-keep P p [] h = tt
All-keep P p (x ∷ hs) h = elim (Bool-cases (p x)) [
  | inl e ↦ rw e (h.0, All-keep P p hs h.1)
  | inr e ↦ rw e (All-keep P p hs h.1)
]

pub modify_request-IsClean :
    (c : HttpProxyConfig) (r : Request) → IsCleanConfig c → IsClean r → IsClean (modify_request c r)
unfolding modify_request override
modify_request-IsClean c r (hp, hd) (hm, ls, n, hh) =
    let behind = NoCrlf-append_right r.method (space ∷ (r.path ++ space ∷ r.version)) n in
    let rest = NoCrlf-append_right (space ∷ []) (r.path ++ space ∷ r.version) behind in
    let (ls', n') =
      override_path-Clean c.path_override r.path hp ls
        (NoCrlf-append_left r.path (space ∷ r.version) rest) in
    let tail = NoCrlf-append_right r.path (space ∷ r.version) rest in
    let line =
      NoCrlf-cons space (override_path c.path_override r.path ++ space ∷ r.version) refl
        (NoCrlf-join (override_path c.path_override r.path) r.version space refl n' tail) in
    (
      hm,
      ls',
      NoCrlf-join r.method (override_path c.path_override r.path ++ space ∷ r.version) space refl
          (NoCrlf-append_left r.method (space ∷ (r.path ++ space ∷ r.version)) n) line,
      All-append IsCleanHeader (keep (λ h. not (is_some (get h.0 c.override_headers))) r.headers)
          c.override_headers.entries
          (All-keep IsCleanHeader (λ h. not (is_some (get h.0 c.override_headers))) r.headers hh)
          hd,
    )

-- For every configuration with a clean path and clean headers, and every text that parses to a
-- request, the head written for the rewritten request is parsed to the rewritten request.
pub parse-modify_request :
    (c : HttpProxyConfig) (data' : Text) (r : Request)
    → IsCleanConfig c
    → parse data' ≡ ok r
    → parse (head_text (modify_request c r)) ≡ ok (modify_request c r)
parse-modify_request c data' r h e =
    parse-head_text (modify_request c r)
      (modify_request-IsClean c r h (subst (Holds IsClean) e (parse-IsClean data')))
