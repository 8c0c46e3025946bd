-- ===== src/Gateway/Rewrite/Headers.antt =====
-- Which headers a rewritten request has.
use mathlib.Core.List.{append-nil}
use tzafon_way_point.Prelude.{
  ◌≡◌, refl, ap, ◌∙◌, inl, inr, Bool, not, Option, none, some, List, [], ◌∷◌, ◌++◌, Text, arith,
  text_eq, text_eq_iff, if◌then◌else◌, is_some, keep, Bool-cases,
}
use tzafon_way_point.Dict.{get}
use tzafon_way_point.Dict.Distinct.{IsDistinct}
use tzafon_way_point.Dict.Named.{named, named-append, one_if_some, named-entries}
use tzafon_way_point.Gateway.Http.{Request}
use tzafon_way_point.Gateway.Rewrite.{HttpProxyConfig, override, modify_request}

abbrev retained : (Text → Bool) → List (Text × Text) → List (Text × Text)
retained p = keep (λ h. not (p h.0))

named-retained :
    (k : Text) (p : Text → Bool) (hs : List (Text × Text))
    → named k (retained p hs) ≡ (if p k then [] else named k hs)
named-retained k p [] = ground arith
named-retained k p ((j, v) ∷ hs) = elim (Bool-cases (text_eq j k)) [
  | inl e ↦
      let same : j ≡ k = (text_eq_iff j k).0 e in
      ground (arith, e, ap p same, named-retained k p hs)
  | inr e ↦ ground (arith, e, named-retained k p hs)
]

-- What the rewritten request has under one name.
abbrev pub replaced : Text → Option Text → List (Text × Text) → List (Text × Text)
replaced k none hs = named k hs
replaced k (some v) hs = (k, v) ∷ []

replaced_append :
    (k : Text) (o : Option Text) (hs : List (Text × Text))
    → (if is_some o then [] else named k hs) ++ one_if_some k o ≡ replaced k o hs
replaced_append k none hs = append-nil (named k hs)
replaced_append k (some v) hs = refl

-- For every configuration whose overrides have distinct names, and every header name: a rewritten request
-- has the override of that name exactly once and no other header of it, and, when there is no override of
-- that name, the headers of it that the request had, in their order.
pub modify_request-headers :
    (c : HttpProxyConfig) (r : Request) (k : Text)
    → IsDistinct c.override_headers
    → named k (modify_request c r).headers ≡ replaced k (get k c.override_headers) r.headers
unfolding modify_request override
modify_request-headers c r k f =
    let p : Text → Bool = λ j. is_some (get j c.override_headers) in
    named-append k (retained p r.headers) c.override_headers.entries
    ∙ ap (λ x. x ++ named k c.override_headers.entries) (named-retained k p r.headers)
    ∙ ap (λ x. (if p k then [] else named k r.headers) ++ x) (named-entries k c.override_headers f)
    ∙ replaced_append k (get k c.override_headers) r.headers
